-- ===== src/Core/Error.antt =====
-- redog-core/src/error.rs: the error type, and the two ways in which a call can fail: a `Result`,
-- and a panic (`Outcome`), which stops the task that runs it.
use redog.Common.{Text, ◌≡◌, refl, ap, ◌⊎◌, inl, inr}

-- `std::io::Error` is kept as its message.
pub data Error : Type 0 where
  io : Text → Error
  dns_resolution : Text → Error
  proxy_handshake : Text → Error
  rule_match : Text → Error
  config : Text → Error
  connection_closed : Error
  timeout : Error
  invalid_address : Text → Error
  protocol : Text → Error
  other : Text → Error

pub data Result {ℓ} (A : Type ℓ) : Type ℓ where
  ok : A → Result A
  err : Error → Result A

-- The `?` operator.
abbrev pub and_then {ℓ κ} : {A : Type ℓ} {B : Type κ} → (A → Result B) → Result A → Result B
and_then next (err failure) = err failure
and_then next (ok value) = next value

infixl 5 ◌>>=◌
abbrev pub ◌>>=◌ {ℓ κ} : {A : Type ℓ} {B : Type κ} → Result A → (A → Result B) → Result B
r >>= next = and_then next r

infixl 5 ◌>>◌
abbrev pub ◌>>◌ {ℓ κ} : {A : Type ℓ} {B : Type κ} → Result A → Result B → Result B
r >> after = and_then (λ _. after) r

pub Result-cases {ℓ} :
    {A : Type ℓ} (r : Result A) → ((a : A) × (r ≡ ok a)) ⊎ ((e : Error) × (r ≡ err e))
Result-cases (ok a) = inl (a, refl)
Result-cases (err e) = inr (e, refl)

-- The value of a call that returns, or a panic.
pub data Outcome {ℓ} (A : Type ℓ) : Type ℓ where
  done : A → Outcome A
  panic : Outcome A

abbrev pub bind_outcome {ℓ κ} : {A : Type ℓ} {B : Type κ} → Outcome A → (A → Outcome B) → Outcome B
bind_outcome (done a) f = f a
bind_outcome panic f = panic

unwrap_or {ℓ} : {A : Type ℓ} → A → Outcome A → A
unwrap_or d (done a) = a
unwrap_or d panic = d

pub done-injective {ℓ} : {A : Type ℓ} {a b : A} → done a ≡ done b → a ≡ b
unfolding unwrap_or
done-injective {a} e = ap (unwrap_or a) e

-- Arithmetic on fixed-width integers: a debug build panics on overflow, a release build wraps.
pub data Build : Type 0 where
  debug release : Build
