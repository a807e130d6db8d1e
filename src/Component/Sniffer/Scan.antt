-- ===== src/Component/Sniffer/Scan.antt =====
-- A scan of a buffer: it returns, panics on a read out of range, or uses up the fuel of a loop.
use redog.Common.{
  ℕ, zero, suc, ◌+◌, ◌-◌, ◌*◌, ◌/◌, ◌%◌, ◌<◌, true, ◌&&◌, [], ◌∷◌, ◌++◌, leb, if◌then◌else◌, length,
  take, drop, ◌≡◌, refl, arith, length-append, drop_append, take_append,
}
use redog.Common.Utf8.{Bytes}

pub data Scan {ℓ} (A : Type ℓ) : Type ℓ where
  returns : A → Scan A
  panics : Scan A
  out_of_fuel : Scan A

infixl 5 ◌>>=◌
abbrev pub ◌>>=◌ {ℓ κ} : {A : Type ℓ} {B : Type κ} → Scan A → (A → Scan B) → Scan B
returns a >>= next = next a
panics >>= next = panics
out_of_fuel >>= next = out_of_fuel

-- `data[i]`
unfoldable pub byte_at : Bytes → ℕ → Scan ℕ
byte_at [] i = panics
byte_at (b ∷ bytes) zero = returns b
byte_at (b ∷ bytes) (suc i) = byte_at bytes i

-- `&data[from..to]`
unfoldable pub slice : Bytes → ℕ → ℕ → Scan Bytes
slice bytes from to =
    if leb from to && leb to (length bytes)
    then returns (take (to - from) (drop from bytes))
    else panics

-- Two bytes as a number: `(a << 8) | b`, which is a sum for bytes.
unfoldable pub pair_at : Bytes → ℕ → Scan ℕ
unfolding byte_at
pair_at bytes i = do high ← byte_at bytes i; low ← byte_at bytes (i + 1); returns (high * 256 + low)

module _ (front : Bytes) where
  pub byte_at_append :
      (b : ℕ) (rest : Bytes) (i : ℕ)
      → i ≡ length front
      → byte_at (front ++ (b ∷ rest)) i ≡ returns b
  unfolding byte_at
  byte_at_append b rest i e = rw e (here front)
    where
      here : (xs : Bytes) → byte_at (xs ++ (b ∷ rest)) (length xs) ≡ returns b
      here [] = refl
      here (x ∷ xs) = here xs

-- A byte inside the buffer is read.
pub byte_at_of_lt :
    (bytes : Bytes) (i : ℕ) → i < length bytes → (b : ℕ) × (byte_at bytes i ≡ returns b)
unfolding byte_at
byte_at_of_lt [] i h = absurd (omega arith)
byte_at_of_lt (b ∷ bytes) zero h = (b, refl)
byte_at_of_lt (b ∷ bytes) (suc i) h = byte_at_of_lt bytes i (omega arith)

pub slice_append :
    (front bytes rest : Bytes) (from to : ℕ)
    → from ≡ length front
    → to ≡ length front + length bytes
    → slice (front ++ (bytes ++ rest)) from to ≡ returns bytes
unfolding slice
slice_append front bytes rest from to e f =
    let inside : leb from to ≡ true = ground arith in
    let bound : leb to (length (front ++ (bytes ++ rest))) ≡ true =
      ground (arith, length-append front (bytes ++ rest), length-append bytes rest) in
    let width : to - from ≡ length bytes = omega arith in
    rw (inside, bound)
      (rw width (rw e (rw (drop_append front (bytes ++ rest), take_append bytes rest) refl)))

-- A number in two bytes, the high one first.
abbrev pub word : ℕ → Bytes
word n = (n / 256) ∷ (n % 256) ∷ []

byte_at-next :
    (front : Bytes) (a b : ℕ) (rest : Bytes)
    → byte_at (front ++ (a ∷ (b ∷ rest))) (length front + 1) ≡ returns b
unfolding byte_at
byte_at-next [] a b rest = refl
byte_at-next (x ∷ front) a b rest =
    let e : suc (length front) + 1 ≡ suc (length front + 1) = omega arith in
    rw e (byte_at-next front a b rest)

pub pair_at_append :
    (front : Bytes) (n : ℕ) (rest : Bytes) (i : ℕ)
    → i ≡ length front
    → pair_at (front ++ (word n ++ rest)) i ≡ returns n
unfolding pair_at
pair_at_append front n rest i e =
    let whole : n / 256 * 256 + n % 256 ≡ n = omega arith in
    rw e (
      rw (byte_at_append front (n / 256) ((n % 256) ∷ rest) (length front) refl)
        (rw (byte_at-next front (n / 256) (n % 256) rest) (rw whole refl)))
