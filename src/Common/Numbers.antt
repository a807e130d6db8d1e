-- ===== src/Common/Numbers.antt =====
-- Decimal numbers as `std` prints and parses them, `parse::<u16>` and the like, and the round
-- trip between the two.
use redog.Common.Tests.{ltb, leb, ◌==◌, if◌then◌else◌, Bool-cases}
use mathlib.Core.Logic.{inl, inr}
use redog.Common.Lists.{All}
use redog.Common.Strings.{Text, codes}
use Prim.Native.Nat.{ℕ, zero, suc, ◌+◌, ◌-◌, ◌*◌, ◌/◌, ◌%◌, ◌≤◌, ◌<◌}
use mathlib.Core.Path.{◌≡◌, refl, ap, sym, ◌∙◌}
use mathlib.Core.Bool.{Bool, ◌&&◌}
use mathlib.Core.List.{[], ◌∷◌}
use native.Mathlib.Omega.{arith}

-- A `Result` whose error is a message.
pub data Parsed {ℓ} (A : Type ℓ) : Type ℓ where
  parsed : A → Parsed A
  failed : Text → Parsed A

abbrev pub bind_parsed {ℓ κ} : {A : Type ℓ} {B : Type κ} → Parsed A → (A → Parsed B) → Parsed B
bind_parsed (parsed a) f = f a
bind_parsed (failed e) f = failed e

-- `map_err`
abbrev pub map_failed {ℓ} : {A : Type ℓ} → (Text → Text) → Parsed A → Parsed A
map_failed g (parsed a) = parsed a
map_failed g (failed e) = failed (g e)

unfoldable pub is_digit : ℕ → Bool
is_digit c = leb b'0' c && leb c b'9'

abbrev pub IsDigit : ℕ → Type 0
IsDigit c = (b'0' ≤ c) × (c ≤ b'9')

-- The loop of `from_str_radix`: the first bad character or overflow ends it.
unfoldable pub parse_digits : ℕ → ℕ → Text → Parsed ℕ
unfolding is_digit
parse_digits bound acc [] = parsed acc
parse_digits bound acc (c ∷ s) =
    let rest = parse_digits bound (acc * 10 + (c - b'0')) s in
    if is_digit c
    then (if leb (acc * 10 + (c - b'0')) bound
        then rest
        else failed (codes "number too large to fit in target type"))
    else failed (codes "invalid digit found in string")

-- After an optional `+`.
unfoldable pub parse_plus : ℕ → Text → Parsed ℕ
unfolding parse_digits
parse_plus bound [] = failed (codes "invalid digit found in string")
parse_plus bound (c ∷ s) = parse_digits bound 0 (c ∷ s)

-- `str::parse` into an unsigned type whose largest value is `bound`.
unfoldable pub parse_uint : ℕ → Text → Parsed ℕ
unfolding parse_digits parse_plus
parse_uint bound [] = failed (codes "cannot parse integer from empty string")
parse_uint bound (c ∷ s) = if c == b'+' then parse_plus bound s else parse_digits bound 0 (c ∷ s)

-- The decimal digits of a number in front of a text. One round for each digit.
unfoldable pub decimal_from : ℕ → ℕ → Text → Text
decimal_from zero n rest = rest
decimal_from (suc f) n rest =
    let more = decimal_from f (n / 10) ((b'0' + n % 10) ∷ rest) in
    if ltb n 10 then (b'0' + n) ∷ rest else more

-- `to_string` of an unsigned number.
unfoldable pub to_decimal : ℕ → Text
unfolding decimal_from
to_decimal n = decimal_from (suc n) n []

decimal_from-head :
    (f n : ℕ) (rest : Text)
    → n < f
    → (c : ℕ) × (s : Text) × (decimal_from f n rest ≡ c ∷ s) × IsDigit c
unfolding decimal_from
decimal_from-head zero n rest h = absurd (omega arith)
decimal_from-head (suc f) n rest h = elim (Bool-cases (ltb n 10)) [
  | inl e ↦ (b'0' + n, rest, rw e, ground arith)
  | inr e ↦ rw e (decimal_from-head f (n / 10) ((b'0' + n % 10) ∷ rest) (ground arith))
]

decimal_from-IsDigit :
    (f n : ℕ) (rest : Text) → n < f → All IsDigit rest → All IsDigit (decimal_from f n rest)
unfolding decimal_from
decimal_from-IsDigit zero n rest h a = absurd (omega arith)
decimal_from-IsDigit (suc f) n rest h a = elim (Bool-cases (ltb n 10)) [
  | inl e ↦ rw e (ground arith, a)
  | inr e ↦
      rw e
        (decimal_from-IsDigit f (n / 10) ((b'0' + n % 10) ∷ rest) (ground arith) (omega arith, a))
]

-- A printed number holds digits only.
pub to_decimal-IsDigit : (n : ℕ) → All IsDigit (to_decimal n)
unfolding to_decimal
to_decimal-IsDigit n = decimal_from-IsDigit (suc n) n [] (omega arith) tt

parse_digits-decimal_from :
    (bound f n : ℕ) (rest : Text)
    → n < f
    → n ≤ bound
    → parse_digits bound 0 (decimal_from f n rest) ≡ parse_digits bound n rest
unfolding parse_digits decimal_from
parse_digits-decimal_from bound zero n rest h k = absurd (omega arith)
parse_digits-decimal_from bound (suc f) n rest h k = elim (Bool-cases (ltb n 10)) [
  | inl e ↦ rw e (ground arith)
  | inr e ↦ rw e (
      parse_digits-decimal_from bound f (n / 10) ((b'0' + n % 10) ∷ rest) (ground arith)
        (omega arith)
      ∙ ground arith)
]

parse_uint_digit :
    (bound c : ℕ) (s : Text) → IsDigit c → parse_uint bound (c ∷ s) ≡ parse_digits bound 0 (c ∷ s)
unfolding parse_uint
parse_uint_digit bound c s h = ground arith

-- Parsing a printed number that fits the type gives it back.
pub parse_uint-to_decimal : (bound n : ℕ) → n ≤ bound → parse_uint bound (to_decimal n) ≡ parsed n
unfolding to_decimal
parse_uint-to_decimal bound n h =
    let (c, s, e, d) = decimal_from-head (suc n) n [] (omega arith) in
    ap (parse_uint bound) e
    ∙ parse_uint_digit bound c s d
    ∙ ap (parse_digits bound 0) (sym e)
    ∙ parse_digits-decimal_from bound (suc n) n [] (omega arith) h
    ∙ unfold parse_digits in refl

-- A printed number is not empty.
pub to_decimal-cons : (n : ℕ) → (c : ℕ) × (s : Text) × (to_decimal n ≡ c ∷ s) × IsDigit c
unfolding to_decimal
to_decimal-cons n = decimal_from-head (suc n) n [] (omega arith)
