-- ===== src/Common/Trimming.antt =====
-- `str::trim`: a text with no blank at either end is left as it is.
use redog.Common.Lists.{All}
use redog.Common.Numbers.{IsDigit}
use redog.Common.Strings.{Text, is_whitespace, trim_start, trim}
use Prim.Native.Nat.{ℕ}
use mathlib.Core.Path.{◌≡◌, refl}
use mathlib.Core.Bool.{false}
use mathlib.Core.List.{[], ◌∷◌, ◌++◌, reverse, reverse-append, reverse-reverse}
use native.Mathlib.Omega.{arith}

abbrev pub NoBlankHead : Text → Type 0
NoBlankHead [] = Unit
NoBlankHead (c ∷ s) = is_whitespace c ≡ false

-- No blank at the start, and none at the end.
abbrev pub IsTrimmed : Text → Type 0
IsTrimmed s = NoBlankHead s × NoBlankHead (reverse s)

trim_start_of_NoBlankHead : (s : Text) → NoBlankHead s → trim_start s ≡ s
unfolding trim_start
trim_start_of_NoBlankHead [] h = refl
trim_start_of_NoBlankHead (c ∷ s) h = rw h

pub trim_of_IsTrimmed : (s : Text) → IsTrimmed s → trim s ≡ s
unfolding trim
trim_of_IsTrimmed s (h, k) =
    rw (trim_start_of_NoBlankHead s h, trim_start_of_NoBlankHead (reverse s) k) (reverse-reverse s)

NoBlankHead-append : (s t : Text) → NoBlankHead s → NoBlankHead t → NoBlankHead (s ++ t)
NoBlankHead-append [] t h k = k
NoBlankHead-append (c ∷ s) t h k = h

-- Texts with no blank at their ends may be joined.
pub IsTrimmed-append : (s t : Text) → IsTrimmed s → IsTrimmed t → IsTrimmed (s ++ t)
IsTrimmed-append s t (a, b) (c, d) =
    (NoBlankHead-append s t a c, rw reverse-append (NoBlankHead-append (reverse t) (reverse s) d b))

All-snoc : (c : ℕ) (t : Text) → All IsDigit t → IsDigit c → All IsDigit (t ++ (c ∷ []))
All-snoc c [] a h = (h, tt)
All-snoc c (x ∷ t) (a, b) h = (a, All-snoc c t b h)

All-reverse : (s : Text) → All IsDigit s → All IsDigit (reverse s)
All-reverse [] h = h
All-reverse (c ∷ s) (h, k) =
    rw (reverse-append (c ∷ []) s) (All-snoc c (reverse s) (All-reverse s k) h)

digits_NoBlankHead : (s : Text) → All IsDigit s → NoBlankHead s
unfolding is_whitespace
digits_NoBlankHead [] h = tt
digits_NoBlankHead (c ∷ s) (h, k) = ground arith

-- Digits have no blank among them.
pub digits-IsTrimmed : (s : Text) → All IsDigit s → IsTrimmed s
digits-IsTrimmed s h = (digits_NoBlankHead s h, digits_NoBlankHead (reverse s) (All-reverse s h))
