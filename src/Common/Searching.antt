-- ===== src/Common/Searching.antt =====
-- What the searches on texts find: prefixes, suffixes, parts, and the places of a delimiter.
use redog.Common.Tests.{◌==◌, Bool-cases, Option-cases}
use redog.Common.Lists.{All}
use redog.Common.Numbers.{IsDigit, to_decimal, to_decimal-IsDigit}
use redog.Common.Strings.{
  Text, text_eq, text_eq_iff, strip_prefix, split_once, rsplit_once, is_prefix, lines, contains,
  ends_with,
}
use Prim.Native.Nat.{ℕ}
use mathlib.Core.Path.{◌≡◌, refl, ap}
use mathlib.Core.Logic.{◌≢◌, ◌↔◌, inl, inr}
use mathlib.Core.Bool.{true, false}
use mathlib.Core.List.{[], ◌∷◌, ◌++◌}
use mathlib.Core.Option.{none, some}
use native.Mathlib.Omega.{arith}

-- The character `d` does not occur in the text.
abbrev pub Without : ℕ → Text → Type 0
Without d [] = Unit
Without d (c ∷ s) = (c ≢ d) × Without d s

pub Without-append : (d : ℕ) (a b : Text) → Without d a → Without d b → Without d (a ++ b)
Without-append d [] b x y = y
Without-append d (c ∷ a) b (n, x) y = (n, Without-append d a b x y)

Without-digits : (d : ℕ) (s : Text) → ((c : ℕ) → IsDigit c → c ≢ d) → All IsDigit s → Without d s
Without-digits d [] f a = tt
Without-digits d (c ∷ s) f (h, a) = (f c h, Without-digits d s f a)

pub Without-to_decimal : (d p : ℕ) → ((c : ℕ) → IsDigit c → c ≢ d) → Without d (to_decimal p)
Without-to_decimal d p f = Without-digits d (to_decimal p) f (to_decimal-IsDigit p)

pub strip_prefix_append : (p s : Text) → strip_prefix p (p ++ s) ≡ some s
unfolding strip_prefix
strip_prefix_append [] s = refl
strip_prefix_append (c ∷ p) s = ground (arith, strip_prefix_append p s)

pub strip_prefix-eq-some : (p s : Text) {t : Text} → strip_prefix p s ≡ some t → s ≡ p ++ t
unfolding strip_prefix
strip_prefix-eq-some [] s h = ground arith
strip_prefix-eq-some (c ∷ p) [] h = cc
strip_prefix-eq-some (c ∷ p) (d ∷ s) {t} h = elim (Bool-cases (c == d)) [
  | inl e ↦ ground (arith, strip_prefix-eq-some p s {t = t} (ground arith))
  | inr e ↦ ground arith
]

-- A text with no `d` is not split.
pub split_once-none : (d : ℕ) (a : Text) → Without d a → split_once d a ≡ none
unfolding split_once
split_once-none d [] w = refl
split_once-none d (c ∷ a) w = ground (arith, split_once-none d a w.1)

-- The first `d` is where the text is split.
pub split_once_append :
    (d : ℕ) (a b : Text) → Without d a → split_once d (a ++ (d ∷ b)) ≡ some (a, b)
unfolding split_once
split_once_append d [] b w = ground arith
split_once_append d (c ∷ a) b w = ground (arith, split_once_append d a b w.1)

pub split_once-eq-some :
    (d : ℕ) (s : Text) {a b : Text}
    → split_once d s ≡ some (a, b)
    → (s ≡ a ++ (d ∷ b)) × Without d a
unfolding split_once
split_once-eq-some d [] h = absurd (ground arith)
split_once-eq-some d (c ∷ s) {a} {b} h = elim (Bool-cases (c == d)) [
  | inl e ↦ let (p, q) : (a ≡ []) × (b ≡ s) = ground arith in rw (p, q) (ground arith, tt)
  | inr e ↦ elim (Option-cases (split_once d s)) [
    | inl n ↦ absurd (ground arith)
    | inr ((x, y), f) ↦
        let (p, q) : (a ≡ c ∷ x) × (b ≡ y) = ground arith in
        let (u, w) = split_once-eq-some d s f in rw (p, q) (ap (◌∷◌ c) u, (ground arith, w))
  ]
]

pub rsplit_once-none : (d : ℕ) (a : Text) → Without d a → rsplit_once d a ≡ none
unfolding rsplit_once
rsplit_once-none d [] w = refl
rsplit_once-none d (c ∷ a) w = ground (arith, rsplit_once-none d a w.1)

-- The last `d` is where the text is split.
pub rsplit_once_append :
    (d : ℕ) (a b : Text) → Without d b → rsplit_once d (a ++ (d ∷ b)) ≡ some (a, b)
unfolding rsplit_once
rsplit_once_append d [] b w = ground (arith, rsplit_once-none d b w)
rsplit_once_append d (c ∷ a) b w = ground (arith, rsplit_once_append d a b w)

pub is_prefix_iff : (p s : Text) → (is_prefix p s ≡ true) ↔ ((b : Text) × (s ≡ p ++ b))
unfolding is_prefix
is_prefix_iff [] s = (λ h. (s, refl), λ h. refl)
is_prefix_iff (c ∷ p) [] = (λ h. absurd (ground arith), λ (b, e). absurd (ground arith))
is_prefix_iff (c ∷ p) (d ∷ s) = (
  λ h. let (b, e) = (is_prefix_iff p s).0 (ground arith) in (b, ground arith),
  λ (b, e). ground (arith, (is_prefix_iff p s).1 (b, ground arith)),
)

is_prefix-of_append : (p b : Text) → is_prefix p (p ++ b) ≡ true
is_prefix-of_append p b = (is_prefix_iff p (p ++ b)).1 (b, refl)

contains-cons : (c : ℕ) (s p : Text) → contains s p ≡ true → contains (c ∷ s) p ≡ true
unfolding contains
contains-cons c s p h = ground arith

contains-append : (a p b : Text) → contains (a ++ (p ++ b)) p ≡ true
unfolding contains
contains-append [] [] [] = refl
contains-append [] [] (c ∷ b) = refl
contains-append [] (c ∷ p) b = ground (arith, is_prefix-of_append (c ∷ p) b)
contains-append (c ∷ a) p b = contains-cons c (a ++ (p ++ b)) p (contains-append a p b)

contains-split : (s p : Text) → contains s p ≡ true → (a : Text) × (b : Text) × (s ≡ a ++ (p ++ b))
unfolding contains
contains-split [] p h = let (b, e) = (is_prefix_iff p []).0 h in ([], b, e)
contains-split (c ∷ s) p h = elim (Bool-cases (is_prefix p (c ∷ s))) [
  | inl e ↦ let (b, q) = (is_prefix_iff p (c ∷ s)).0 e in ([], b, q)
  | inr e ↦ let (a, b, q) = contains-split s p (ground arith) in (c ∷ a, b, ap (◌∷◌ c) q)
]

-- `str::contains` finds the texts that stand somewhere in it.
pub contains_iff :
    (s p : Text) → (contains s p ≡ true) ↔ ((a : Text) × (b : Text) × (s ≡ a ++ (p ++ b)))
contains_iff s p = (contains-split s p, λ (a, b, e). rw e (contains-append a p b))

ends_with-split : (s p : Text) → ends_with s p ≡ true → (a : Text) × (s ≡ a ++ p)
unfolding ends_with
ends_with-split [] p h = ([], (text_eq_iff [] p).0 h)
ends_with-split (c ∷ s) p h = elim (Bool-cases (text_eq (c ∷ s) p)) [
  | inl e ↦ ([], (text_eq_iff (c ∷ s) p).0 e)
  | inr e ↦ let (a, q) = ends_with-split s p (ground arith) in (c ∷ a, ap (◌∷◌ c) q)
]

ends_with_self : (p : Text) → ends_with p p ≡ true
unfolding ends_with
ends_with_self [] = (text_eq_iff [] []).1 refl
ends_with_self (c ∷ p) = ground (arith, (text_eq_iff (c ∷ p) (c ∷ p)).1 refl)

ends_with-append : (a p : Text) → ends_with (a ++ p) p ≡ true
unfolding ends_with
ends_with-append [] p = ends_with_self p
ends_with-append (c ∷ a) p = ground (arith, ends_with-append a p)

-- `str::ends_with` holds of the texts with something in front of the suffix.
pub ends_with_iff : (s p : Text) → (ends_with s p ≡ true) ↔ ((a : Text) × (s ≡ a ++ p))
ends_with_iff s p = (ends_with-split s p, λ (a, e). rw e (ends_with-append a p))

-- A text in one line.
abbrev pub OneLine : Text → Type 0
OneLine l = Without b'\n' l × Without b'\r' l

-- A line with its line feed is read off.
pub lines_append : (l rest : Text) → OneLine l → lines (l ++ (b'\n' ∷ rest)) ≡ l ∷ lines rest
unfolding lines is_prefix
lines_append [] rest o = refl
lines_append (c ∷ l) rest ((n, ns), (r, rs)) =
    let a : (c == b'\n') ≡ false = ground (arith, n) in
    let b : (c == b'\r') ≡ false = ground (arith, r) in
    rw (a, b) (rw (lines_append l rest (ns, rs)) refl)
