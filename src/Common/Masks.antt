-- ===== src/Common/Masks.antt =====
-- Network masks: `bit_and` with a run of ones above `k` zeros keeps the digits from `k` on.
use Prim.Native.Nat.{
  ℕ, zero, suc, ◌+◌, ◌-◌, ◌*◌, ◌/◌, ◌%◌, ◌^◌, ◌≤◌, ◌<◌, min, bit_and, digits, bit_and-bitwise,
}
use native.Mathlib.Nat.{pow-suc, one-le-pow, le_refl}
use mathlib.Core.Path.{◌≡◌, refl, ap, ◌∙◌}
use native.Mathlib.Omega.{arith}

-- The recursion behind `bit_and`, with its count of rounds.
abbrev and_rounds : ℕ → ℕ → ℕ → ℕ
and_rounds = digits (λ _. zero) min

pub two_pow-suc : (k : ℕ) → 2 ^ suc k ≡ 2 * 2 ^ k
two_pow-suc k = omega (arith, pow-suc 2 k)

pub two_pow_pos : (k : ℕ) → 1 ≤ 2 ^ k
two_pow_pos k = one-le-pow k 2 (omega arith)

pub two_pow_add : (p k : ℕ) → 2 ^ p * 2 ^ k ≡ 2 ^ (p + k)
two_pow_add zero k = let e : 0 + k ≡ k = omega arith in omega (arith, ap (λ (t : ℕ). 2 ^ t) e)
two_pow_add (suc p) k =
    let e : suc p + k ≡ suc (p + k) = omega arith in
    omega (
      arith,
      ap (λ (t : ℕ). 2 ^ t) e,
      two_pow-suc (p + k),
      two_pow_add p k,
      ap (λ (t : ℕ). t * 2 ^ k) (two_pow-suc p),
    )

-- All ones: a number of `w` digits is kept.
and_ones : (n w a : ℕ) → a < 2 ^ w → a ≤ n → and_rounds n a (2 ^ w - 1) ≡ a
and_ones zero w a fits h = omega arith
and_ones (suc n) w zero fits h = refl
and_ones (suc n) zero (suc a) fits h = absurd (omega arith)
and_ones (suc n) (suc w) (suc a) fits h =
    let half : (2 ^ suc w - 1) / 2 ≡ 2 ^ w - 1 = omega (arith, two_pow-suc w, two_pow_pos w) in
    let odd : (2 ^ suc w - 1) % 2 ≡ 1 = omega (arith, two_pow-suc w, two_pow_pos w) in
    rw (half, odd)
      (omega (
        arith,
        two_pow-suc w,
        and_ones n w (suc a / 2) (omega (arith, two_pow-suc w)) (omega arith),
      ))

-- Ones above `k` zeros: the number's upper part is kept.
and_upper :
    (n k w q r a : ℕ)
    → a ≡ q * 2 ^ k + r
    → r < 2 ^ k
    → q < 2 ^ w
    → a ≤ n
    → and_rounds n a ((2 ^ w - 1) * 2 ^ k) ≡ q * 2 ^ k
and_upper n zero w q r a e small fits h =
    let whole : (2 ^ w - 1) * 2 ^ 0 ≡ 2 ^ w - 1 = omega arith in
    rw whole (and_ones n w a (omega arith) h ∙ omega arith)
and_upper zero (suc k) w q r a e small fits h = omega arith
and_upper (suc n) (suc k) w q r zero e small fits h = omega arith
and_upper (suc n) (suc k) w q r (suc a) e small fits h =
    let m : ℕ = (2 ^ w - 1) * 2 ^ k in
    let double : (2 ^ w - 1) * 2 ^ suc k ≡ 2 * m =
      omega (arith, ap (λ (t : ℕ). (2 ^ w - 1) * t) (two_pow-suc k)) in
    let shift : q * 2 ^ suc k ≡ 2 * (q * 2 ^ k) =
      omega (arith, ap (λ (t : ℕ). q * t) (two_pow-suc k)) in
    let half : (2 ^ w - 1) * 2 ^ suc k / 2 ≡ m = omega (arith, double) in
    let even : (2 ^ w - 1) * 2 ^ suc k % 2 ≡ 0 = omega (arith, double) in
    rw (half, even)
      (omega (
        arith,
        shift,
        and_upper n k w q (r / 2) (suc a / 2) (omega (arith, shift)) (omega (arith, two_pow-suc k))
            fits (omega arith),
      ))

-- `x & mask` for the mask of a network with `k` host bits, as arithmetic.
pub bit_and-mask :
    (k w q r : ℕ)
    → r < 2 ^ k
    → q < 2 ^ w
    → bit_and (q * 2 ^ k + r) ((2 ^ w - 1) * 2 ^ k) ≡ q * 2 ^ k
bit_and-mask k w q r small fits =
    bit_and-bitwise (q * 2 ^ k + r) ((2 ^ w - 1) * 2 ^ k)
    ∙ and_upper (q * 2 ^ k + r) k w q r (q * 2 ^ k + r) refl small fits (le_refl _)
