-- ===== src/Listener/Reading.antt =====
-- What a buffered reader reads, however the bytes arrive.
use redog.Common.{
  ℕ, ◌+◌, ◌≤◌, Text, List, [], ◌∷◌, ◌++◌, Option, none, some, split_once, split_once-eq-some,
  Option-cases, inl, inr, All, length, length-append, ◌≡◌, refl, sym, ap, ◌∙◌, arith, ◌==◌,
  Bool-cases,
}
use mathlib.Core.Path.{ap₂}
use mathlib.Core.List.{append_assoc, append-nil}
use redog.Common.Utf8.{Bytes}
use redog.Listener.Reader.{all_bytes, read_until}

-- A read that is not the end of file.
abbrev pub IsFull : Bytes → Type 0
IsFull bytes = 1 ≤ length bytes

-- A split of the front is one of the whole.
split_once-front :
    (d : ℕ) (xs ys : Text) {a b : Text}
    → split_once d xs ≡ some (a, b)
    → split_once d (xs ++ ys) ≡ some (a, b ++ ys)
unfolding split_once
split_once-front d [] ys h = absurd (ground arith)
split_once-front d (c ∷ xs) ys {a} {b} h = elim (Bool-cases (c == d)) [
  | inl e ↦ let (p, q) : (a ≡ []) × (b ≡ xs) = ground arith in rw (e, p, q) refl
  | inr e ↦ elim (Option-cases (split_once d xs)) [
    | inl n ↦ absurd (ground arith)
    | inr ((x, y), f) ↦
        let (p, q) : (a ≡ c ∷ x) × (b ≡ y) = ground arith in
        rw (e, p, q) (rw (split_once-front d xs ys f) refl)
  ]
]

-- A front with no place to split is in the part before it.
split_once-back :
    (d : ℕ) (xs ys : Text) {a b : Text}
    → split_once d xs ≡ none
    → split_once d (xs ++ ys) ≡ some (a, b)
    → (x : Text) × (split_once d ys ≡ some (x, b)) × (a ≡ xs ++ x)
unfolding split_once
split_once-back d [] ys {a} n h = (a, h, refl)
split_once-back d (c ∷ xs) ys {a} {b} n h = elim (Bool-cases (c == d)) [
  | inl e ↦ absurd (ground arith)
  | inr e ↦ elim (Option-cases (split_once d xs)) [
    | inr (p, f) ↦ absurd (ground arith)
    | inl m ↦ elim (Option-cases (split_once d (xs ++ ys))) [
      | inl f ↦ absurd (ground arith)
      | inr ((u, v), f) ↦
          let (p, q) : (a ≡ c ∷ u) × (b ≡ v) = ground arith in
          let (x, g, r) = split_once-back d xs ys {a = u} {b = v} m f in
          (x, rw q g, p ∙ ap (◌∷◌ c) r)
    ]
  ]
]

some_pair :
    {a b c d : Bytes}
    → ◌≡◌ {A = Option (Bytes × Bytes)} (some (a, b)) (some (c, d))
    → (a ≡ c) × (b ≡ d)
some_pair h = ground arith

-- The line goes on in the next read.
read_until_later :
    (buffer : Bytes) (c : ℕ) (bytes : Bytes) (more : List Bytes) {line rest : Bytes}
    {k : List Bytes}
    → split_once b'\n' buffer ≡ none
    → read_until (c ∷ bytes) more ≡ (line, rest, k)
    → read_until buffer ((c ∷ bytes) ∷ more) ≡ (buffer ++ line, rest, k)
unfolding read_until
read_until_later buffer c bytes more n e = rw (n, read_until) (rw (e, read_until) refl)

-- The reads up to one of which the last bytes are `b`, with some read before them, and then `k`.
abbrev pub EndsWithin : List Bytes → Bytes → List Bytes → Type 0
EndsWithin reads b k =
    (before : List Bytes) × (used : Bytes) × (reads ≡ before ++ ((used ++ b) ∷ k))
    × (1 ≤ length used)

EndsWithin-split :
    (buffer line rest : Bytes) (arriving : List Bytes)
    → split_once b'\n' buffer ≡ some (line, rest)
    → EndsWithin (buffer ∷ arriving) rest arriving
EndsWithin-split buffer line rest arriving e =
    let (splits, w) = split_once-eq-some b'\n' buffer e in
    (
      [],
      line ++ (b'\n' ∷ []),
      ap (λ (x : Bytes). x ∷ arriving) (splits ∙ sym (append_assoc line (b'\n' ∷ []) rest)),
      omega (arith, length-append line (b'\n' ∷ [])),
    )

-- What goes on reading from there ends behind it.
pub EndsWithin-trans :
    (reads : List Bytes) (b : Bytes) (k : List Bytes) (c : Bytes) (l : List Bytes)
    → EndsWithin reads b k
    → EndsWithin (b ∷ k) c l
    → EndsWithin reads c l
EndsWithin-trans reads b k c l (before, used, e, f) ([], more, g, h) =
    let (p, q) : (b ≡ more ++ c) × (k ≡ l) = (ap head_of g, ap tail_of g) in
    (
      before,
      used ++ more,
      e
          ∙ ap₂ (λ (x : Bytes) (y : List Bytes). before ++ (x ∷ y))
              (ap (◌++◌ used) p ∙ sym (append_assoc used more c)) q,
      omega (arith, length-append used more),
    )
  where
    head_of : List Bytes → Bytes
    head_of [] = []
    head_of (x ∷ _) = x

    tail_of : List Bytes → List Bytes
    tail_of [] = []
    tail_of (_ ∷ xs) = xs
EndsWithin-trans reads b k c l (before, used, e, f) (x ∷ xs, more, g, h) = (
  before ++ ((used ++ b) ∷ xs),
  more,
  e
      ∙ ap (λ (y : List Bytes). before ++ ((used ++ b) ∷ y)) (tails g)
      ∙ sym (append_assoc before ((used ++ b) ∷ xs) ((more ++ c) ∷ l)),
  h,
)
  where
    tails : b ∷ k ≡ x ∷ (xs ++ ((more ++ c) ∷ l)) → k ≡ xs ++ ((more ++ c) ∷ l)
    tails e = ground (arith, e)

-- A reader whose buffer is empty takes its bytes from the reads to come.
pub EndsWithin-new :
    (arriving : List Bytes) (b : Bytes) (k : List Bytes)
    → EndsWithin ([] ∷ arriving) b k
    → EndsWithin arriving b k
EndsWithin-new arriving b k ([], used, e, h) =
    let empty : [] ≡ used ++ b = ground (arith, e) in
    absurd (omega (arith, ap length empty, length-append used b))
EndsWithin-new arriving b k (x ∷ xs, used, e, h) = (xs, used, ground (arith, e), h)

-- The reader gives the first line, and what is left is what follows it.
pub read_until_lem :
    (buffer : Bytes) (arriving : List Bytes) {line rest : Bytes}
    → All IsFull arriving
    → split_once b'\n' (buffer ++ all_bytes arriving) ≡ some (line, rest)
    → (b : Bytes) × (k : List Bytes) × (read_until buffer arriving ≡ (line ++ (b'\n' ∷ []), b, k))
      × (b ++ all_bytes k ≡ rest)
      × All IsFull k
      × EndsWithin (buffer ∷ arriving) b k
unfolding read_until
read_until_lem buffer [] {line} {rest} full h =
    let g : split_once b'\n' buffer ≡ some (line, rest) = rw append-nil at (h) in
    (rest, [], rw (g, read_until) refl, append-nil rest, tt, EndsWithin-split buffer line rest [] g)
read_until_lem buffer ([] ∷ more) (f, fs) h = absurd (omega arith)
read_until_lem buffer ((c ∷ bytes) ∷ more) {line} {rest} (f, fs) h =
    elim (Option-cases (split_once b'\n' buffer)) [
      | inr ((x, y), e) ↦
          let whole = split_once-front b'\n' buffer ((c ∷ bytes) ++ all_bytes more) e in
          let (p, q) : (x ≡ line) × (y ++ ((c ∷ bytes) ++ all_bytes more) ≡ rest) =
            some_pair (sym whole ∙ h) in
          (
            y,
            (c ∷ bytes) ∷ more,
            rw (e, read_until) (rw p refl),
            q,
            (f, fs),
            EndsWithin-split buffer x y ((c ∷ bytes) ∷ more) e,
          )
      | inl n ↦
          let (x, g, p) = split_once-back b'\n' buffer ((c ∷ bytes) ++ all_bytes more) n h in
          let (b, k, e, q, ks, l) = read_until_lem (c ∷ bytes) more fs g in
          let (before, used, i, j) = l in
          let line_is : buffer ++ (x ++ (b'\n' ∷ [])) ≡ line ++ (b'\n' ∷ []) =
            sym (append_assoc buffer x (b'\n' ∷ []))
            ∙ ap (λ (l : Bytes). l ++ (b'\n' ∷ [])) (sym p) in
          (
            b,
            k,
            read_until_later buffer c bytes more n e ∙ ap (λ (l : Bytes). (l, b, k)) line_is,
            q,
            ks,
            (buffer ∷ before, used, ap (◌∷◌ buffer) i, j),
          )
    ]

abbrev pub length_left : Bytes × Bytes × List Bytes → ℕ
length_left (line, buffer, arriving) = length line + length buffer + length (all_bytes arriving)

length-split :
    (d : ℕ) (xs : Text) {a b : Text}
    → split_once d xs ≡ some (a, b)
    → length (a ++ (d ∷ [])) + length b ≡ length xs
length-split d xs {a} {b} h =
    let (e, w) = split_once-eq-some d xs h in
    rw e (omega (arith, length-append a (d ∷ b), length-append a (d ∷ [])))

-- No byte is lost or made by a read of a line.
pub length-read_until :
    (buffer : Bytes) (arriving : List Bytes)
    → length_left (read_until buffer arriving) ≡ length buffer + length (all_bytes arriving)
unfolding read_until
length-read_until buffer [] = elim (Option-cases (split_once b'\n' buffer)) [
  | inl n ↦ rw (n, read_until) (omega arith)
  | inr ((a, b), e) ↦ rw (e, read_until) (omega (arith, length-split b'\n' buffer e))
]
length-read_until buffer ([] ∷ more) = elim (Option-cases (split_once b'\n' buffer)) [
  | inl n ↦ rw (n, read_until) (omega arith)
  | inr ((a, b), e) ↦ rw (e, read_until) (omega (arith, length-split b'\n' buffer e))
]
length-read_until buffer ((c ∷ bytes) ∷ more) = elim (Option-cases (split_once b'\n' buffer)) [
  | inr ((a, b), e) ↦ rw (e, read_until) (omega (arith, length-split b'\n' buffer e))
  | inl n ↦
      let (line, b, k) = read_until (c ∷ bytes) more in
      rw (read_until_later buffer c bytes more {line = line} {rest = b} {k = k} n refl) (
        omega (
          arith,
          length-append buffer line,
          length-append (c ∷ bytes) (all_bytes more),
          length-read_until (c ∷ bytes) more,
        ))
]
