-- ===== src/Listener/Headers.antt =====
-- The loop over the headers of a request: that it ends, and where.
use redog.Common.{
  ℕ, zero, suc, ◌≤◌, ◌<◌, Text, List, [], ◌∷◌, ◌++◌, some, split_once, split_once_append,
  Option-cases, inl, inr, All, length, length-append, ◌≡◌, refl, ap, ◌∙◌, arith, trim, trim_start,
  Without, is_whitespace,
}
use redog.Common.Utf8.{Bytes, from_utf8}
use redog.Core.Error.{ok}
use redog.Listener.Reader.{
  Socket, all_bytes, BufReader, read_until, read_line, line_text, after_line, Run, answers,
  out_of_fuel, read_headers, pending,
}
use redog.Listener.Reading.{
  IsFull, EndsWithin, EndsWithin-trans, read_until_lem, length-read_until, length_left,
}

-- A reader over a socket, with what stands in its buffer and what is to arrive.
abbrev pub at : Socket → Bytes → List Bytes → BufReader
at s buffer arriving = record { buffer = buffer; inner = record s { arriving = arriving } }

-- The bytes, with a line feed, are a text.
abbrev pub Line : Bytes → Text → Type 0
Line bytes text = Without b'\n' bytes × (from_utf8 (bytes ++ (b'\n' ∷ [])) ≡ some text)

line_text_lem :
    (s : Socket) (line buffer : Bytes) (arriving : List Bytes) (text : Text)
    → from_utf8 line ≡ some text
    → line_text s (line, buffer, arriving) ≡ (at s buffer arriving, ok text)
unfolding line_text
line_text_lem s line buffer arriving text d = rw (d, line_text) refl

pub read_line_lem :
    (s : Socket) (buffer : Bytes) (arriving : List Bytes) (bytes rest : Bytes) (text : Text)
    → All IsFull arriving
    → Line bytes text
    → buffer ++ all_bytes arriving ≡ bytes ++ (b'\n' ∷ rest)
    → (b : Bytes) × (k : List Bytes) × (read_line (at s buffer arriving) ≡ (at s b k, ok text))
      × (b ++ all_bytes k ≡ rest)
      × All IsFull k
      × EndsWithin (buffer ∷ arriving) b k
unfolding read_line
read_line_lem s buffer arriving bytes rest text full (w, d) e =
    let found : split_once b'\n' (buffer ++ all_bytes arriving) ≡ some (bytes, rest) =
      ap (split_once b'\n') e ∙ split_once_append b'\n' bytes rest w in
    let (b, k, f, q, ks, l) = read_until_lem buffer arriving full found in
    (b, k, ap (line_text s) f ∙ line_text_lem s (bytes ++ (b'\n' ∷ [])) b k text d, q, ks, l)

-- A line of a header: a text that is not blank.
abbrev pub IsHeader : Bytes → Type 0
IsHeader bytes = (text : Text) × (c : ℕ) × (s : Text) × Line bytes text × (trim text ≡ c ∷ s)

-- The lines of the headers, a blank line, and what follows.
abbrev pub headers_then : List Bytes → Bytes → Bytes
headers_then [] rest = b'\r' ∷ b'\n' ∷ rest
headers_then (line ∷ lines) rest = line ++ (b'\n' ∷ headers_then lines rest)

blank_line : Line (b'\r' ∷ []) (b'\r' ∷ b'\n' ∷ [])
unfolding from_utf8
blank_line = ((λ e. ground arith, tt), refl)

blank_trim : trim (b'\r' ∷ b'\n' ∷ []) ≡ []
unfolding trim trim_start is_whitespace
blank_trim = refl

after_line-blank :
    (next : BufReader → Run BufReader (Unit {0})) (r : BufReader) (text : Text)
    → trim text ≡ []
    → after_line next (r, ok text) ≡ answers r (ok tt)
unfolding after_line
after_line-blank next r text t = rw (t, after_line) refl

after_line-header :
    (next : BufReader → Run BufReader (Unit {0})) (r : BufReader) (text : Text) (c : ℕ) (s : Text)
    → trim text ≡ c ∷ s
    → after_line next (r, ok text) ≡ next r
unfolding after_line
after_line-header next r text c s t = rw (t, after_line) refl

read_headers-blank :
    (fuel : ℕ) (r r' : BufReader) (text : Text)
    → read_line r ≡ (r', ok text)
    → trim text ≡ []
    → read_headers (suc fuel) r ≡ answers r' (ok tt)
unfolding read_headers
read_headers-blank fuel r r' text e t =
    ap (after_line (read_headers fuel)) e ∙ after_line-blank (read_headers fuel) r' text t

read_headers-header :
    (fuel : ℕ) (r r' : BufReader) (text : Text) (c : ℕ) (s : Text)
    → read_line r ≡ (r', ok text)
    → trim text ≡ c ∷ s
    → read_headers (suc fuel) r ≡ read_headers fuel r'
unfolding read_headers
read_headers-header fuel r r' text c s e t =
    ap (after_line (read_headers fuel)) e ∙ after_line-header (read_headers fuel) r' text c s t

-- The loop reads the headers and the blank line, and no more, but what follows may be in the buffer.
pub read_headers_lem :
    (headers : List Bytes) (fuel : ℕ) (s : Socket) (buffer : Bytes) (arriving : List Bytes)
    (rest : Bytes)
    → All IsFull arriving
    → All IsHeader headers
    → buffer ++ all_bytes arriving ≡ headers_then headers rest
    → length headers < fuel
    → (b : Bytes) × (k : List Bytes) × (read_headers fuel (at s buffer arriving)
        ≡ answers (at s b k) (ok tt))
      × (b ++ all_bytes k ≡ rest)
      × EndsWithin (buffer ∷ arriving) b k
read_headers_lem headers zero s buffer arriving rest full hs e f = absurd (omega arith)
read_headers_lem [] (suc fuel) s buffer arriving rest full hs e f =
    let (b, k, g, q, ks, n) =
      read_line_lem s buffer arriving (b'\r' ∷ []) rest (b'\r' ∷ b'\n' ∷ []) full blank_line e in
    (b, k, read_headers-blank fuel _ _ _ g blank_trim, q, n)
read_headers_lem (line ∷ headers) (suc fuel) s buffer arriving rest full ((text, c, t, l, p), hs) e
      f =
    let (b, k, g, q, ks, n) =
      read_line_lem s buffer arriving line (headers_then headers rest) text full l e in
    let (b', k', g', q', n') = read_headers_lem headers fuel s b k rest ks hs q (omega arith) in
    (
      b',
      k',
      read_headers-header fuel _ _ text c t g p ∙ g',
      q',
      EndsWithin-trans (buffer ∷ arriving) b k b' k' n n',
    )

pub length-headers_then :
    (headers : List Bytes) (rest : Bytes) → length headers ≤ length (headers_then headers rest)
length-headers_then [] rest = omega arith
length-headers_then (line ∷ headers) rest = omega (
  arith,
  length-headers_then headers rest,
  length-append line (b'\n' ∷ headers_then headers rest),
)

-- A call that does not run out of fuel.
abbrev pub Answers : {R A : Type 0} → Run R A → Type 0
Answers (answers r a) = Unit
Answers out_of_fuel = ⊥

after_text-Answers :
    (next : BufReader → Run BufReader (Unit {0})) (r : BufReader) (text t : Text)
    → trim text ≡ t
    → Answers (next r)
    → Answers (after_line next (r, ok text))
unfolding after_line
after_text-Answers next r text [] e a = rw (e, after_line) tt
after_text-Answers next r text (c ∷ t) e a = rw (e, after_line) a

after_line-Answers :
    (next : BufReader → Run BufReader (Unit {0})) (n : ℕ) (s : Socket) (line buffer : Bytes)
    (arriving : List Bytes)
    → length_left (line, buffer, arriving) ≤ n
    → ((r : BufReader) → pending r < n → Answers (next r))
    → Answers (after_line next (line_text s (line, buffer, arriving)))
unfolding after_line line_text from_utf8 trim trim_start
after_line-Answers next n s [] buffer arriving l a = tt
after_line-Answers next n s (c ∷ line) buffer arriving l a =
    elim (Option-cases (from_utf8 (c ∷ line))) [
      | inl e ↦ rw (e, line_text) tt
      | inr (text, e) ↦
          rw (e, line_text)
            (after_text-Answers next (at s buffer arriving) text (trim text) refl
              (a (at s buffer arriving) (omega arith)))
    ]

-- The bytes that are left are fuel enough for the loop.
pub read_headers-Answers :
    (fuel : ℕ) (r : BufReader) → pending r < fuel → Answers (read_headers fuel r)
unfolding read_headers read_line
read_headers-Answers zero r l = absurd (omega arith)
read_headers-Answers (suc fuel) r l =
    let (line, buffer, arriving) = read_until r.buffer r.inner.arriving in
    after_line-Answers (read_headers fuel) (pending r) r.inner line buffer arriving
      (omega (arith, length-read_until r.buffer r.inner.arriving))
      (λ after h. read_headers-Answers fuel after (omega arith))
