-- ===== src/Common/Utf8.antt =====
-- UTF-8: the bytes of a text (`as_bytes`), the check of `String::from_utf8`, and their round trip.
use Prim.Native.Nat.{ℕ, zero, suc, ◌+◌, ◌-◌, ◌*◌, ◌/◌, ◌%◌, ◌≤◌, ◌<◌}
use mathlib.Core.Path.{◌≡◌, refl, ap, ◌∙◌}
use mathlib.Core.Bool.{Bool, true, ◌&&◌, ◌||◌}
use mathlib.Core.List.{List, [], ◌∷◌, ◌++◌}
use mathlib.Core.Logic.{inl, inr}
use mathlib.Core.Option.{Option, none, some}
use native.Mathlib.Omega.{arith}
use redog.Common.Lists.{All}
use redog.Common.Strings.{Text}
use redog.Common.Tests.{Bool-cases, ltb, leb, if◌then◌else◌}

abbrev pub Bytes : Type 0
Bytes = List ℕ

unfoldable pub utf8_char : ℕ → Bytes
utf8_char c =
    if ltb c 0x80
    then c ∷ []
    else if ltb c 0x800
    then (0xc0 + c / 64) ∷ (0x80 + c % 64) ∷ []
    else if ltb c 0x10000
    then (0xe0 + c / 4096) ∷ (0x80 + c / 64 % 64) ∷ (0x80 + c % 64) ∷ []
    else (0xf0 + c / 262144) ∷ (0x80 + c / 4096 % 64) ∷ (0x80 + c / 64 % 64) ∷ (0x80 + c % 64) ∷ []

unfoldable pub utf8 : Text → Bytes
utf8 [] = []
utf8 (c ∷ s) = utf8_char c ++ utf8 s

-- Between characters, or inside one: the continuation bytes left after the next, the value so
-- far, and the least value that a character of this many bytes may have.
pub data Utf8State : Type 0 where
  start : Utf8State
  inside : ℕ → ℕ → ℕ → Utf8State

abbrev pub is_scalar : ℕ → Bool
is_scalar c = ltb c 0xd800 || (ltb 0xdfff c && ltb c 0x110000)

-- One byte: the next state and the character that ends there, or a fault.
unfoldable pub utf8_step : Utf8State → ℕ → Option (Utf8State × Text)
utf8_step start b =
    if ltb b 0x80
    then some (start, b ∷ [])
    else if ltb b 0xc0
    then none
    else if ltb b 0xe0
    then some (inside 0 (b - 0xc0) 0x80, [])
    else if ltb b 0xf0
    then some (inside 1 (b - 0xe0) 0x800, [])
    else if ltb b 0xf8
    then some (inside 2 (b - 0xf0) 0x10000, [])
    else none
utf8_step (inside zero acc least) b =
    let c = acc * 64 + (b - 0x80) in
    if leb 0x80 b && ltb b 0xc0 && leb least c && is_scalar c then some (start, c ∷ []) else none
utf8_step (inside (suc n) acc least) b =
    if leb 0x80 b && ltb b 0xc0 then some (inside n (acc * 64 + (b - 0x80)) least, []) else none

abbrev pub prepend : Text → Option Text → Option Text
prepend s none = none
prepend s (some t) = some (s ++ t)

unfoldable pub utf8_run : Utf8State → Bytes → Option Text
utf8_run start [] = some []
utf8_run (inside _ _ _) [] = none
utf8_run st (b ∷ bs) = elim (utf8_step st b) [
  | none ↦ none
  | some (st', out) ↦ prepend out (utf8_run st' bs)
]

-- `String::from_utf8(..).ok()`
unfoldable pub from_utf8 : Bytes → Option Text
unfolding utf8_run utf8_step
from_utf8 = utf8_run start

-- A Unicode scalar value.
abbrev pub IsScalar : ℕ → Type 0
IsScalar c = is_scalar c ≡ true

lead_two : (q : ℕ) → q < 0x20 → utf8_step start (0xc0 + q) ≡ some (inside 0 q 0x80, [])
unfolding utf8_step
lead_two q h = ground arith

lead_three : (q : ℕ) → q < 0x10 → utf8_step start (0xe0 + q) ≡ some (inside 1 q 0x800, [])
unfolding utf8_step
lead_three q h = ground arith

lead_four : (q : ℕ) → q < 8 → utf8_step start (0xf0 + q) ≡ some (inside 2 q 0x10000, [])
unfolding utf8_step
lead_four q h = ground arith

continuation :
    (n acc least r : ℕ)
    → r < 64
    → utf8_step (inside (suc n) acc least) (0x80 + r) ≡ some (inside n (acc * 64 + r) least, [])
unfolding utf8_step
continuation n acc least r h = ground arith

last_byte :
    (acc least r : ℕ)
    → r < 64
    → least ≤ acc * 64 + r
    → IsScalar (acc * 64 + r)
    → utf8_step (inside 0 acc least) (0x80 + r) ≡ some (start, (acc * 64 + r) ∷ [])
unfolding utf8_step
last_byte acc least r h l s = let e : 0x80 + r - 0x80 ≡ r = omega arith in rw e (ground (arith, s))

prepend-nil : (o : Option Text) → prepend [] o ≡ o
prepend-nil none = refl
prepend-nil (some t) = refl

utf8_run_step :
    (st : Utf8State) (b : ℕ) (bs : Bytes) {st' : Utf8State} {out : Text}
    → utf8_step st b ≡ some (st', out)
    → utf8_run st (b ∷ bs) ≡ prepend out (utf8_run st' bs)
unfolding utf8_run
utf8_run_step start b bs e = rw (e, utf8_run)
utf8_run_step (inside n acc least) b bs e = rw (e, utf8_run)

-- A byte that ends no character.
utf8_run_quiet :
    (st : Utf8State) (b : ℕ) (bs : Bytes) {st' : Utf8State}
    → utf8_step st b ≡ some (st', [])
    → utf8_run st (b ∷ bs) ≡ utf8_run st' bs
utf8_run_quiet st b bs {st'} e = utf8_run_step st b bs e ∙ prepend-nil (utf8_run st' bs)

utf8_run_two :
    (c : ℕ) (bs : Bytes)
    → 0x80 ≤ c
    → c < 0x800
    → IsScalar c
    → utf8_run start ((0xc0 + c / 64) ∷ (0x80 + c % 64) ∷ bs) ≡ prepend (c ∷ []) (utf8_run start bs)
utf8_run_two c bs lo hi s =
    let e : c / 64 * 64 + c % 64 ≡ c = omega arith in
    let last = last_byte (c / 64) 0x80 (c % 64) (omega arith) (omega arith) (rw e s) in
    utf8_run_quiet start _ _ (lead_two (c / 64) (omega arith))
    ∙ utf8_run_step (inside 0 (c / 64) 0x80) _ bs last
    ∙ ap (λ (t : ℕ). prepend (t ∷ []) (utf8_run start bs)) e

utf8_run_three :
    (c : ℕ) (bs : Bytes)
    → 0x800 ≤ c
    → c < 0x10000
    → IsScalar c
    → utf8_run start ((0xe0 + c / 4096) ∷ (0x80 + c / 64 % 64) ∷ (0x80 + c % 64) ∷ bs)
      ≡ prepend (c ∷ []) (utf8_run start bs)
utf8_run_three c bs lo hi s =
    let e : (c / 4096 * 64 + c / 64 % 64) * 64 + c % 64 ≡ c = omega arith in
    let last =
      last_byte (c / 4096 * 64 + c / 64 % 64) 0x800 (c % 64) (omega arith) (omega arith) (rw e s) in
    let more = continuation 0 (c / 4096) 0x800 (c / 64 % 64) (omega arith) in
    utf8_run_quiet start _ _ (lead_three (c / 4096) (omega arith))
    ∙ utf8_run_quiet (inside 1 (c / 4096) 0x800) _ _ more
    ∙ utf8_run_step (inside 0 _ 0x800) _ bs last
    ∙ ap (λ (t : ℕ). prepend (t ∷ []) (utf8_run start bs)) e

utf8_run_four :
    (c : ℕ) (bs : Bytes)
    → 0x10000 ≤ c
    → IsScalar c
    → utf8_run start
        ((0xf0 + c / 262144) ∷ (0x80 + c / 4096 % 64) ∷ (0x80 + c / 64 % 64) ∷ (0x80 + c % 64) ∷ bs)
      ≡ prepend (c ∷ []) (utf8_run start bs)
utf8_run_four c bs lo s =
    let hi : c < 0x110000 = ground arith in
    let e : ((c / 262144 * 64 + c / 4096 % 64) * 64 + c / 64 % 64) * 64 + c % 64 ≡ c =
      omega arith in
    let last =
      last_byte ((c / 262144 * 64 + c / 4096 % 64) * 64 + c / 64 % 64) 0x10000 (c % 64)
        (omega arith) (omega arith) (rw e s) in
    let more = continuation 1 (c / 262144) 0x10000 (c / 4096 % 64) (omega arith) in
    let again =
      continuation 0 (c / 262144 * 64 + c / 4096 % 64) 0x10000 (c / 64 % 64) (omega arith) in
    utf8_run_quiet start _ _ (lead_four (c / 262144) (omega arith))
    ∙ utf8_run_quiet (inside 2 (c / 262144) 0x10000) _ _ more
    ∙ utf8_run_quiet (inside 1 _ 0x10000) _ _ again
    ∙ utf8_run_step (inside 0 _ 0x10000) _ bs last
    ∙ ap (λ (t : ℕ). prepend (t ∷ []) (utf8_run start bs)) e

utf8_run_one :
    (c : ℕ) (bs : Bytes) → c < 0x80 → utf8_run start (c ∷ bs) ≡ prepend (c ∷ []) (utf8_run start bs)
unfolding utf8_step
utf8_run_one c bs h = utf8_run_step start c bs {out = c ∷ []} (ground arith)

utf8_run_char :
    (c : ℕ) (bs : Bytes)
    → IsScalar c
    → utf8_run start (utf8_char c ++ bs) ≡ prepend (c ∷ []) (utf8_run start bs)
unfolding utf8_char
utf8_run_char c bs h = elim (Bool-cases (ltb c 0x80)) [
  | inl one ↦ rw one (utf8_run_one c bs (ground arith))
  | inr many ↦ elim (Bool-cases (ltb c 0x800)) [
    | inl two ↦ rw (many, two) (utf8_run_two c bs (ground arith) (ground arith) h)
    | inr more ↦ elim (Bool-cases (ltb c 0x10000)) [
      | inl three ↦ rw (many, more, three) (utf8_run_three c bs (ground arith) (ground arith) h)
      | inr four ↦ rw (many, more, four) (utf8_run_four c bs (ground arith) h)
    ]
  ]
]

-- Decoding the bytes of a text of scalar values gives the text.
pub from_utf8-utf8 : (s : Text) → All IsScalar s → from_utf8 (utf8 s) ≡ some s
unfolding from_utf8 utf8
from_utf8-utf8 [] a = refl
from_utf8-utf8 (c ∷ s) (h, a) =
    utf8_run_char c (utf8 s) h ∙ ap (prepend (c ∷ [])) (from_utf8-utf8 s a)

pub utf8-ascii : (c : ℕ) (s : Text) → c < 0x80 → utf8 (c ∷ s) ≡ c ∷ utf8 s
unfolding utf8 utf8_char
utf8-ascii c s h = ground arith
