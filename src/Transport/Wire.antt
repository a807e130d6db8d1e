-- ===== src/Transport/Wire.antt =====
-- The two directions of a connection as the codecs use them: the bytes that the peer has sent and
-- that are not read yet, up to its end of file, and the bytes written. `broken` is a peer that no
-- longer takes bytes.
use redog.Common.{
  ℕ, zero, suc, ◌+◌, ◌*◌, ◌/◌, ◌%◌, ◌^◌, ◌<◌, Bool, codes, [], ◌∷◌, ◌++◌, if◌then◌else◌, leb,
  length, take, drop, ◌≡◌, refl, ◌∙◌, arith, length-append, take_append, drop_append, le→leb,
}
use native.Mathlib.Nat.{pow-suc}
use redog.Common.Utf8.{Bytes}
use redog.Core.Error.{Error, io, Result, ok, err}

pub record Wire : Type 0 where
  pub input : Bytes
  pub output : Bytes
  pub broken : Bool

-- A step of a codec: the wire after it, and its result.
abbrev pub Codec : Type 0 → Type 0
Codec A = Wire → Wire × Result A

abbrev pub then_result : {A B : Type 0} → (A → Codec B) → Wire × Result A → Wire × Result B
then_result f (w, ok a) = f a w
then_result f (w, err e) = (w, err e)

infixl 5 ◌>>=◌ ◌>>◌
abbrev pub ◌>>=◌ : {A B : Type 0} → Codec A → (A → Codec B) → Codec B
◌>>=◌ m f w = then_result f (m w)

abbrev pub ◌>>◌ : {A B : Type 0} → Codec A → Codec B → Codec B
m >> k = m >>= λ _. k

abbrev pub return : {A : Type 0} → A → Codec A
return a w = (w, ok a)

abbrev pub fail : {A : Type 0} → Error → Codec A
fail e w = (w, err e)

-- `read_exact`
unfoldable pub read_exact : ℕ → Codec Bytes
read_exact n w =
    if leb n (length w.input)
    then (record w { input = drop n w.input }, ok (take n w.input))
    else (record w { input = [] }, err (io (codes "early eof")))

-- `write_all`
unfoldable pub write_all : Bytes → Codec (Unit {0})
write_all bytes w =
    if w.broken
    then (w, err (io (codes "broken pipe")))
    else (record w { output = w.output ++ bytes }, ok tt)

-- The bytes of a number, the highest first, and back.
unfoldable pub be_bytes : ℕ → ℕ → Bytes
be_bytes zero x = []
be_bytes (suc n) x = be_bytes n (x / 256) ++ ((x % 256) ∷ [])

unfoldable pub of_be_bytes : ℕ → Bytes → ℕ
of_be_bytes acc [] = acc
of_be_bytes acc (b ∷ bs) = of_be_bytes (acc * 256 + b) bs

-- Reading as many bytes as there are in front takes them off.
pub read_exact_append :
    (xs rest : Bytes) (w : Wire)
    → w.input ≡ xs ++ rest
    → read_exact (length xs) w ≡ (record w { input = rest }, ok xs)
unfolding read_exact
read_exact_append xs rest w e = rw e (
    rw (le→leb (length xs) (length (xs ++ rest)) (omega (arith, length-append xs rest)))
      (rw (drop_append xs rest, take_append xs rest)))

pub length-be_bytes : (n x : ℕ) → length (be_bytes n x) ≡ n
unfolding be_bytes
length-be_bytes zero x = refl
length-be_bytes (suc n) x =
    length-append (be_bytes n (x / 256)) ((x % 256) ∷ [])
    ∙ omega (arith, length-be_bytes n (x / 256))

of_be_bytes-snoc :
    (acc : ℕ) (bs : Bytes) (b : ℕ) → of_be_bytes acc (bs ++ (b ∷ [])) ≡ of_be_bytes acc bs * 256 + b
unfolding of_be_bytes
of_be_bytes-snoc acc [] b = refl
of_be_bytes-snoc acc (c ∷ bs) b = of_be_bytes-snoc (acc * 256 + c) bs b

-- A number that fits `n` bytes is read back from them.
pub of_be_bytes-be_bytes : (n x : ℕ) → x < 256 ^ n → of_be_bytes 0 (be_bytes n x) ≡ x
unfolding be_bytes of_be_bytes
of_be_bytes-be_bytes zero x h = omega arith
of_be_bytes-be_bytes (suc n) x h =
    of_be_bytes-snoc 0 (be_bytes n (x / 256)) (x % 256)
    ∙ omega (arith, of_be_bytes-be_bytes n (x / 256) (omega (arith, pow-suc 256 n)))
