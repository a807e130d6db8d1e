-- ===== src/Component/Sniffer/Message.antt =====
-- The hello of a client that names a host, its bytes, and what is read of its extensions.
use redog.Common.{
  ℕ, zero, suc, ◌+◌, ◌/◌, ◌%◌, ◌≤◌, ◌<◌, true, false, Text, List, [], ◌∷◌, ◌++◌, some, ◌==◌, leb,
  ltb, length, All, length-append, ◌≡◌, ◌≢◌, refl, sym, ap, ◌∙◌, arith,
}
use mathlib.Core.List.{append_assoc, append-nil}
use redog.Common.Utf8.{Bytes, utf8, IsScalar, from_utf8-utf8}
use redog.Component.Sniffer.Scan.{
  returns, byte_at, slice, pair_at, word, byte_at_append, slice_append, pair_at_append,
}
use redog.Component.Sniffer.Tls.{scan_names, parse_sni_extension, scan_extensions}

-- An extension is its type and its payload, and is written with the payload's length.
abbrev pub extension : ℕ × Bytes → Bytes
extension (t, payload) = word t ++ (word (length payload) ++ payload)

abbrev pub extensions : List (ℕ × Bytes) → Bytes
extensions [] = []
extensions (e ∷ es) = extension e ++ extensions es

-- The payload of the extension that names a host.
abbrev pub sni : Text → Bytes
sni host = word (3 + length (utf8 host)) ++ (0 ∷ (word (length (utf8 host)) ++ utf8 host))

-- A client's hello: its version and random bytes, the session, the cipher suites, the
-- compression methods, the extensions before the host's, the host, and the bytes of those after.
pub record ClientHello : Type 0 where
  pub version_random : Bytes
  pub session_id : Bytes
  pub ciphers : Bytes
  pub compression : Bytes
  pub before : List (ℕ × Bytes)
  pub host : Text
  pub after : Bytes

abbrev pub extension_bytes : ClientHello → Bytes
extension_bytes h = extensions h.before ++ (extension (0, sni h.host) ++ h.after)

abbrev pub compression_bytes : ClientHello → Bytes
compression_bytes h =
    length h.compression
    ∷ (h.compression ++ (word (length (extension_bytes h)) ++ extension_bytes h))

abbrev pub cipher_bytes : ClientHello → Bytes
cipher_bytes h = word (length h.ciphers) ++ (h.ciphers ++ compression_bytes h)

abbrev pub hello_body : ClientHello → Bytes
hello_body h = h.version_random ++ (length h.session_id ∷ (h.session_id ++ cipher_bytes h))

abbrev pub hello_bytes : ClientHello → Bytes
hello_bytes h =
    1 ∷ (length (hello_body h) / 65536) ∷ (word (length (hello_body h) % 65536) ++ hello_body h)

abbrev pub record_bytes : ClientHello → Bytes
record_bytes h = 0x16 ∷ 3 ∷ 1 ∷ (word (length (hello_bytes h)) ++ hello_bytes h)

-- The sizes fit the fields that carry them, no extension before the host's names a host, and the
-- host is a text.
pub record Fits (h : ClientHello) : Type 0 where
  pub head : length h.version_random ≡ 34
  pub session : length h.session_id < 256
  pub suites : length h.ciphers < 65536
  pub methods : length h.compression < 256
  pub whole : length (hello_bytes h) < 65536
  pub others : All (λ e. e.0 ≢ 0) h.before
  pub scalars : All IsScalar h.host

pub pair_at_of :
    (front : Bytes) (n : ℕ) (rest : Bytes) {bytes : Bytes} (i : ℕ)
    → bytes ≡ front ++ (word n ++ rest)
    → i ≡ length front
    → pair_at bytes i ≡ returns n
pair_at_of front n rest i e p = rw e (pair_at_append front n rest i p)

pub byte_at_of :
    (front : Bytes) (b : ℕ) (rest : Bytes) {bytes : Bytes} (i : ℕ)
    → bytes ≡ front ++ (b ∷ rest)
    → i ≡ length front
    → byte_at bytes i ≡ returns b
byte_at_of front b rest i e p = rw e (byte_at_append front b rest i p)

pub slice_of :
    (front middle rest : Bytes) {bytes : Bytes} (from to : ℕ)
    → bytes ≡ front ++ (middle ++ rest)
    → from ≡ length front
    → to ≡ length front + length middle
    → slice bytes from to ≡ returns middle
slice_of front middle rest from to e p q = rw e (slice_append front middle rest from to p q)

scan_names_lem :
    (fuel : ℕ) (host : Text) (bytes : Bytes)
    → All IsScalar host
    → bytes ≡ sni host
    → scan_names (suc fuel) bytes (2 + (3 + length (utf8 host))) 2 ≡ returns (some host)
unfolding scan_names
scan_names_lem fuel host bytes s e =
    let name = utf8 host in
    let front : Bytes = word (3 + length name) in
    let long : length bytes ≡ 5 + length name = ap length e ∙ omega arith in
    let inside : leb (2 + 3) (2 + (3 + length name)) ≡ true = ground arith in
    let bound : leb (2 + 3 + length name) (length bytes) ≡ true = ground arith in
    let kind : byte_at bytes 2 ≡ returns 0 =
      byte_at_of front 0 (word (length name) ++ name) 2 e refl in
    let width : pair_at bytes (2 + 1) ≡ returns (length name) =
      pair_at_of (front ++ (0 ∷ [])) (length name) name (2 + 1) e refl in
    let cut : slice bytes (2 + 3) (2 + 3 + length name) ≡ returns name =
      slice_of (front ++ (0 ∷ word (length name))) name [] (2 + 3) (2 + 3 + length name)
        (e ∙ ap (λ (t : Bytes). front ++ (0 ∷ (word (length name) ++ t))) (sym (append-nil name)))
        refl refl in
    rw (inside, kind, width, cut, bound, from_utf8-utf8 host s) refl

names_lem :
    (host : Text) (bytes : Bytes)
    → All IsScalar host
    → bytes ≡ sni host
    → parse_sni_extension bytes ≡ returns (some host)
unfolding parse_sni_extension
names_lem host bytes s e =
    let name = utf8 host in
    let size : length bytes ≡ suc (4 + length name) = ap length e ∙ omega arith in
    let long : ltb (length bytes) 2 ≡ false = ground arith in
    let fits : ltb (length bytes) (2 + (3 + length name)) ≡ false = ground arith in
    let listed : pair_at bytes 0 ≡ returns (3 + length name) =
      pair_at_of [] (3 + length name) (0 ∷ (word (length name) ++ name)) 0 e refl in
    rw (long, listed, fits, size) (scan_names_lem (4 + length name) host bytes s e)

-- What is read of an extension.
module _ (front : Bytes) (t : ℕ) (payload rest : Bytes) {bytes : Bytes} (pos : ℕ)
    (e : bytes ≡ front ++ (extension (t, payload) ++ rest)) (p : pos ≡ length front) where
  extension_type : pair_at bytes pos ≡ returns t
  extension_type = pair_at_of front t (word (length payload) ++ (payload ++ rest)) pos e p

  extension_width : pair_at bytes (pos + 2) ≡ returns (length payload)
  extension_width =
      pair_at_of (front ++ word t) (length payload) (payload ++ rest) (pos + 2)
        (e ∙ sym (append_assoc front (word t) (word (length payload) ++ (payload ++ rest))))
        (omega (arith, length-append front (word t)))

  extension_slice : slice bytes (pos + 4) (pos + 4 + length payload) ≡ returns payload
  extension_slice =
      let head : Bytes = word t ++ word (length payload) in
      let four : length head ≡ 4 = refl in
      slice_of (front ++ head) payload rest (pos + 4) (pos + 4 + length payload)
        (e ∙ sym (append_assoc front head (payload ++ rest)))
        (omega (arith, length-append front head, four))
        (omega (arith, length-append front head, four))

pub length-extension :
    (t : ℕ) (payload : Bytes) → length (extension (t, payload)) ≡ 4 + length payload
length-extension t payload = omega arith

module _ (bytes : Bytes) (host : Text) (s : All IsScalar host) (after : Bytes) where
  -- The loop reaches the extension that names the host over those before it.
  pub scan_extensions_lem :
      (before : List (ℕ × Bytes)) (fuel : ℕ) (front : Bytes) (last pos : ℕ)
      → All (λ e. e.0 ≢ 0) before
      → bytes ≡ front ++ (extensions before ++ (extension (0, sni host) ++ after))
      → pos ≡ length front
      → pos + length (extensions before) + 4 ≤ last
      → length before < fuel
      → scan_extensions fuel bytes last pos ≡ returns (some host)
  unfolding scan_extensions
  scan_extensions_lem before zero front last pos o e p l f = absurd (omega arith)
  scan_extensions_lem [] (suc fuel) front last pos o e p l f =
      let room : leb (pos + 4) last ≡ true = ground arith in
      rw
        (
          room,
          extension_type front 0 (sni host) after pos e p,
          extension_width front 0 (sni host) after pos e p,
          extension_slice front 0 (sni host) after pos e p,
        )
        (names_lem host (sni host) s refl)
  scan_extensions_lem ((t, payload) ∷ before) (suc fuel) front last pos (o, os) e p l f =
      let rest = extensions before ++ (extension (0, sni host) ++ after) in
      let g : bytes ≡ front ++ (extension (t, payload) ++ rest) =
        e
        ∙ ap (λ (x : Bytes). front ++ x)
            (append_assoc (extension (t, payload)) (extensions before)
              (extension (0, sni host) ++ after)) in
      let size = length-append (extension (t, payload)) (extensions before) in
      let room : leb (pos + 4) last ≡ true = ground (arith, size, length-extension t payload) in
      let other : (t == 0) ≡ false = ground (arith, o) in
      rw
        (
          room,
          extension_type front t payload rest pos g p,
          extension_width front t payload rest pos g p,
          other,
        )
        (scan_extensions_lem before fuel (front ++ extension (t, payload)) last
          (pos + 4 + length payload) os (g ∙ sym (append_assoc front (extension (t, payload)) rest))
          (omega (arith, length-append front (extension (t, payload)), length-extension t payload))
          (omega (arith, size, length-extension t payload)) (omega arith))

pub length-extensions : (es : List (ℕ × Bytes)) → length es ≤ length (extensions es)
length-extensions [] = omega arith
length-extensions ((t, payload) ∷ es) = omega (
  arith,
  length-extensions es,
  length-extension t payload,
  length-append (extension (t, payload)) (extensions es),
)
