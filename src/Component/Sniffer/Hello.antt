-- ===== src/Component/Sniffer/Hello.antt =====
-- What is read from the hello of a client, stage after stage.
use redog.Common.{
  ℕ, ◌+◌, ◌*◌, ◌/◌, ◌%◌, ◌≤◌, true, false, [], ◌∷◌, ◌++◌, some, leb, ltb, length, length-append,
  ◌≡◌, refl, sym, ap, ◌∙◌, arith,
}
use mathlib.Core.List.{append_assoc}
use redog.Common.Utf8.{Bytes}
use redog.Component.Sniffer.Scan.{returns, pair_at, word}
use redog.Component.Sniffer.Tls.{
  at_extensions, at_compression, at_ciphers, at_session, is_client_hello, parse_client_hello_sni,
  sniff_tls_sni,
}
use redog.Component.Sniffer.Message.{
  extension, extensions, sni, ClientHello, extension_bytes, compression_bytes, cipher_bytes,
  hello_body, hello_bytes, record_bytes, Fits, pair_at_of, byte_at_of, slice_of,
  scan_extensions_lem, length-extension, length-extensions,
}

module _ (h : ClientHello) (f : Fits h) where
  at_extensions_lem :
      (bytes front : Bytes) (pos : ℕ)
      → bytes ≡ front ++ (word (length (extension_bytes h)) ++ extension_bytes h)
      → pos ≡ length front
      → at_extensions bytes pos ≡ returns (some h.host)
  unfolding at_extensions
  at_extensions_lem bytes front pos e p =
      let n = length (extension_bytes h) in
      let size : length bytes ≡ length front + (2 + n) =
        ap length e ∙ length-append front (word n ++ extension_bytes h) ∙ omega arith in
      let first : ltb (length bytes) (pos + 2) ≡ false = ground arith in
      let second : ltb (length bytes) (pos + 2 + n) ≡ false = ground arith in
      let parts = length-append (extensions h.before) (extension (0, sni h.host) ++ h.after) in
      let own = length-append (extension (0, sni h.host)) h.after in
      rw (first, pair_at_of front n (extension_bytes h) pos e p, second)
        (scan_extensions_lem bytes h.host f.scalars h.after h.before (length bytes)
          (front ++ word n) (pos + 2 + n) (pos + 2) f.others
          (e ∙ sym (append_assoc front (word n) (extension_bytes h)))
          (omega (arith, length-append front (word n)))
          (omega (arith, parts, own, length-extension 0 (sni h.host)))
          (omega (arith, parts, size, length-extensions h.before)))

  at_compression_lem :
      (bytes front : Bytes) (pos : ℕ)
      → bytes ≡ front ++ compression_bytes h
      → pos ≡ length front
      → at_compression bytes pos ≡ returns (some h.host)
  unfolding at_compression
  at_compression_lem bytes front pos e p =
      let n = length h.compression in
      let rest : Bytes = word (length (extension_bytes h)) ++ extension_bytes h in
      let here : leb (length bytes) pos ≡ false =
        ground (arith, ap length e ∙ length-append front (n ∷ (h.compression ++ rest))) in
      rw (here, byte_at_of front n (h.compression ++ rest) pos e p)
        (at_extensions_lem bytes (front ++ (n ∷ h.compression)) (pos + 1 + n)
          (e ∙ sym (append_assoc front (n ∷ h.compression) rest))
          (omega (arith, length-append front (n ∷ h.compression))))

  at_ciphers_lem :
      (bytes front : Bytes) (pos : ℕ)
      → bytes ≡ front ++ cipher_bytes h
      → pos ≡ length front
      → at_ciphers bytes pos ≡ returns (some h.host)
  unfolding at_ciphers
  at_ciphers_lem bytes front pos e p =
      let n = length h.ciphers in
      let rest = compression_bytes h in
      let here : ltb (length bytes) (pos + 2) ≡ false =
        ground (arith, ap length e ∙ length-append front (word n ++ (h.ciphers ++ rest))) in
      rw (here, pair_at_of front n (h.ciphers ++ rest) pos e p)
        (at_compression_lem bytes (front ++ (word n ++ h.ciphers)) (pos + 2 + n)
          (e ∙ sym (append_assoc front (word n ++ h.ciphers) rest))
          (omega (arith, length-append front (word n ++ h.ciphers))))

  at_session_lem :
      (bytes front : Bytes) (pos : ℕ)
      → bytes ≡ front ++ (length h.session_id ∷ (h.session_id ++ cipher_bytes h))
      → pos ≡ length front
      → at_session bytes pos ≡ returns (some h.host)
  unfolding at_session
  at_session_lem bytes front pos e p =
      let n = length h.session_id in
      let rest = cipher_bytes h in
      let here : leb (length bytes) pos ≡ false =
        ground (arith, ap length e ∙ length-append front (n ∷ (h.session_id ++ rest))) in
      rw (here, byte_at_of front n (h.session_id ++ rest) pos e p)
        (at_ciphers_lem bytes (front ++ (n ∷ h.session_id)) (pos + 1 + n)
          (e ∙ sym (append_assoc front (n ∷ h.session_id) rest))
          (omega (arith, length-append front (n ∷ h.session_id))))

  client_hello_lem :
      (bytes : Bytes) → bytes ≡ hello_bytes h → parse_client_hello_sni bytes ≡ returns (some h.host)
  unfolding parse_client_hello_sni
  client_hello_lem bytes e =
      let n = length (hello_body h) in
      let high = n / 65536 in
      let low = n % 65536 in
      let front : Bytes = 1 ∷ high ∷ word low in
      let size : length bytes ≡ 4 + n = ap length e ∙ omega arith in
      let sum : high * 65536 + low ≡ n = omega arith in
      let hello : is_client_hello bytes ≡ true = rw (e, is_client_hello) refl in
      let first : ltb (length bytes) 4 ≡ false = ground arith in
      let second : ltb (length bytes) (4 + (high * 65536 + low)) ≡ false = ground arith in
      rw
        (
          hello,
          first,
          byte_at_of (1 ∷ []) high (word low ++ hello_body h) 1 e refl,
          pair_at_of (1 ∷ high ∷ []) low (hello_body h) 2 e refl,
          second,
        )
        (at_session_lem bytes (front ++ h.version_random) 38
          (e
            ∙ sym (
                append_assoc front h.version_random
                  (length h.session_id ∷ (h.session_id ++ cipher_bytes h))))
          (omega (arith, length-append front h.version_random, f.head)))

-- The record's header gives the handshake, whatever follows it.
pub sniff_record_lem :
    (handshake rest bytes : Bytes) (a b : ℕ)
    → bytes ≡ 0x16 ∷ a ∷ b ∷ (word (length handshake) ++ (handshake ++ rest))
    → 1 ≤ length handshake
    → sniff_tls_sni bytes ≡ parse_client_hello_sni handshake
unfolding sniff_tls_sni pair_at
sniff_record_lem handshake rest bytes a b e l =
    let n = length handshake in
    let size : length bytes ≡ 5 + (n + length rest) =
      ap length e ∙ omega (arith, length-append handshake rest) in
    let front : Bytes = 0x16 ∷ a ∷ b ∷ [] in
    let long : ltb (length bytes) 6 ≡ false = ground arith in
    let whole : ltb (length bytes) (5 + n) ≡ false = ground arith in
    rw
      (
        long,
        byte_at_of [] 0x16 (a ∷ b ∷ (word n ++ (handshake ++ rest))) 0 e refl,
        byte_at_of (0x16 ∷ []) a (b ∷ (word n ++ (handshake ++ rest))) 1 e refl,
        byte_at_of (0x16 ∷ a ∷ []) b (word n ++ (handshake ++ rest)) 2 e refl,
        pair_at_of front n (handshake ++ rest) 3 e refl,
        whole,
        slice_of (front ++ word n) handshake rest 5 (5 + n) e refl refl,
      )
      refl

-- A hello that fits its fields, whatever follows it, gives its host.
pub sniff_tls_sni-record_bytes :
    (h : ClientHello) (rest : Bytes)
    → Fits h
    → sniff_tls_sni (record_bytes h ++ rest) ≡ returns (some h.host)
sniff_tls_sni-record_bytes h rest f =
    sniff_record_lem (hello_bytes h) rest (record_bytes h ++ rest) 3 1 refl (omega arith)
    ∙ client_hello_lem h f (hello_bytes h) refl
