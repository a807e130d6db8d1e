-- ===== src/Component/Sniffer/Total.antt =====
-- Each buffer is scanned to an end, and where the scan can panic.
use redog.Common.{
  ℕ, zero, suc, ◌+◌, ◌-◌, ◌*◌, ◌≤◌, ◌<◌, true, Bool-cases, ◌==◌, leb, ltb, length, ◌≡◌, take, drop,
  refl, ap, ◌∙◌, ==_iff, inl, inr, arith,
}
use redog.Common.Utf8.{Bytes}
use redog.Component.Sniffer.Scan.{Scan, returns, panics, out_of_fuel, slice, pair_at, byte_at_of_lt}
use redog.Component.Sniffer.Tls.{
  scan_names, parse_sni_extension, scan_extensions, at_extensions, at_compression, at_ciphers,
  at_session, is_client_hello, parse_client_hello_sni, sniff_tls_sni,
}

-- A scan that ends, and panics only if `P` holds.
abbrev pub Ends {ℓ} : {A : Type ℓ} → Type 0 → Scan A → Type 0
Ends P (returns a) = Unit
Ends P panics = P
Ends P out_of_fuel = ⊥

-- Somewhere in the buffer, the type of an extension that names a host, two zero bytes, with a
-- length that runs past the buffer.
abbrev pub Overrun : Bytes → Type 0
Overrun bytes =
    (pos : ℕ) × (n : ℕ) × (pair_at bytes pos ≡ returns 0)
    × (pair_at bytes (pos + 2) ≡ returns n)
    × (length bytes < pos + 4 + n)

pair_at_of_lt :
    (bytes : Bytes) (i : ℕ) → i + 1 < length bytes → (n : ℕ) × (pair_at bytes i ≡ returns n)
unfolding pair_at
pair_at_of_lt bytes i h =
    let (a, e) = byte_at_of_lt bytes i (omega arith) in
    let (b, f) = byte_at_of_lt bytes (i + 1) h in (a * 256 + b, rw (e, f) refl)

slice_of_le :
    (bytes : Bytes) (from to : ℕ)
    → from ≤ to
    → to ≤ length bytes
    → (part : Bytes) × (slice bytes from to ≡ returns part)
unfolding slice
slice_of_le bytes from to a b =
    let low : leb from to ≡ true = ground arith in
    let high : leb to (length bytes) ≡ true = ground arith in
    (take (to - from) (drop from bytes), rw (low, high) refl)

slice_of_gt : (bytes : Bytes) (from to : ℕ) → length bytes < to → slice bytes from to ≡ panics
unfolding slice
slice_of_gt bytes from to h = ground arith

Ends-map : {A P Q : Type 0} (s : Scan A) → (P → Q) → Ends P s → Ends Q s
Ends-map (returns a) f e = tt
Ends-map panics f e = f e
Ends-map out_of_fuel f e = absurd e

scan_names-Ends :
    (bytes : Bytes) (fuel last pos : ℕ)
    → last ≤ length bytes
    → 1 ≤ fuel
    → last < fuel + pos
    → Ends ⊥ (scan_names fuel bytes last pos)
unfolding scan_names
scan_names-Ends bytes zero last pos l f g = absurd (omega arith)
scan_names-Ends bytes (suc fuel) last pos l f g = elim (Bool-cases (leb (pos + 3) last)) [
  | inr stop ↦ rw stop tt
  | inl go ↦
      let (kind, a) = byte_at_of_lt bytes pos (ground arith) in
      let (n, b) = pair_at_of_lt bytes (pos + 1) (ground arith) in
      let next = scan_names-Ends bytes fuel last (pos + 3 + n) l (ground arith) (ground arith) in
      elim (Bool-cases (kind == 0)) [
        | inr other ↦ rw (go, a, b, other) next
        | inl host ↦ elim (Bool-cases (leb (pos + 3 + n) (length bytes))) [
          | inr long ↦ rw (go, a, b, host, long) next
          | inl short ↦
              let (name, c) =
                slice_of_le bytes (pos + 3) (pos + 3 + n) (omega arith) (ground arith) in
              rw (go, a, b, host, c, short) tt
        ]
      ]
]

parse_sni_extension-Ends : (bytes : Bytes) → Ends ⊥ (parse_sni_extension bytes)
unfolding parse_sni_extension
parse_sni_extension-Ends bytes = elim (Bool-cases (ltb (length bytes) 2)) [
  | inl short ↦ rw short tt
  | inr long ↦
      let (n, a) = pair_at_of_lt bytes 0 (ground arith) in
      elim (Bool-cases (ltb (length bytes) (2 + n))) [
        | inl cut ↦ rw (long, a, cut) tt
        | inr whole ↦
            rw (long, a, whole)
              (scan_names-Ends bytes (length bytes) (2 + n) 2 (ground arith) (ground arith)
                (ground arith))
      ]
]

scan_extensions-Ends :
    (bytes : Bytes) (fuel last pos : ℕ)
    → last ≤ length bytes
    → 1 ≤ fuel
    → last < fuel + pos
    → Ends (Overrun bytes) (scan_extensions fuel bytes last pos)
unfolding scan_extensions
scan_extensions-Ends bytes zero last pos l f g = absurd (omega arith)
scan_extensions-Ends bytes (suc fuel) last pos l f g = elim (Bool-cases (leb (pos + 4) last)) [
  | inr stop ↦ rw stop tt
  | inl go ↦
      let (t, a) = pair_at_of_lt bytes pos (ground arith) in
      let (n, b) = pair_at_of_lt bytes (pos + 2) (ground arith) in
      elim (Bool-cases (t == 0)) [
        | inr other ↦
            rw (go, a, b, other)
              (scan_extensions-Ends bytes fuel last (pos + 4 + n) l (ground arith) (ground arith))
        | inl host ↦ elim (Bool-cases (leb (pos + 4 + n) (length bytes))) [
          | inr long ↦
              rw (go, a, b, host, slice_of_gt bytes (pos + 4) (pos + 4 + n) (ground arith))
                (pos, n, a ∙ ap returns ((==_iff t 0).0 host), b, ground arith)
          | inl short ↦
              let (part, c) =
                slice_of_le bytes (pos + 4) (pos + 4 + n) (omega arith) (ground arith) in
              rw (go, a, b, host, c)
                (Ends-map (parse_sni_extension part) absurd (parse_sni_extension-Ends part))
        ]
      ]
]

at_extensions-Ends : (bytes : Bytes) (pos : ℕ) → Ends (Overrun bytes) (at_extensions bytes pos)
unfolding at_extensions
at_extensions-Ends bytes pos = elim (Bool-cases (ltb (length bytes) (pos + 2))) [
  | inl short ↦ rw short tt
  | inr long ↦
      let (n, a) = pair_at_of_lt bytes pos (ground arith) in
      elim (Bool-cases (ltb (length bytes) (pos + 2 + n))) [
        | inl cut ↦ rw (long, a, cut) tt
        | inr whole ↦
            rw (long, a, whole)
              (scan_extensions-Ends bytes (length bytes) (pos + 2 + n) (pos + 2) (ground arith)
                (ground arith) (ground arith))
      ]
]

at_compression-Ends : (bytes : Bytes) (pos : ℕ) → Ends (Overrun bytes) (at_compression bytes pos)
unfolding at_compression
at_compression-Ends bytes pos = elim (Bool-cases (leb (length bytes) pos)) [
  | inl short ↦ rw short tt
  | inr long ↦
      let (n, a) = byte_at_of_lt bytes pos (ground arith) in
      rw (long, a) (at_extensions-Ends bytes (pos + 1 + n))
]

at_ciphers-Ends : (bytes : Bytes) (pos : ℕ) → Ends (Overrun bytes) (at_ciphers bytes pos)
unfolding at_ciphers
at_ciphers-Ends bytes pos = elim (Bool-cases (ltb (length bytes) (pos + 2))) [
  | inl short ↦ rw short tt
  | inr long ↦
      let (n, a) = pair_at_of_lt bytes pos (ground arith) in
      rw (long, a) (at_compression-Ends bytes (pos + 2 + n))
]

at_session-Ends : (bytes : Bytes) (pos : ℕ) → Ends (Overrun bytes) (at_session bytes pos)
unfolding at_session
at_session-Ends bytes pos = elim (Bool-cases (leb (length bytes) pos)) [
  | inl short ↦ rw short tt
  | inr long ↦
      let (n, a) = byte_at_of_lt bytes pos (ground arith) in
      rw (long, a) (at_ciphers-Ends bytes (pos + 1 + n))
]

parse_client_hello_sni-Ends : (bytes : Bytes) → Ends (Overrun bytes) (parse_client_hello_sni bytes)
unfolding parse_client_hello_sni
parse_client_hello_sni-Ends bytes = elim (Bool-cases (is_client_hello bytes)) [
  | inr other ↦ rw other tt
  | inl hello ↦ elim (Bool-cases (ltb (length bytes) 4)) [
    | inl short ↦ rw (hello, short) tt
    | inr long ↦
        let (high, a) = byte_at_of_lt bytes 1 (ground arith) in
        let (low, b) = pair_at_of_lt bytes 2 (ground arith) in
        elim (Bool-cases (ltb (length bytes) (4 + (high * 65536 + low)))) [
          | inl cut ↦ rw (hello, long, a, b, cut) tt
          | inr whole ↦ rw (hello, long, a, b, whole) (at_session-Ends bytes 38)
        ]
  ]
]

-- The handshake that the header of a record tells has such an extension.
abbrev pub HandshakeOverrun : Bytes → Type 0
HandshakeOverrun bytes =
    (n : ℕ) × (handshake : Bytes) × (pair_at bytes 3 ≡ returns n)
    × (slice bytes 5 (5 + n) ≡ returns handshake)
    × Overrun handshake

Ends-of_parts :
    {P : Type 0} (bytes : Bytes)
    → ((n : ℕ) (handshake : Bytes)
        → pair_at bytes 3 ≡ returns n
        → slice bytes 5 (5 + n) ≡ returns handshake
        → Overrun handshake
        → P)
    → Ends P (sniff_tls_sni bytes)
unfolding sniff_tls_sni
Ends-of_parts bytes give = elim (Bool-cases (ltb (length bytes) 6)) [
  | inl short ↦ rw short tt
  | inr long ↦
      let (kind, a) = byte_at_of_lt bytes 0 (ground arith) in
      let (version, b) = pair_at_of_lt bytes 1 (ground arith) in
      let (n, c) = pair_at_of_lt bytes 3 (ground arith) in
      elim (Bool-cases (kind == 0x16)) [
        | inr other ↦ rw (long, a, other) tt
        | inl known ↦ elim (Bool-cases (ltb (length bytes) (5 + n))) [
          | inl cut ↦ rw (long, a, known, b, c, cut) tt
          | inr whole ↦
              let (handshake, d) = slice_of_le bytes 5 (5 + n) (omega arith) (ground arith) in
              rw (long, a, known, b, c, whole, d)
                (Ends-map (parse_client_hello_sni handshake) (give n handshake c d)
                  (parse_client_hello_sni-Ends handshake))
        ]
      ]
]

-- Every buffer is scanned to an end: the loops do not run out of fuel. The scan panics only if
-- somewhere in the handshake that the record's header tells, two zero bytes are followed by a
-- length that runs past the handshake's end.
pub sniff_tls_sni-Ends : (bytes : Bytes) → Ends (HandshakeOverrun bytes) (sniff_tls_sni bytes)
sniff_tls_sni-Ends bytes = Ends-of_parts bytes (λ n handshake c d o. (n, handshake, c, d, o))
