-- ===== src/Listener/Targets.antt =====
-- The targets of requests in their written forms, and what is read from them.
use redog.Common.{
  ℕ, ◌≤◌, Text, codes, [], ◌∷◌, ◌++◌, Option, none, some, ◌≡◌, ◌≢◌, refl, arith, IsDigit,
  to_decimal, to_decimal-cons, parse_uint, parsed, parse_uint-to_decimal, Without, Without-append,
  Without-to_decimal, split_once, split_once_append, split_once-none, rsplit_once,
  rsplit_once_append, rsplit_once-none, strip_prefix, strip_prefix-eq-some, Option-cases, inl, inr,
}
use mathlib.Core.List.{append-nil}
use redog.Core.Error.{ok}
use redog.Listener.HostPort.{
  port_in, port_after, parse_host_port, before_slash, host_part, extract_host_from_target,
}

-- A host with an optional port; an IPv6 address stands in brackets.
pub data Authority : Type 0 where
  named : Text → Option ℕ → Authority
  bracket : Text → Option ℕ → Authority

abbrev pub host_of : Authority → Text
host_of (named h p) = h
host_of (bracket h p) = h

abbrev pub or_default : ℕ → Option ℕ → ℕ
or_default d none = d
or_default d (some p) = p

abbrev pub port_of : ℕ → Authority → ℕ
port_of d (named h p) = or_default d p
port_of d (bracket h p) = or_default d p

abbrev port_text : Option ℕ → Text
port_text none = []
port_text (some p) = b':' ∷ to_decimal p

abbrev pub shown : Authority → Text
shown (named h p) = h ++ port_text p
shown (bracket h p) = b'[' ∷ (h ++ (b']' ∷ port_text p))

abbrev pub PortFits : Option ℕ → Type 0
PortFits none = Unit
PortFits (some p) = p ≤ 65535

-- A host has no slash; a name is not empty and has no colon, and no host has a closing bracket.
abbrev pub Fits : Authority → Type 0
Fits (named h p) = (h ≢ []) × Without b':' h × Without b']' h × Without b'/' h × PortFits p
Fits (bracket h p) = Without b']' h × Without b'/' h × PortFits p

Without-port_text :
    (d : ℕ) (p : Option ℕ) → b':' ≢ d → ((c : ℕ) → IsDigit c → c ≢ d) → Without d (port_text p)
Without-port_text d none n f = tt
Without-port_text d (some p) n f = (n, Without-to_decimal d p f)

port_in-to_decimal : (s : Text) (d p : ℕ) → p ≤ 65535 → port_in s d (to_decimal p) ≡ ok p
unfolding port_in
port_in-to_decimal s d p h =
    let (c, t, e, _) = to_decimal-cons p in
    let known : parse_uint 65535 (c ∷ t) ≡ parsed p = rw e at (parse_uint-to_decimal 65535 p h) in
    rw e (rw (known, port_in) refl)

port_after-port_text :
    (s : Text) (d : ℕ) (p : Option ℕ)
    → PortFits p
    → port_after s d (port_text p) ≡ ok (or_default d p)
unfolding port_after strip_prefix
port_after-port_text s d none h = refl
port_after-port_text s d (some p) h = port_in-to_decimal s d p h

parse_bracket :
    (h : Text) (p : Option ℕ) (d : ℕ)
    → Without b']' h
    → PortFits p
    → parse_host_port (shown (bracket h p)) d ≡ ok (h, or_default d p)
unfolding parse_host_port
parse_bracket h p d w f =
    let split : split_once b']' (shown (bracket h p)) ≡ some (b'[' ∷ h, port_text p) =
      split_once_append b']' (b'[' ∷ h) (port_text p) (λ e. ground arith, w) in
    rw (split, parse_host_port) (rw (port_after-port_text (shown (bracket h p)) d p f) refl)

parse_named :
    (c : ℕ) (h : Text) (p : Option ℕ) (d : ℕ)
    → Without b':' (c ∷ h)
    → Without b']' (c ∷ h)
    → PortFits p
    → parse_host_port (shown (named (c ∷ h) p)) d ≡ ok (c ∷ h, or_default d p)
unfolding parse_host_port
parse_named c h none d colon close f = rw (append-nil (c ∷ h)) (
    rw (split_once-none b']' (c ∷ h) close, parse_host_port)
      (rw (rsplit_once-none b':' (c ∷ h) colon, parse_host_port) refl))
parse_named c h (some p) d colon close f =
    let s = shown (named (c ∷ h) (some p)) in
    let close' : Without b']' s =
      Without-append b']' (c ∷ h) (port_text (some p)) close
        (Without-port_text b']' (some p) (λ e. ground arith) (λ x y. omega arith)) in
    let split : rsplit_once b':' s ≡ some (c ∷ h, to_decimal p) =
      rsplit_once_append b':' (c ∷ h) (to_decimal p)
        (Without-to_decimal b':' p (λ x y. omega arith)) in
    rw (split_once-none b']' s close', parse_host_port)
      (rw (split, parse_host_port) (rw (port_in-to_decimal s d p f) refl))

parse_host_port-shown :
    (a : Authority) (d : ℕ) → Fits a → parse_host_port (shown a) d ≡ ok (host_of a, port_of d a)
parse_host_port-shown (bracket h p) d (close, slash, f) = parse_bracket h p d close f
parse_host_port-shown (named [] p) d (full, colon, close, slash, f) = absurd (full refl)
parse_host_port-shown (named (c ∷ h) p) d (full, colon, close, slash, f) =
    parse_named c h p d colon close f

-- The target of a request: an authority alone, or a URL with one, and its path after the slash.
pub data Target : Type 0 where
  alone : Authority → Target
  http_url : Authority → Option Text → Target
  https_url : Authority → Option Text → Target

abbrev pub authority : Target → Authority
authority (alone a) = a
authority (http_url a path) = a
authority (https_url a path) = a

abbrev path_text : Option Text → Text
path_text none = []
path_text (some path) = b'/' ∷ path

abbrev pub written_target : Target → Text
written_target (alone a) = shown a
written_target (http_url a path) = codes "http://" ++ (shown a ++ path_text path)
written_target (https_url a path) = codes "https://" ++ (shown a ++ path_text path)

shown-Without_slash : (a : Authority) → Fits a → Without b'/' (shown a)
shown-Without_slash (named h p) (_, colon, close, slash, f) =
    Without-append b'/' h (port_text p) slash
      (Without-port_text b'/' p (λ e. ground arith) (λ x y. omega arith))
shown-Without_slash (bracket h p) (close, slash, f) = (
  λ e. ground arith,
  Without-append b'/' h (b']' ∷ port_text p) slash
      (λ e. ground arith, Without-port_text b'/' p (λ e. ground arith) (λ x y. omega arith)),
)

before_slash-path :
    (s : Text) (path : Option Text) → Without b'/' s → before_slash (s ++ path_text path) ≡ s
unfolding before_slash
before_slash-path s none w = rw (append-nil s) (rw (split_once-none b'/' s w, before_slash) refl)
before_slash-path s (some path) w = rw (split_once_append b'/' s path w, before_slash) refl

no_http : (s : Text) → Without b'/' s → strip_prefix (codes "http://") s ≡ none
no_http s w = elim (Option-cases (strip_prefix (codes "http://") s)) [
  | inl n ↦ n
  | inr (t, e) ↦
      let w' : Without b'/' (codes "http://" ++ t) =
        rw (strip_prefix-eq-some (codes "http://") s e) at w in
      absurd (w'.1.1.1.1.1.0 refl)
]

no_https : (s : Text) → Without b'/' s → strip_prefix (codes "https://") s ≡ none
no_https s w = elim (Option-cases (strip_prefix (codes "https://") s)) [
  | inl n ↦ n
  | inr (t, e) ↦
      let w' : Without b'/' (codes "https://" ++ t) =
        rw (strip_prefix-eq-some (codes "https://") s e) at w in
      absurd (w'.1.1.1.1.1.1.0 refl)
]

host_part-written_target :
    (t : Target) → Fits (authority t) → host_part (written_target t) ≡ shown (authority t)
unfolding host_part strip_prefix
host_part-written_target (alone a) f =
    let w = shown-Without_slash a f in
    rw (no_http (shown a) w, host_part) (rw (no_https (shown a) w, host_part) refl)
host_part-written_target (http_url a path) f =
    before_slash-path (shown a) path (shown-Without_slash a f)
host_part-written_target (https_url a path) f =
    before_slash-path (shown a) path (shown-Without_slash a f)

-- From the written form of every target, an authority alone or an http or https URL, with or
-- without a port and a path, and with a name or a bracketed address that the form can carry, the
-- host is read back, and the port, or the default where none is written.
pub extract_host_from_target-written_target :
    (t : Target) (d : ℕ)
    → Fits (authority t)
    → extract_host_from_target (written_target t) d
      ≡ ok (host_of (authority t), port_of d (authority t))
unfolding extract_host_from_target
extract_host_from_target-written_target t d f =
    rw (host_part-written_target t f) (parse_host_port-shown (authority t) d f)
