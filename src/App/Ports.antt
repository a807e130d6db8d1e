-- ===== src/App/Ports.antt =====
-- The ports that the program's listeners are bound to, for a configuration that is accepted.
use mathlib.Core.List.{map-append}
use redog.Common.{
  ℕ, ◌<◌, ◌≡◌, ◌≢◌, ◌↔◌, refl, sym, ap, ◌∙◌, splitn, split_once, Text, codes, List, [], ◌∷◌, ◌++◌,
  Option, none, some, All, map, arith, inl, inr, Bool, true, false,
}
use redog.App.Waiting.{listed}
use redog.App.Setup.{listeners, listen_addr, or_port, if_set, main_config, default_config}
use redog.Config.Types.{Config}
use redog.Config.Valid.{Accepted, Fresh, set_ports, validate_iff}
use redog.Config.Validate.{
  validate, load_config, parse_config, check_ranges, check_conflicts, check_groups, check_rules,
  check_dns, has_port,
}
use redog.Core.Error.{Result, Result-cases, ok, err, ◌>>=◌, ◌>>◌}

-- No two items are equal.
abbrev pub Pairwise : List ℕ → Type 0
Pairwise [] = Unit
Pairwise (p ∷ ps) = All (λ q. p ≢ q) ps × Pairwise ps

abbrev pub ports : Config → List ℕ
unfolding listeners
ports c = map (λ l. l.1.port) (listeners c)

-- Two ports, where both are set, differ.
abbrev Apart : Option ℕ → Option ℕ → Type 0
Apart (some p) (some q) = p ≢ q
Apart (some p) none = Unit
Apart none b = Unit

Fresh-Apart :
    (a b m : Option ℕ) (rest : List (Text × Option ℕ)) (x y z : Text)
    → Fresh [] (set_ports ((x, a) ∷ (y, b) ∷ (z, m) ∷ rest))
    → Apart a b × (Apart a m × Apart b m)
Fresh-Apart none none m rest x y z h = (tt, (tt, tt))
Fresh-Apart none (some q) none rest x y z h = (tt, (tt, tt))
Fresh-Apart none (some q) (some r) rest x y z h = (tt, (tt, λ e. h.1.0 (inl e)))
Fresh-Apart (some p) none none rest x y z h = (tt, (tt, tt))
Fresh-Apart (some p) none (some r) rest x y z h = (tt, (λ e. h.1.0 (inl e), tt))
Fresh-Apart (some p) (some q) none rest x y z h = (λ e. h.1.0 (inl e), (tt, tt))
Fresh-Apart (some p) (some q) (some r) rest x y z h =
    (λ e. h.1.0 (inl e), (λ e. h.1.1.0 (inl e), λ e. h.1.1.0 (inr (inl e))))

-- The ports of the three listeners, where each is set.
abbrev bound : Option ℕ → Option ℕ → Option ℕ → List ℕ
bound m a b = or_port 7890 m ∷ (listed a ++ listed b)

-- The mixed listener's default is no other listener's port.
abbrev DefaultIsFree : Option ℕ → Option ℕ → Option ℕ → Type 0
DefaultIsFree m a b = m ≡ none → (a ≢ some 7890) × (b ≢ some 7890)

bound_iff :
    (m a b : Option ℕ)
    → Apart a b × (Apart a m × Apart b m)
    → Pairwise (bound m a b) ↔ DefaultIsFree m a b
bound_iff (some r) none none h = (λ p n. absurd (ground (arith, n)), λ f. (tt, tt))
bound_iff (some r) (some p) none h =
    (λ d n. absurd (ground (arith, n)), λ f. ((λ e. h.1.0 (sym e), tt), (tt, tt)))
bound_iff (some r) none (some q) h =
    (λ d n. absurd (ground (arith, n)), λ f. ((λ e. h.1.1 (sym e), tt), (tt, tt)))
bound_iff (some r) (some p) (some q) h = (
  λ d n. absurd (ground (arith, n)),
  λ f. ((λ e. h.1.0 (sym e), (λ e. h.1.1 (sym e), tt)), ((h.0, tt), (tt, tt))),
)
bound_iff none none none h =
    (λ d n. (λ e. ground (arith, e), λ e. ground (arith, e)), λ f. (tt, tt))
bound_iff none (some p) none h = (
  λ d n. (λ e. d.0.0 (ground (arith, e)), λ e. ground (arith, e)),
  λ f. ((λ e. (f refl).0 (ap some (sym e)), tt), (tt, tt)),
)
bound_iff none none (some q) h = (
  λ d n. (λ e. ground (arith, e), λ e. d.0.0 (ground (arith, e))),
  λ f. ((λ e. (f refl).1 (ap some (sym e)), tt), (tt, tt)),
)
bound_iff none (some p) (some q) h = (
  λ d n. (λ e. d.0.0 (ground (arith, e)), λ e. d.0.1.0 (ground (arith, e))),
  λ f. (
    (λ e. (f refl).0 (ap some (sym e)), (λ e. (f refl).1 (ap some (sym e)), tt)),
    ((h.0, tt), (tt, tt)),
  ),
)

bound_positive :
    (a b m : Option ℕ) (rest : List (Text × Option ℕ)) (x y z : Text)
    → All (λ p. 0 < p) (set_ports ((x, a) ∷ (y, b) ∷ (z, m) ∷ rest))
    → All (λ p. 0 < p) (bound m a b)
bound_positive none none none rest x y z h = (omega arith, tt)
bound_positive none none (some r) rest x y z h = (h.0, tt)
bound_positive none (some q) none rest x y z h = (omega arith, (h.0, tt))
bound_positive none (some q) (some r) rest x y z h = (h.1.0, (h.0, tt))
bound_positive (some p) none none rest x y z h = (omega arith, (h.0, tt))
bound_positive (some p) none (some r) rest x y z h = (h.1.0, (h.0, tt))
bound_positive (some p) (some q) none rest x y z h = (omega arith, (h.0, (h.1.0, tt)))
bound_positive (some p) (some q) (some r) rest x y z h = (h.1.1.0, (h.0, (h.1.0, tt)))

port-listen_addr : (lan : Bool) (port : ℕ) → (listen_addr lan port).port ≡ port
unfolding listen_addr
port-listen_addr true port = refl
port-listen_addr false port = refl

ports-if_set :
    (name : Text) (lan : Bool) (o : Option ℕ) → map (λ l. l.1.port) (if_set name lan o) ≡ listed o
unfolding if_set
ports-if_set name lan none = refl
ports-if_set name lan (some port) = rw (port-listen_addr lan port) refl

ports-bound : (c : Config) → ports c ≡ bound c.mixed_port c.port c.socks_port
unfolding listeners
ports-bound c =
    let lan = c.allow_lan in
    rw (port-listen_addr lan (or_port 7890 c.mixed_port)) (
      ap (◌∷◌ (or_port 7890 c.mixed_port)) (
        map-append (λ l. l.1.port) (if_set (codes "HTTP") lan c.port) _
        ∙ rw
            (ports-if_set (codes "HTTP") lan c.port, ports-if_set (codes "SOCKS5") lan c.socks_port)
            refl))

default_config-Accepted : Accepted (validate default_config)
unfolding validate default_config check_ranges check_conflicts check_groups check_rules check_dns
    has_port splitn split_once
default_config-Accepted = refl

after_load-Accepted :
    (c : Config) (r : Result (Unit {0}))
    → validate c ≡ r
    → Accepted (validate (main_config (r >> ok c)))
unfolding main_config
after_load-Accepted c (ok tt) e = e
after_load-Accepted c (err x) e = default_config-Accepted

parsed-Accepted :
    (r : Result Config) → Accepted (validate (main_config (r >>= λ c. validate c >> ok c)))
unfolding main_config
parsed-Accepted (ok c) = after_load-Accepted c (validate c) refl
parsed-Accepted (err x) = default_config-Accepted

main_config-Accepted :
    (from_str : Text → Result Config) (read_to_string : Text → Result Text) (path : Text)
    → Accepted (validate (main_config (load_config from_str read_to_string path)))
unfolding load_config main_config parse_config
main_config-Accepted from_str read_to_string path = elim (Result-cases (read_to_string path)) [
  | inl (content, e) ↦ rw (e, load_config) (parsed-Accepted (from_str content))
  | inr (x, e) ↦ rw (e, load_config) default_config-Accepted
]

-- What is true of the ports of the program's listeners: they are positive, and no two are equal
-- exactly if the port of the mixed listener is set, or is in the configuration no other listener's.
pub record PortsHold (c : Config) : Type 0 where
  pub positive : All (λ p. 0 < p) (ports c)
  pub apart : Pairwise (ports c) ↔ DefaultIsFree c.mixed_port c.port c.socks_port

-- Whatever the configuration's file holds, also where it is not read, does not parse or is not valid:
-- the listeners that the program starts have positive ports; and no two of these are the same exactly
-- if the port of the mixed listener is set, or neither the HTTP port nor the SOCKS5 port is 7890.
pub main_config-PortsHold :
    (from_str : Text → Result Config) (read_to_string : Text → Result Text) (path : Text)
    → PortsHold (main_config (load_config from_str read_to_string path))
main_config-PortsHold from_str read_to_string path =
    let c = main_config (load_config from_str read_to_string path) in
    let v = (validate_iff c).0 (main_config-Accepted from_str read_to_string path) in
    let rest = (codes "redir-port", c.redir_port) ∷ (codes "tproxy-port", c.tproxy_port) ∷ [] in
    let apart =
      Fresh-Apart c.port c.socks_port c.mixed_port rest (codes "port") (codes "socks-port")
        (codes "mixed-port") v.distinct in
    let positive =
      bound_positive c.port c.socks_port c.mixed_port rest (codes "port") (codes "socks-port")
        (codes "mixed-port") v.in_range in
    record {
      positive = rw (ports-bound c) positive;
      apart = rw (ports-bound c) (bound_iff c.mixed_port c.port c.socks_port apart);
    }
