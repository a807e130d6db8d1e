-- ===== src/Config/Valid.antt =====
-- What the configurations that `validate` accepts have in common.
use redog.Common.{
  ℕ, zero, suc, ◌<◌, true, false, ◌&&◌, Text, List, [], ◌∷◌, ◌++◌, Option, none, some, ◌==◌, ==_iff,
  ltb, length, All, text_eq, text_eq_iff, splitn, split_once, split_once-eq-some, Bool-cases,
  Option-cases, ◌≡◌, refl, ◌↔◌, ◌⊎◌, inl, inr, arith,
}
use redog.Core.Error.{Result, ok, err, ◌>>◌}
use redog.Config.Types.{Config, DnsConfig, ProxyGroupConfig}
use redog.Config.Validate.{
  all_ports, check_ranges, has_port, check_conflicts, has_name, proxy_names, is_empty,
  check_members, check_groups, check_rules, check_dns, validate,
}

abbrev pub Accepted : Result (Unit {0}) → Type 0
Accepted r = r ≡ ok tt

and_then : (m k : Result (Unit {0})) → Accepted (m >> k) ↔ (Accepted m × Accepted k)
and_then (ok tt) k = (λ h. (refl, h), λ h. h.1)
and_then (err e) k = (λ h. cc, λ h. cc)

-- The ports that are set.
abbrev pub set_ports : List (Text × Option ℕ) → List ℕ
set_ports [] = []
set_ports ((name, none) ∷ rest) = set_ports rest
set_ports ((name, some p) ∷ rest) = p ∷ set_ports rest

abbrev pub Member : {A : Type 0} → A → List A → Type 0
Member a [] = ⊥
Member a (x ∷ xs) = (x ≡ a) ⊎ Member a xs

-- No port occurs in `seen` or twice.
abbrev pub Fresh : List ℕ → List ℕ → Type 0
Fresh seen [] = Unit
Fresh seen (p ∷ ps) = (Member p seen → ⊥) × Fresh (seen ++ (p ∷ [])) ps

ranges_iff :
    (ps : List (Text × Option ℕ)) → Accepted (check_ranges ps) ↔ All (λ p. 0 < p) (set_ports ps)
unfolding check_ranges
ranges_iff [] = (λ h. tt, λ h. refl)
ranges_iff ((name, none) ∷ rest) = ranges_iff rest
ranges_iff ((name, some p) ∷ rest) = elim (Bool-cases (p == 0)) [
  | inl e ↦ rw e (λ h. absurd (ground arith), λ h. absurd (ground (arith, h.0)))
  | inr n ↦ rw n (λ h. (ground arith, (ranges_iff rest).0 h), λ h. (ranges_iff rest).1 h.1)
]

has_port_iff : (seen : List ℕ) (p : ℕ) → (has_port seen p ≡ true) ↔ Member p seen
unfolding has_port
has_port_iff [] p = (λ h. absurd (ground arith), λ h. absurd h)
has_port_iff (q ∷ seen) p = elim (Bool-cases (q == p)) [
  | inl e ↦ rw e (λ h. inl ((==_iff q p).0 e), λ h. refl)
  | inr n ↦ rw n (
    λ h. inr ((has_port_iff seen p).0 h),
    λ h. elim h [
      | inl e ↦ absurd (ground (arith, (==_iff q p).1 e))
      | inr m ↦ (has_port_iff seen p).1 m
    ],
  )
]

conflicts_iff :
    (seen : List ℕ) (ps : List (Text × Option ℕ))
    → Accepted (check_conflicts seen ps) ↔ Fresh seen (set_ports ps)
unfolding check_conflicts
conflicts_iff seen [] = (λ h. tt, λ h. refl)
conflicts_iff seen ((name, none) ∷ rest) = conflicts_iff seen rest
conflicts_iff seen ((name, some p) ∷ rest) = elim (Bool-cases (has_port seen p)) [
  | inl e ↦ rw e (λ h. absurd (ground arith), λ h. absurd (h.0 ((has_port_iff seen p).0 e)))
  | inr n ↦ rw n (
    λ h. (
      λ m. absurd (ground (arith, (has_port_iff seen p).1 m)),
      (conflicts_iff (seen ++ (p ∷ [])) rest).0 h,
    ),
    λ h. (conflicts_iff (seen ++ (p ∷ [])) rest).1 h.1,
  )
]

has_name_iff : (names : List Text) (n : Text) → (has_name names n ≡ true) ↔ Member n names
unfolding has_name
has_name_iff [] n = (λ h. absurd (ground arith), λ h. absurd h)
has_name_iff (m ∷ names) n = elim (Bool-cases (text_eq m n)) [
  | inl e ↦ rw e (λ h. inl ((text_eq_iff m n).0 e), λ h. refl)
  | inr e ↦ rw e (
    λ h. inr ((has_name_iff names n).0 h),
    λ h. elim h [
      | inl q ↦ absurd (ground (arith, (text_eq_iff m n).1 q))
      | inr k ↦ (has_name_iff names n).1 k
    ],
  )
]

members_iff :
    (names : List Text) (g : Text) (ns : List Text)
    → Accepted (check_members names g ns) ↔ All (λ n. Member n names) ns
unfolding check_members
members_iff names g [] = (λ h. tt, λ h. refl)
members_iff names g (n ∷ ns) = elim (Bool-cases (has_name names n)) [
  | inl e ↦ rw e (
    λ h. ((has_name_iff names n).0 e, (members_iff names g ns).0 h),
    λ h. (members_iff names g ns).1 h.1,
  )
  | inr e ↦
      rw e (λ h. absurd (ground arith), λ h. absurd (ground (arith, (has_name_iff names n).1 h.0)))
]

-- A group has a source of members, and each member it names is known.
abbrev pub GroupIsValid : List Text → ProxyGroupConfig → Type 0
GroupIsValid names g =
    ((is_empty g.proxies && is_empty g.use_providers) ≡ false) × All (λ n. Member n names) g.proxies

groups_iff :
    (names : List Text) (gs : List ProxyGroupConfig)
    → Accepted (check_groups names gs) ↔ All (GroupIsValid names) gs
unfolding check_groups
groups_iff names [] = (λ h. tt, λ h. refl)
groups_iff names (g ∷ gs) = elim (Bool-cases (is_empty g.proxies && is_empty g.use_providers)) [
  | inl e ↦ rw e (λ h. absurd (ground arith), λ h. absurd (ground (arith, h.0.0)))
  | inr e ↦
      let both = and_then (check_members names g.name g.proxies) (check_groups names gs) in
      rw e (
        λ h.
            let (m, r) = both.0 h in
            ((refl, (members_iff names g.name g.proxies).0 m), (groups_iff names gs).0 r),
        λ h. both.1 ((members_iff names g.name g.proxies).1 h.0.1, (groups_iff names gs).1 h.1),
      )
]

-- A rule has a comma.
abbrev pub HasComma : Text → Type 0
HasComma r = (type payload : Text) × (r ≡ type ++ (44 ∷ payload))

split_once_found : (d : ℕ) (a b : Text) → (x y : Text) × (split_once d (a ++ (d ∷ b)) ≡ some (x, y))
unfolding split_once
split_once_found d [] b = ([], b, rw ((==_iff d d).1 refl) refl)
split_once_found d (c ∷ a) b = elim (Bool-cases (c == d)) [
  | inl e ↦ ([], a ++ (d ∷ b), rw e refl)
  | inr e ↦ let (x, y, f) = split_once_found d a b in (c ∷ x, y, rw e (rw f refl))
]

some_parts : (n d : ℕ) (s : Text) → 0 < length (splitn (suc n) d s)
unfolding splitn
some_parts zero d s = omega arith
some_parts (suc n) d s = elim (Option-cases (split_once d s)) [
  | inl e ↦ rw (splitn, e) (omega arith)
  | inr ((a, b), e) ↦ rw (splitn, e) (omega arith)
]

splitn_one : (r : Text) → split_once 44 r ≡ none → splitn 3 44 r ≡ r ∷ []
unfolding splitn
splitn_one r n = rw (splitn, n) refl

splitn_more :
    (r : Text) {a b : Text} → split_once 44 r ≡ some (a, b) → splitn 3 44 r ≡ a ∷ splitn 2 44 b
unfolding splitn
splitn_more r f = rw (splitn, f) refl

parts_iff : (r : Text) → (ltb (length (splitn 3 44 r)) 2 ≡ false) ↔ HasComma r
parts_iff r = elim (Option-cases (split_once 44 r)) [
  | inl n ↦ rw (splitn_one r n) (
    λ h. absurd (ground arith),
    λ (t, p, e).
        let (x, y, f) = split_once_found 44 t p in
        let g : split_once 44 r ≡ some (x, y) = rw e f in absurd (ground arith),
  )
  | inr ((a, b), f) ↦
      rw (splitn_more r f)
        (λ h. (a, b, (split_once-eq-some 44 r f).0), λ h. ground (arith, some_parts 1 44 b))
]

rules_iff : (i : ℕ) (rs : List Text) → Accepted (check_rules i rs) ↔ All HasComma rs
unfolding check_rules
rules_iff i [] = (λ h. tt, λ h. refl)
rules_iff i (r ∷ rs) = elim (Bool-cases (ltb (length (splitn 3 44 r)) 2)) [
  | inl e ↦ rw e (λ h. absurd (ground arith), λ h. absurd (ground (arith, (parts_iff r).1 h.0)))
  | inr e ↦
      rw e (λ h. ((parts_iff r).0 e, (rules_iff (suc i) rs).0 h), λ h. (rules_iff (suc i) rs).1 h.1)
]

-- DNS is off, or has a name server.
abbrev pub DnsIsValid : Option DnsConfig → Type 0
DnsIsValid none = Unit
DnsIsValid (some dns) = (dns.enable && is_empty dns.nameserver) ≡ false

dns_iff : (d : Option DnsConfig) → Accepted (check_dns d) ↔ DnsIsValid d
unfolding check_dns
dns_iff none = (λ h. tt, λ h. refl)
dns_iff (some dns) = elim (Bool-cases (dns.enable && is_empty dns.nameserver)) [
  | inl e ↦ rw e (λ h. absurd (ground arith), λ h. absurd (ground arith))
  | inr e ↦ rw e (λ h. refl, λ h. refl)
]

pub record IsValid (c : Config) : Type 0 where
  pub in_range : All (λ p. 0 < p) (set_ports (all_ports c))
  pub distinct : Fresh [] (set_ports (all_ports c))
  pub groups : All (GroupIsValid (proxy_names c)) c.proxy_groups
  pub commas : All HasComma c.rules
  pub dns_served : DnsIsValid c.dns

pub validate_iff : (c : Config) → Accepted (validate c) ↔ IsValid c
unfolding validate
validate_iff c =
    let ranges = ranges_iff (all_ports c) in
    let conflicts = conflicts_iff [] (all_ports c) in
    let groups = groups_iff (proxy_names c) c.proxy_groups in
    let rules = rules_iff 0 c.rules in
    let dns = dns_iff c.dns in
    (
      λ h.
          let (a, h1) = (and_then (check_ranges (all_ports c)) _).0 h in
          let (b, h2) = (and_then (check_conflicts [] (all_ports c)) _).0 h1 in
          let (g, h3) = (and_then (check_groups (proxy_names c) c.proxy_groups) _).0 h2 in
          let (r, d) = (and_then (check_rules 0 c.rules) _).0 h3 in
          record {
            in_range = ranges.0 a;
            distinct = conflicts.0 b;
            groups = groups.0 g;
            commas = rules.0 r;
            dns_served = dns.0 d;
          },
      λ v.
          rw (ranges.1 v.in_range, conflicts.1 v.distinct)
            (rw (groups.1 v.groups, rules.1 v.commas) (dns.1 v.dns_served)),
    )
