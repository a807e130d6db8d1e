-- ===== src/Config/Validate.antt =====
-- redog-config/src/types.rs and lib.rs: `Config::validate` and `parse_config`.
use redog.Common.{
  ℕ, suc, ◌+◌, Bool, true, false, ◌&&◌, ◌||◌, Text, codes, List, [], ◌∷◌, ◌++◌, Option, none, some,
  ◌==◌, if◌then◌else◌, ltb, length, map, text_eq, splitn, to_decimal,
}
use redog.Core.Error.{Error, config, Result, ok, err, ◌>>=◌, ◌>>◌}
use redog.Config.Types.{Config, DnsConfig, ProxyConfig, ProxyGroupConfig}

abbrev pub all_ports : Config → List (Text × Option ℕ)
all_ports c =
    (codes "port", c.port)
    ∷ (codes "socks-port", c.socks_port)
    ∷ (codes "mixed-port", c.mixed_port)
    ∷ (codes "redir-port", c.redir_port)
    ∷ (codes "tproxy-port", c.tproxy_port)
    ∷ []

unfoldable pub check_ranges : List (Text × Option ℕ) → Result (Unit {0})
check_ranges [] = ok tt
check_ranges ((name, none) ∷ rest) = check_ranges rest
check_ranges ((name, some p) ∷ rest) =
    let next = check_ranges rest in
    if p == 0
    then err (config (codes "invalid " ++ (name ++ codes " value: port must be 1-65535")))
    else next

-- `Vec::contains` on ports.
unfoldable pub has_port : List ℕ → ℕ → Bool
has_port [] p = false
has_port (q ∷ ports) p = q == p || has_port ports p

abbrev port_conflict : Text → ℕ → Error
port_conflict name p = config (
    codes "port conflict: "
    ++ (name ++ (codes " (" ++ (to_decimal p ++ codes ") is already in use"))))

-- The loop over the ports, `ports` being those that were seen.
unfoldable pub check_conflicts : List ℕ → List (Text × Option ℕ) → Result (Unit {0})
unfolding has_port
check_conflicts ports [] = ok tt
check_conflicts ports ((name, none) ∷ rest) = check_conflicts ports rest
check_conflicts ports ((name, some p) ∷ rest) =
    let next = check_conflicts (ports ++ (p ∷ [])) rest in
    if has_port ports p then err (port_conflict name p) else next

-- `HashSet::contains` on the names.
unfoldable pub has_name : List Text → Text → Bool
has_name [] n = false
has_name (m ∷ names) n = text_eq m n || has_name names n

unfoldable pub proxy_name : ProxyConfig → Text
proxy_name p = p.name

abbrev pub proxy_names : Config → List Text
proxy_names c =
    map (λ (p : ProxyConfig). p.name) c.proxies
    ++ (map (λ (g : ProxyGroupConfig). g.name) c.proxy_groups
        ++ (codes "DIRECT" ∷ codes "REJECT" ∷ codes "GLOBAL" ∷ []))

abbrev pub is_empty : {A : Type 0} → List A → Bool
is_empty [] = true
is_empty (_ ∷ _) = false

unfoldable pub check_members : List Text → Text → List Text → Result (Unit {0})
unfolding has_name
check_members names group [] = ok tt
check_members names group (n ∷ rest) =
    let next = check_members names group rest in
    if has_name names n
    then next
    else err
        (config (codes "proxy group '" ++ (group ++ (codes "' references unknown proxy: " ++ n))))

unfoldable pub check_groups : List Text → List ProxyGroupConfig → Result (Unit {0})
unfolding check_members
check_groups names [] = ok tt
check_groups names (g ∷ rest) =
    let next = check_groups names rest in
    if is_empty g.proxies && is_empty g.use_providers
    then err (config (codes "proxy group '" ++ (g.name ++ codes "' has no proxies or providers")))
    else (check_members names g.name g.proxies >> next)

-- The loop over the rules, from the index `i`.
unfoldable pub check_rules : ℕ → List Text → Result (Unit {0})
unfolding splitn
check_rules i [] = ok tt
check_rules i (r ∷ rest) =
    let next = check_rules (suc i) rest in
    if ltb (length (splitn 3 44 r)) 2
    then err (
        config (
          codes "rule #"
          ++ (to_decimal (i + 1)
              ++ (codes " '" ++ (r ++ codes "': must have at least type and target")))))
    else next

unfoldable pub check_dns : Option DnsConfig → Result (Unit {0})
check_dns none = ok tt
check_dns (some dns) =
    if dns.enable && is_empty dns.nameserver
    then err (config (codes "DNS is enabled but no nameservers configured"))
    else ok tt

-- `Config::validate`
unfoldable pub validate : Config → Result (Unit {0})
unfolding check_ranges check_conflicts check_groups check_rules check_dns
validate c = do
  check_ranges (all_ports c)
  check_conflicts [] (all_ports c)
  check_groups (proxy_names c) c.proxy_groups
  check_rules 0 c.rules
  check_dns c.dns

module _ (from_str : Text → Result Config) where
  -- `parse_config`, given the YAML library's `from_str` with its errors written as the source's.
  unfoldable pub parse_config : Text → Result Config
  unfolding validate
  parse_config content = do c ← from_str content; validate c; ok c

  -- `load_config`, given what reading the file at the path gives.
  unfoldable pub load_config : (Text → Result Text) → Text → Result Config
  unfolding parse_config
  load_config read_to_string path = do content ← read_to_string path; parse_config content
