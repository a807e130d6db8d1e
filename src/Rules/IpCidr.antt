-- ===== src/Rules/IpCidr.antt =====
-- redog-rules/src/ipcidr.rs: the rules on an address range.
use redog.Common.{
  Bool, false, not, Text, codes, ◌++◌, Option, none, some, if◌then◌else◌, Parsed, parsed,
  bind_parsed, map_failed,
}
use redog.Core.Address.{IpAddr}
use redog.Core.Metadata.{Metadata}
use redog.Core.Rule.{Rule, RuleType}
use redog.Rules.Libs.{Libs}

pub record IpCidrRule (IpNet : Type 0) : Type 0 where
  pub cidr : IpNet
  pub cidr_str : Text
  pub adapter : Text
  pub is_src : Bool

module _ {Regex IpNet : Type 0} (libs : Libs Regex IpNet) where
  -- `IpCidrRule::new`
  unfoldable pub new_ip_cidr_rule : Text → Text → Bool → Parsed (IpCidrRule IpNet)
  new_ip_cidr_rule cidr_str adapter is_src =
      bind_parsed
        (map_failed (λ e. codes "invalid CIDR '" ++ (cidr_str ++ (codes "': " ++ e)))
          (libs.parse_net cidr_str))
        (λ cidr.
          parsed (record { cidr = cidr; cidr_str = cidr_str; adapter = adapter; is_src = is_src }))

  unfoldable pub ip_cidr_rule_type : IpCidrRule IpNet → RuleType
  ip_cidr_rule_type r =
      if r.is_src
      then RuleType.src_ip_cidr
      else if libs.net_is_v4 r.cidr
      then RuleType.ip_cidr
      else RuleType.ip_cidr6

  unfoldable pub ip_cidr_matches : IpCidrRule IpNet → Metadata → Bool
  ip_cidr_matches r m =
      let ip : Option IpAddr = if r.is_src then some m.src_addr.ip else m.dst_ip in
      elim ip [ none ↦ false | some a ↦ libs.net_contains r.cidr a ]

  unfoldable pub ip_cidr_rule : IpCidrRule IpNet → Rule
  ip_cidr_rule r = record {
    rule_type = ip_cidr_rule_type r;
    matches = ip_cidr_matches r;
    adapter = r.adapter;
    payload = r.cidr_str;
    should_resolve_ip = not r.is_src;
    should_find_process = false;
  }
