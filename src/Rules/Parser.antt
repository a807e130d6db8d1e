-- ===== src/Rules/Parser.antt =====
-- redog-rules/src/parser.rs: `parse_rule`. A boxed rule is a constructor with its struct, so that
-- the parser's result can be inspected; `as_rule` gives its methods.
use redog.Common.{
  Bool, true, false, ◌||◌, Text, codes, ◌++◌, List, [], ◌∷◌, Option, none, some, if◌then◌else◌,
  text_eq, strip_prefix, splitn, trim, parse_uint, Parsed, parsed, failed, bind_parsed, map_failed,
}
use redog.Core.Rule.{Rule}
use redog.Rules.Domain.{
  DomainRule, DomainSuffixRule, DomainKeywordRule, DomainRegexRule, domain_rule, domain_suffix_rule,
  domain_keyword_rule, domain_regex_rule,
}
use redog.Rules.FinalMatch.{MatchRule, match_rule}
use redog.Rules.IpCidr.{IpCidrRule, new_ip_cidr_rule, ip_cidr_rule}
use redog.Rules.Libs.{Libs}
use redog.Rules.Port.{
  SrcPortRule, DstPortRule, new_src_port_rule, new_dst_port_rule, src_port_rule, dst_port_rule,
}

-- `Box<dyn Rule>`
pub data BoxedRule (Regex IpNet : Type 0) : Type 0 where
  domain : DomainRule → BoxedRule Regex IpNet
  suffix : DomainSuffixRule → BoxedRule Regex IpNet
  keyword : DomainKeywordRule → BoxedRule Regex IpNet
  regex : DomainRegexRule Regex → BoxedRule Regex IpNet
  cidr : IpCidrRule IpNet → BoxedRule Regex IpNet
  src_port : SrcPortRule → BoxedRule Regex IpNet
  dst_port : DstPortRule → BoxedRule Regex IpNet
  final : MatchRule → BoxedRule Regex IpNet

module _ {Regex IpNet : Type 0} (libs : Libs Regex IpNet) where
  unfoldable pub as_rule : BoxedRule Regex IpNet → Rule
  as_rule (domain r) = domain_rule r
  as_rule (suffix r) = domain_suffix_rule libs r
  as_rule (keyword r) = domain_keyword_rule libs r
  as_rule (regex r) = domain_regex_rule libs r
  as_rule (cidr r) = ip_cidr_rule libs r
  as_rule (src_port r) = src_port_rule r
  as_rule (dst_port r) = dst_port_rule r
  as_rule (final r) = match_rule r

  -- The port of `SRC-PORT` and `DST-PORT`.
  unfoldable pub parse_port : Text → Parsed redog.Common.ℕ
  parse_port payload =
      map_failed (λ e. codes "invalid port '" ++ (payload ++ (codes "': " ++ e)))
        (parse_uint 65535 payload)

  -- `match rule_type { … }`
  unfoldable pub build_rule : Text → Text → Text → Parsed (BoxedRule Regex IpNet)
  unfolding parse_port
  build_rule rule_type payload adapter =
      if text_eq rule_type (codes "DOMAIN")
      then parsed (domain (record { domain = payload; adapter = adapter }))
      else if text_eq rule_type (codes "DOMAIN-SUFFIX")
      then parsed (suffix (record { suffix = payload; adapter = adapter }))
      else if text_eq rule_type (codes "DOMAIN-KEYWORD")
      then parsed (keyword (record { keyword = payload; adapter = adapter }))
      else if text_eq rule_type (codes "DOMAIN-REGEX")
      then bind_parsed
          (map_failed (λ e. codes "invalid regex '" ++ (payload ++ (codes "': " ++ e)))
            (libs.regex_new payload))
          (λ p. parsed (regex (record { pattern = p; pattern_str = payload; adapter = adapter })))
      else if text_eq rule_type (codes "IP-CIDR") || text_eq rule_type (codes "IP-CIDR6")
      then bind_parsed (new_ip_cidr_rule libs payload adapter false) (λ r. parsed (cidr r))
      else if text_eq rule_type (codes "SRC-IP-CIDR")
      then bind_parsed (new_ip_cidr_rule libs payload adapter true) (λ r. parsed (cidr r))
      else if text_eq rule_type (codes "SRC-PORT")
      then bind_parsed (parse_port payload) (λ p. parsed (src_port (new_src_port_rule p adapter)))
      else if text_eq rule_type (codes "DST-PORT")
      then bind_parsed (parse_port payload) (λ p. parsed (dst_port (new_dst_port_rule p adapter)))
      else failed (codes "unknown rule type: " ++ rule_type)

  -- The parts of `splitn(3, ',')`.
  unfoldable pub build_from : Text → List Text → Parsed (BoxedRule Regex IpNet)
  build_from line (rule_type ∷ payload ∷ adapter ∷ _) =
      build_rule (trim rule_type) (trim payload) (trim adapter)
  build_from line _ = failed (codes "invalid rule format: " ++ line)

  -- The line after `trim`.
  unfoldable pub parse_trimmed : Text → Parsed (BoxedRule Regex IpNet)
  unfolding build_from
  parse_trimmed line = elim (strip_prefix (codes "MATCH,") line) [
    | some adapter ↦ parsed (final (record { adapter = trim adapter }))
    | none ↦
        if text_eq line (codes "MATCH")
        then parsed (final (record { adapter = trim (codes "DIRECT") }))
        else build_from line (splitn 3 b',' line)
  ]

  unfoldable pub parse_rule : Text → Parsed (BoxedRule Regex IpNet)
  unfolding parse_trimmed
  parse_rule line = parse_trimmed (trim line)
