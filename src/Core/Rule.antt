-- ===== src/Core/Rule.antt =====
-- redog-core/src/rule.rs: the types of rules, and the `Rule` trait as a record of its methods.
use redog.Common.{Bool, Text, codes}
use redog.Core.Metadata.{Metadata}

pub data RuleType : Type 0 where
  domain domain_suffix domain_keyword domain_regex ip_cidr ip_cidr6 src_ip_cidr geo_ip : RuleType
  geo_site process_name process_path src_port dst_port inbound_port and or not : RuleType
  rule_set match : RuleType

unfoldable pub show_rule_type : RuleType → Text
show_rule_type domain = codes "DOMAIN"
show_rule_type domain_suffix = codes "DOMAIN-SUFFIX"
show_rule_type domain_keyword = codes "DOMAIN-KEYWORD"
show_rule_type domain_regex = codes "DOMAIN-REGEX"
show_rule_type ip_cidr = codes "IP-CIDR"
show_rule_type ip_cidr6 = codes "IP-CIDR6"
show_rule_type src_ip_cidr = codes "SRC-IP-CIDR"
show_rule_type geo_ip = codes "GEOIP"
show_rule_type geo_site = codes "GEOSITE"
show_rule_type process_name = codes "PROCESS-NAME"
show_rule_type process_path = codes "PROCESS-PATH"
show_rule_type src_port = codes "SRC-PORT"
show_rule_type dst_port = codes "DST-PORT"
show_rule_type inbound_port = codes "IN-PORT"
show_rule_type and = codes "AND"
show_rule_type or = codes "OR"
show_rule_type not = codes "NOT"
show_rule_type rule_set = codes "RULE-SET"
show_rule_type match = codes "MATCH"

-- A `dyn Rule`: the methods of one rule. `should_resolve_ip` and `should_find_process` have the
-- default `false` in the trait.
pub record Rule : Type 0 where
  pub rule_type : RuleType
  pub matches : Metadata → Bool
  pub adapter : Text
  pub payload : Text
  pub should_resolve_ip : Bool
  pub should_find_process : Bool
