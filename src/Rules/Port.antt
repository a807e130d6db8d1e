-- ===== src/Rules/Port.antt =====
-- redog-rules/src/port.rs: the rules on the source and the destination port.
use redog.Common.{ℕ, Bool, false, Text, ◌==◌, to_decimal}
use redog.Core.Metadata.{Metadata}
use redog.Core.Rule.{Rule, RuleType}

pub record SrcPortRule : Type 0 where
  pub port : ℕ
  pub adapter : Text
  pub payload_str : Text

pub record DstPortRule : Type 0 where
  pub port : ℕ
  pub adapter : Text
  pub payload_str : Text

unfoldable pub new_src_port_rule : ℕ → Text → SrcPortRule
new_src_port_rule port adapter = record {
  port = port;
  adapter = adapter;
  payload_str = to_decimal port;
}

unfoldable pub new_dst_port_rule : ℕ → Text → DstPortRule
new_dst_port_rule port adapter = record {
  port = port;
  adapter = adapter;
  payload_str = to_decimal port;
}

unfoldable pub src_port_matches : SrcPortRule → Metadata → Bool
src_port_matches r m = m.src_addr.port == r.port

unfoldable pub dst_port_matches : DstPortRule → Metadata → Bool
dst_port_matches r m = m.dst_port == r.port

unfoldable pub src_port_rule : SrcPortRule → Rule
src_port_rule r = record {
  rule_type = RuleType.src_port;
  matches = src_port_matches r;
  adapter = r.adapter;
  payload = r.payload_str;
  should_resolve_ip = false;
  should_find_process = false;
}

unfoldable pub dst_port_rule : DstPortRule → Rule
dst_port_rule r = record {
  rule_type = RuleType.dst_port;
  matches = dst_port_matches r;
  adapter = r.adapter;
  payload = r.payload_str;
  should_resolve_ip = false;
  should_find_process = false;
}
