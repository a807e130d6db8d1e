-- ===== src/Rules/FinalMatch.antt =====
-- redog-rules/src/final_match.rs: the catch-all rule.
use redog.Common.{true, false, Text, []}
use redog.Core.Rule.{Rule, RuleType}

pub record MatchRule : Type 0 where
  pub adapter : Text

unfoldable pub match_rule : MatchRule → Rule
match_rule r = record {
  rule_type = RuleType.match;
  matches = λ _. true;
  adapter = r.adapter;
  payload = [];
  should_resolve_ip = false;
  should_find_process = false;
}
