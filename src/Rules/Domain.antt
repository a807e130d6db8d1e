-- ===== src/Rules/Domain.antt =====
-- redog-rules/src/domain.rs: the four rules on the host name.
use redog.Common.{
  Bool, false, ◌||◌, Text, codes, ◌++◌, none, some, text_eq, eq_ignore_ascii_case, ends_with,
  contains,
}
use redog.Core.Metadata.{Metadata}
use redog.Core.Rule.{Rule, RuleType}
use redog.Rules.Libs.{Libs}

pub record DomainRule : Type 0 where
  pub domain : Text
  pub adapter : Text

pub record DomainSuffixRule : Type 0 where
  pub suffix : Text
  pub adapter : Text

pub record DomainKeywordRule : Type 0 where
  pub keyword : Text
  pub adapter : Text

pub record DomainRegexRule (Regex : Type 0) : Type 0 where
  pub pattern : Regex
  pub pattern_str : Text
  pub adapter : Text

-- `metadata.host.as_deref().map(f).unwrap_or(false)`
abbrev pub on_host : Metadata → (Text → Bool) → Bool
on_host m f = elim m.host [ none ↦ false | some h ↦ f h ]

unfoldable pub domain_matches : DomainRule → Metadata → Bool
domain_matches r m = on_host m (λ h. eq_ignore_ascii_case h r.domain)

unfoldable pub domain_rule : DomainRule → Rule
domain_rule r = record {
  rule_type = RuleType.domain;
  matches = domain_matches r;
  adapter = r.adapter;
  payload = r.domain;
  should_resolve_ip = false;
  should_find_process = false;
}

module _ {Regex IpNet : Type 0} (libs : Libs Regex IpNet) where
  unfoldable pub suffix_matches : DomainSuffixRule → Metadata → Bool
  suffix_matches r m = on_host m λ host.
      let h = libs.to_lowercase host in
      let s = libs.to_lowercase r.suffix in text_eq h s || ends_with h (codes "." ++ s)

  unfoldable pub keyword_matches : DomainKeywordRule → Metadata → Bool
  keyword_matches r m = on_host m λ h. contains (libs.to_lowercase h) (libs.to_lowercase r.keyword)

  unfoldable pub regex_matches : DomainRegexRule Regex → Metadata → Bool
  regex_matches r m = on_host m λ h. libs.is_match r.pattern h

  unfoldable pub domain_suffix_rule : DomainSuffixRule → Rule
  domain_suffix_rule r = record {
    rule_type = RuleType.domain_suffix;
    matches = suffix_matches r;
    adapter = r.adapter;
    payload = r.suffix;
    should_resolve_ip = false;
    should_find_process = false;
  }

  unfoldable pub domain_keyword_rule : DomainKeywordRule → Rule
  domain_keyword_rule r = record {
    rule_type = RuleType.domain_keyword;
    matches = keyword_matches r;
    adapter = r.adapter;
    payload = r.keyword;
    should_resolve_ip = false;
    should_find_process = false;
  }

  unfoldable pub domain_regex_rule : DomainRegexRule Regex → Rule
  domain_regex_rule r = record {
    rule_type = RuleType.domain_regex;
    matches = regex_matches r;
    adapter = r.adapter;
    payload = r.pattern_str;
    should_resolve_ip = false;
    should_find_process = false;
  }
