-- ===== src/Rules/Tests.antt =====
-- The theorems on rules at concrete lines and connections.
use redog.Common.{
  true, false, Text, codes, some, none, map, to_ascii_lowercase, text_eq, parsed, ◌≡◌, refl, ◌↔◌,
  arith, is_whitespace,
}
use redog.Core.Address.{v4}
use redog.Core.Metadata.{Metadata, tcp, http, normal}
use redog.Core.Rule.{show_rule_type}
use redog.Rules.Domain.{domain_suffix_rule}
use redog.Rules.Libs.{Libs}
use redog.Rules.Matching.{InZone}
use redog.Rules.Meaning.{matches_iff}
use redog.Rules.Parser
use redog.Rules.Parser.{BoxedRule, parse_rule}
use redog.Rules.RoundTrip.{written, WellFormed, parse_rule-written}

-- Crates whose regular expressions are plain texts and whose networks all hold nothing.
abbrev libs : Libs Text Text
libs = record {
  to_lowercase = map to_ascii_lowercase;
  regex_new = λ p. parsed p;
  is_match = text_eq;
  parse_net = λ s. parsed s;
  net_contains = λ n ip. false;
  net_is_v4 = λ n. true;
}

abbrev connection : Metadata
connection = record {
  network = tcp;
  inbound_type = http;
  src_addr = record { ip = v4 2130706433; port = 5000 };
  dst_ip = none;
  dst_port = 443;
  host = some (codes "www.Example.com");
  dns_mode = normal;
  process_path = none;
  process_name = none;
  inbound_addr = none;
  inbound_name = none;
  dscp = 0;
}

abbrev suffix_rule : BoxedRule Text Text
suffix_rule = Parser.suffix (record { suffix = codes "example.com"; adapter = codes "Proxy" })

suffix_rule-WellFormed : WellFormed libs suffix_rule
unfolding is_whitespace
suffix_rule-WellFormed = record {
  no_comma = omega arith;
  payload_trimmed = (refl, refl);
  adapter_trimmed = (refl, refl);
}

parse_rule-written_example : parse_rule libs (written libs suffix_rule) ≡ parsed suffix_rule
parse_rule-written_example = parse_rule-written libs suffix_rule suffix_rule-WellFormed

-- The line is the one that a user writes.
suffix_line : written libs suffix_rule ≡ codes "DOMAIN-SUFFIX,example.com,Proxy"
unfolding written show_rule_type domain_suffix_rule Parser.as_rule
suffix_line = refl

matches_iff_example : ((Parser.as_rule libs suffix_rule).matches connection ≡ true) ↔ (
    (h : Text) × (connection.host ≡ some h)
    × InZone (libs.to_lowercase h) (libs.to_lowercase (codes "example.com")))
matches_iff_example = matches_iff libs suffix_rule connection
