-- ===== src/Rules/RoundTrip.antt =====
-- The written form of a rule, and that `parse_rule` reads it back.
use redog.Common.{
  ℕ, ◌≤◌, false, Text, codes, ◌++◌, [], ◌∷◌, none, ◌≡◌, refl, ◌∙◌, arith, text_eq, strip_prefix,
  splitn, is_whitespace, Without, IsTrimmed, All, IsDigit, to_decimal-IsDigit, digits-IsTrimmed,
  ◌≢◌, IsTrimmed-append, trim_of_IsTrimmed, split_once_append, parsed, to_decimal,
  parse_uint-to_decimal,
}
use redog.Core.Rule.{RuleType, show_rule_type}
use redog.Rules.Domain.{domain_rule, domain_suffix_rule, domain_keyword_rule, domain_regex_rule}
use redog.Rules.IpCidr.{IpCidrRule, new_ip_cidr_rule, ip_cidr_rule_type, ip_cidr_rule}
use redog.Rules.Libs.{Libs}
use redog.Rules.Parser
use redog.Rules.Parser.{
  BoxedRule, build_rule, build_from, parse_trimmed, parse_rule, parse_port, as_rule,
}
use redog.Rules.Port.{src_port_rule, dst_port_rule, new_src_port_rule, new_dst_port_rule}

-- "TYPE,payload,adapter"
abbrev pub rule_line : Text → Text → Text → Text
rule_line t p a = t ++ (b',' ∷ (p ++ (b',' ∷ a)))

comma-IsTrimmed : IsTrimmed (b',' ∷ [])
unfolding is_whitespace
comma-IsTrimmed = (refl, refl)

rule_line-IsTrimmed :
    (t p a : Text) → IsTrimmed t → IsTrimmed p → IsTrimmed a → IsTrimmed (rule_line t p a)
rule_line-IsTrimmed t p a x y z = IsTrimmed-append t _ x (
    IsTrimmed-append (b',' ∷ []) _ comma-IsTrimmed
      (IsTrimmed-append p _ y (IsTrimmed-append (b',' ∷ []) a comma-IsTrimmed z)))

-- The fields of a rule that its line can carry.
pub record Fits (payload adapter : Text) : Type 0 where
  pub no_comma : Without b',' payload
  pub payload_trimmed : IsTrimmed payload
  pub adapter_trimmed : IsTrimmed adapter

digits-Without : (s : Text) → All IsDigit s → Without b',' s
digits-Without [] h = tt
digits-Without (c ∷ s) (h, k) = (omega arith, digits-Without s k)

-- A type of rule as it is written, other than MATCH.
record IsKind (t : Text) : Type 0 where
  kind_no_comma : Without b',' t
  kind_trimmed : IsTrimmed t
  not_match : (s : Text) → strip_prefix (codes "MATCH,") (t ++ (b',' ∷ s)) ≡ none
  not_bare : (s : Text) → text_eq (t ++ (b',' ∷ s)) (codes "MATCH") ≡ false

IsKind-show_rule_type : (t : RuleType) → t ≢ RuleType.match → IsKind (show_rule_type t)
unfolding show_rule_type strip_prefix text_eq is_whitespace
IsKind-show_rule_type RuleType.match h = absurd (h refl)
IsKind-show_rule_type _ h = record {
  kind_no_comma = omega arith;
  kind_trimmed = (refl, refl);
  not_match = λ s. refl;
  not_bare = λ s. refl;
}

module _ {Regex IpNet : Type 0} (libs : Libs Regex IpNet) where
  parse_rule_line :
      (t p a : Text)
      → IsKind t
      → Fits p a
      → parse_rule libs (rule_line t p a) ≡ build_rule libs t p a
  unfolding parse_rule parse_trimmed build_from splitn
  parse_rule_line t p a k f =
      rw
        (trim_of_IsTrimmed _
          (rule_line-IsTrimmed t p a k.kind_trimmed f.payload_trimmed f.adapter_trimmed))
        (rw (k.not_match _, parse_trimmed)
          (rw (k.not_bare _, parse_trimmed)
            (rw (split_once_append b',' t _ k.kind_no_comma, splitn)
              (rw (split_once_append b',' p a f.no_comma, splitn)
                (rw (
                  trim_of_IsTrimmed t k.kind_trimmed,
                  trim_of_IsTrimmed p f.payload_trimmed,
                  trim_of_IsTrimmed a f.adapter_trimmed,
                ))))))

  -- The line of a rule.
  unfoldable pub written : BoxedRule Regex IpNet → Text
  written (Parser.final r) = codes "MATCH," ++ r.adapter
  written b =
      rule_line (show_rule_type (as_rule libs b).rule_type) (as_rule libs b).payload
        (as_rule libs b).adapter

  -- A rule as the parser builds it: its parts have no blanks at the ends and no comma inside, and
  -- what is derived from its text is what the crates derive.
  abbrev pub WellFormed : BoxedRule Regex IpNet → Type 0
  WellFormed (Parser.domain r) = Fits r.domain r.adapter
  WellFormed (Parser.suffix r) = Fits r.suffix r.adapter
  WellFormed (Parser.keyword r) = Fits r.keyword r.adapter
  WellFormed (Parser.regex r) =
      Fits r.pattern_str r.adapter × (libs.regex_new r.pattern_str ≡ parsed r.pattern)
  WellFormed (Parser.cidr r) =
      Fits r.cidr_str r.adapter × (libs.parse_net r.cidr_str ≡ parsed r.cidr)
  WellFormed (Parser.src_port r) =
      (r.port ≤ 65535) × (r.payload_str ≡ to_decimal r.port) × IsTrimmed r.adapter
  WellFormed (Parser.dst_port r) =
      (r.port ≤ 65535) × (r.payload_str ≡ to_decimal r.port) × IsTrimmed r.adapter
  WellFormed (Parser.final r) = IsTrimmed r.adapter

  parse_typed :
      (t : RuleType) (p a : Text)
      → t ≢ RuleType.match
      → Fits p a
      → parse_rule libs (rule_line (show_rule_type t) p a) ≡ build_rule libs (show_rule_type t) p a
  parse_typed t p a ne f = parse_rule_line (show_rule_type t) p a (IsKind-show_rule_type t ne) f

  ip_cidr_rule_type-ne-match : (r : IpCidrRule IpNet) → ip_cidr_rule_type libs r ≢ RuleType.match
  unfolding ip_cidr_rule_type
  ip_cidr_rule_type-ne-match r = ground arith

  build_cidr :
      (r : IpCidrRule IpNet)
      → libs.parse_net r.cidr_str ≡ parsed r.cidr
      → build_rule libs (show_rule_type (ip_cidr_rule_type libs r)) r.cidr_str r.adapter
        ≡ parsed (Parser.cidr r)
  unfolding build_rule ip_cidr_rule_type show_rule_type text_eq new_ip_cidr_rule
  build_cidr r e = ground arith

  parse_port-to_decimal : (n : ℕ) → n ≤ 65535 → parse_port libs (to_decimal n) ≡ parsed n
  unfolding parse_port
  parse_port-to_decimal n h = rw (parse_uint-to_decimal 65535 n h)

  Fits-port : (n : ℕ) {p a : Text} → p ≡ to_decimal n → IsTrimmed a → Fits p a
  Fits-port n e t = rw e (record {
    no_comma = digits-Without (to_decimal n) (to_decimal-IsDigit n);
    payload_trimmed = digits-IsTrimmed (to_decimal n) (to_decimal-IsDigit n);
    adapter_trimmed = t;
  })

  build_regex :
      (p a : Text) {x : Regex}
      → libs.regex_new p ≡ parsed x
      → build_rule libs (show_rule_type RuleType.domain_regex) p a
        ≡ parsed (Parser.regex (record { pattern = x; pattern_str = p; adapter = a }))
  unfolding build_rule show_rule_type text_eq
  build_regex p a e = ground arith

  build_src_port :
      (n : ℕ) (p a : Text)
      → n ≤ 65535
      → p ≡ to_decimal n
      → build_rule libs (show_rule_type RuleType.src_port) p a
        ≡ parsed (Parser.src_port (record { port = n; adapter = a; payload_str = p }))
  unfolding build_rule show_rule_type text_eq new_src_port_rule
  build_src_port n p a h e = rw e (ground (arith, parse_port-to_decimal n h))

  build_dst_port :
      (n : ℕ) (p a : Text)
      → n ≤ 65535
      → p ≡ to_decimal n
      → build_rule libs (show_rule_type RuleType.dst_port) p a
        ≡ parsed (Parser.dst_port (record { port = n; adapter = a; payload_str = p }))
  unfolding build_rule show_rule_type text_eq new_dst_port_rule
  build_dst_port n p a h e = rw e (ground (arith, parse_port-to_decimal n h))

  parse_rule_match :
      (a : Text)
      → IsTrimmed a
      → parse_rule libs (codes "MATCH," ++ a) ≡ parsed (Parser.final (record { adapter = a }))
  unfolding parse_rule parse_trimmed strip_prefix is_whitespace
  parse_rule_match a t =
      rw (trim_of_IsTrimmed _ (IsTrimmed-append (codes "MATCH,") a (refl, refl) t))
        (rw (trim_of_IsTrimmed a t))

  -- Reading the line of a well-formed rule gives that rule, for every kind of rule that the
  -- parser builds.
  pub parse_rule-written :
      (b : BoxedRule Regex IpNet) → WellFormed b → parse_rule libs (written b) ≡ parsed b
  unfolding written as_rule domain_rule domain_suffix_rule domain_keyword_rule domain_regex_rule
      ip_cidr_rule src_port_rule dst_port_rule build_rule show_rule_type text_eq
  parse_rule-written (Parser.domain r) f = parse_typed RuleType.domain r.domain r.adapter (cc) f
  parse_rule-written (Parser.suffix r) f =
      parse_typed RuleType.domain_suffix r.suffix r.adapter (cc) f
  parse_rule-written (Parser.keyword r) f =
      parse_typed RuleType.domain_keyword r.keyword r.adapter (cc) f
  parse_rule-written (Parser.regex r) (f, e) =
      parse_typed RuleType.domain_regex r.pattern_str r.adapter (cc) f
      ∙ build_regex r.pattern_str r.adapter e
  parse_rule-written (Parser.cidr r) (f, e) =
      parse_typed (ip_cidr_rule_type libs r) r.cidr_str r.adapter (ip_cidr_rule_type-ne-match r) f
      ∙ build_cidr r e
  parse_rule-written (Parser.src_port r) (h, e, t) =
      parse_typed RuleType.src_port r.payload_str r.adapter (cc) (Fits-port r.port e t)
      ∙ build_src_port r.port r.payload_str r.adapter h e
  parse_rule-written (Parser.dst_port r) (h, e, t) =
      parse_typed RuleType.dst_port r.payload_str r.adapter (cc) (Fits-port r.port e t)
      ∙ build_dst_port r.port r.payload_str r.adapter h e
  parse_rule-written (Parser.final r) f = parse_rule_match r.adapter f
