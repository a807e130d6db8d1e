-- ===== src/Rules/Meaning.antt =====
-- What each kind of rule matches, read off the rule.
use redog.Common.{
  Bool, true, false, Text, ◌++◌, map, none, some, ◌≡◌, refl, inl, inr, ◌↔◌, arith, ==_iff,
  to_ascii_lowercase, Option-cases, if◌then◌else◌,
}
use redog.Core.Address.{IpAddr}
use redog.Core.Metadata.{Metadata}
use redog.Rules.Domain.{
  domain_rule, domain_suffix_rule, domain_keyword_rule, domain_regex_rule, regex_matches,
}
use redog.Rules.FinalMatch.{match_rule}
use redog.Rules.IpCidr.{ip_cidr_matches, ip_cidr_rule}
use redog.Rules.Libs.{Libs}
use redog.Rules.Matching.{
  InZone, on_host_iff, domain_matches_iff, suffix_matches_iff, keyword_matches_iff,
}
use redog.Rules.Parser.{
  BoxedRule, domain, suffix, keyword, regex, cidr, src_port, dst_port, final, as_rule,
}
use redog.Rules.Port.{src_port_matches, src_port_rule, dst_port_matches, dst_port_rule}

-- The connection has a host, of which the property holds.
abbrev pub HostHas : (Text → Type 0) → Metadata → Type 0
HostHas K m = (h : Text) × (m.host ≡ some h) × K h

module _ {Regex IpNet : Type 0} (libs : Libs Regex IpNet) where
  -- The network holds the source address, or the destination address where that is known.
  abbrev pub InNet : Bool → IpNet → Metadata → Type 0
  InNet true net m = libs.net_contains net m.src_addr.ip ≡ true
  InNet false net m = (a : IpAddr) × (m.dst_ip ≡ some a) × (libs.net_contains net a ≡ true)

  -- The connections that a rule is for.
  abbrev pub Meaning : BoxedRule Regex IpNet → Metadata → Type 0
  Meaning (domain r) m = HostHas (λ h. map to_ascii_lowercase h ≡ map to_ascii_lowercase r.domain) m
  Meaning (suffix r) m = HostHas (λ h. InZone (libs.to_lowercase h) (libs.to_lowercase r.suffix)) m
  Meaning (keyword r) m =
      HostHas
        (λ h.
          (a : Text) × (b : Text) × (libs.to_lowercase h ≡ a ++ (libs.to_lowercase r.keyword ++ b)))
        m
  Meaning (regex r) m = HostHas (λ h. libs.is_match r.pattern h ≡ true) m
  Meaning (cidr r) m = InNet r.is_src r.cidr m
  Meaning (src_port r) m = m.src_addr.port ≡ r.port
  Meaning (dst_port r) m = m.dst_port ≡ r.port
  Meaning (final r) m = Unit {0}

  InNet-iff :
      (b : Bool) (net : IpNet) (m : Metadata)
      → (elim (if b then some m.src_addr.ip else m.dst_ip) [
        | none ↦ false
        | some a ↦ libs.net_contains net a
      ]
          ≡ true)
        ↔ InNet b net m
  InNet-iff true net m = (λ e. e, λ e. e)
  InNet-iff false net m = elim (Option-cases m.dst_ip) [
    | inl n ↦ rw n (λ e. absurd (ground (arith, e)), λ (a, e, t). absurd (ground (arith, e)))
    | inr (a, s) ↦ rw s (λ e. (a, refl, e), λ (k, e, t). ground (arith, e, t))
  ]

  -- A rule of any kind matches exactly the connections that it is for: DOMAIN those whose host is
  -- its domain up to ASCII case; DOMAIN-SUFFIX those whose host is, in lower case, its suffix or
  -- some text, a dot and its suffix; DOMAIN-KEYWORD those whose host holds the keyword somewhere,
  -- both in lower case; DOMAIN-REGEX those whose host its pattern matches; a range of addresses
  -- those whose source address, or known destination address, it holds; the rules on ports those
  -- with that port; and MATCH all.
  pub matches_iff :
      (b : BoxedRule Regex IpNet) (m : Metadata) → ((as_rule libs b).matches m ≡ true) ↔ Meaning b m
  unfolding as_rule domain_rule domain_suffix_rule domain_keyword_rule domain_regex_rule
      regex_matches ip_cidr_rule ip_cidr_matches src_port_rule src_port_matches dst_port_rule
      dst_port_matches match_rule
  matches_iff (domain r) m = domain_matches_iff r m
  matches_iff (suffix r) m = suffix_matches_iff libs r m
  matches_iff (keyword r) m = keyword_matches_iff libs r m
  matches_iff (regex r) m = on_host_iff m (λ h. libs.is_match r.pattern h)
  matches_iff (cidr r) m = InNet-iff r.is_src r.cidr m
  matches_iff (src_port r) m = ==_iff m.src_addr.port r.port
  matches_iff (dst_port r) m = ==_iff m.dst_port r.port
  matches_iff (final r) m = (λ e. tt, λ e. refl)
