-- ===== src/Rules/Matching.antt =====
-- What the rules on the host name and on the address match.
use redog.Common.{
  Bool, true, ◌||◌, Text, codes, ◌++◌, map, some, ◌≡◌, refl, ◌⊎◌, inl, inr, ◌↔◌, arith, text_eq,
  text_eq_iff, ends_with, ends_with_iff, contains_iff, to_ascii_lowercase, eq_ignore_ascii_case,
  Bool-cases, Option-cases,
}
use redog.Core.Metadata.{Metadata}
use redog.Rules.Domain.{
  DomainRule, DomainSuffixRule, DomainKeywordRule, on_host, domain_matches, suffix_matches,
  keyword_matches,
}
use redog.Rules.Libs.{Libs}

pub on_host_iff :
    (m : Metadata) (f : Text → Bool)
    → (on_host m f ≡ true) ↔ ((h : Text) × (m.host ≡ some h) × (f h ≡ true))
on_host_iff m f = elim (Option-cases m.host) [
  | inl n ↦ rw n (λ e. absurd (ground arith), λ (h, e, t). absurd (ground arith))
  | inr (h, s) ↦ rw s (λ e. (h, refl, e), λ (k, e, t). ground (arith, t))
]

-- A DOMAIN rule matches exactly the connections whose host is its domain up to ASCII case.
pub domain_matches_iff :
    (r : DomainRule) (m : Metadata)
    → (domain_matches r m ≡ true) ↔ (
        (h : Text) × (m.host ≡ some h)
        × (map to_ascii_lowercase h ≡ map to_ascii_lowercase r.domain))
unfolding domain_matches eq_ignore_ascii_case
domain_matches_iff r m = (
  λ e. let (h, s, t) = (on_host_iff m _).0 e in (h, s, (text_eq_iff _ _).0 t),
  λ (h, s, t). (on_host_iff m _).1 (h, s, (text_eq_iff _ _).1 t),
)

-- A lower-cased host is the suffix itself, or a label and a dot stand in front of the suffix.
abbrev pub InZone : Text → Text → Type 0
InZone h s = (h ≡ s) ⊎ ((front : Text) × (h ≡ front ++ (codes "." ++ s)))

zone_test : (h s : Text) → ((text_eq h s || ends_with h (codes "." ++ s)) ≡ true) ↔ InZone h s
zone_test h s = (
  λ e. elim (Bool-cases (text_eq h s)) [
    | inl q ↦ inl ((text_eq_iff h s).0 q)
    | inr q ↦ inr ((ends_with_iff h (codes "." ++ s)).0 (ground arith))
  ],
  λ z. elim z [
    | inl q ↦ ground (arith, (text_eq_iff h s).1 q)
    | inr q ↦ ground (arith, (ends_with_iff h (codes "." ++ s)).1 q)
  ],
)

module _ {Regex IpNet : Type 0} (libs : Libs Regex IpNet) where
  -- A DOMAIN-SUFFIX rule matches exactly the connections whose host is, in lower case, the
  -- suffix or some text, a dot and the suffix.
  pub suffix_matches_iff :
      (r : DomainSuffixRule) (m : Metadata)
      → (suffix_matches libs r m ≡ true) ↔ (
          (h : Text) × (m.host ≡ some h)
          × InZone (libs.to_lowercase h) (libs.to_lowercase r.suffix))
  unfolding suffix_matches
  suffix_matches_iff r m = (
    λ e. let (h, s, t) = (on_host_iff m _).0 e in (h, s, (zone_test _ _).0 t),
    λ (h, s, t). (on_host_iff m _).1 (h, s, (zone_test _ _).1 t),
  )

  -- A DOMAIN-KEYWORD rule matches exactly the connections whose host holds the keyword somewhere,
  -- both in lower case.
  pub keyword_matches_iff :
      (r : DomainKeywordRule) (m : Metadata)
      → (keyword_matches libs r m ≡ true) ↔ (
          (h : Text) × (m.host ≡ some h)
          × ((a : Text) × (b : Text) × (libs.to_lowercase h
                ≡ a ++ (libs.to_lowercase r.keyword ++ b))))
  unfolding keyword_matches
  keyword_matches_iff r m = (
    λ e. let (h, s, t) = (on_host_iff m _).0 e in (h, s, (contains_iff _ _).0 t),
    λ (h, s, t). (on_host_iff m _).1 (h, s, (contains_iff _ _).1 t),
  )
