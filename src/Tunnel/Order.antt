-- ===== src/Tunnel/Order.antt =====
-- The order of the map of adapters, which `HashMap` does not fix, and the choice of an adapter.
use mathlib.Core.List.{Permᴰ}
use mathlib.Core.Path.{subst}
use redog.Common.{
  true, false, Text, codes, List, [], ◌∷◌, Option, none, some, ◌≡◌, ◌≢◌, refl, ap, sym, ◌∙◌, inl,
  inr, arith, text_eq, text_eq_iff, if◌then◌else◌, Bool-cases,
}
use redog.Core.Adapter.{ProxyAdapter}
use redog.Core.Metadata.{Metadata}
use redog.Core.Rule.{Rule, show_rule_type}
use redog.Tunnel.Routing.{
  Mode, rule, global, direct_mode, MatchResult, Tunnel, find_proxy, default_match, match_rules,
  match_adapter, update_proxies,
}

module _ {S D : Type 0} where
  -- No key stands twice in the map.
  abbrev pub UniqueKeys : List (Text × ProxyAdapter S D) → Type 0
  UniqueKeys [] = Unit
  UniqueKeys (e ∷ ps) = (find_proxy e.0 ps ≡ none) × UniqueKeys ps

  -- The same entries under every key, each once.
  abbrev Alike : List (Text × ProxyAdapter S D) → List (Text × ProxyAdapter S D) → Type 0
  Alike ps qs = UniqueKeys qs × ((k : Text) → find_proxy k qs ≡ find_proxy k ps)

  cons-Alike :
      (e : Text × ProxyAdapter S D) (ps qs : List (Text × ProxyAdapter S D))
      → find_proxy e.0 ps ≡ none
      → Alike ps qs
      → Alike (e ∷ ps) (e ∷ qs)
  unfolding find_proxy
  cons-Alike e ps qs fresh (u, same) =
      ((same e.0 ∙ fresh, u), λ k. ap (λ rest. if text_eq e.0 k then some e.1 else rest) (same k))

  swap-Alike :
      (d e : Text × ProxyAdapter S D) (ps : List (Text × ProxyAdapter S D))
      → UniqueKeys (d ∷ e ∷ ps)
      → Alike (d ∷ e ∷ ps) (e ∷ d ∷ ps)
  unfolding find_proxy
  swap-Alike d e ps (fresh, (later, u)) =
      let back : text_eq e.0 d.0 ≡ false = elim (Bool-cases (text_eq e.0 d.0)) [
        | inl x ↦ let bad : some e.1 ≡ none = rw x at fresh in absurd (ground (arith, bad))
        | inr x ↦ x
      ] in
      let there : text_eq d.0 e.0 ≡ false = elim (Bool-cases (text_eq d.0 e.0)) [
        | inl x ↦
            let y : text_eq e.0 d.0 ≡ true =
              (text_eq_iff e.0 d.0).1 (sym ((text_eq_iff d.0 e.0).0 x)) in
            absurd (ground (arith, y, back))
        | inr x ↦ x
      ] in
      let first : find_proxy d.0 ps ≡ none = rw back at fresh in
      (
        (rw there later, (first, u)),
        λ k. elim (Bool-cases (text_eq d.0 k)) [
          | inl x ↦
              let at : k ≡ d.0 = sym ((text_eq_iff d.0 k).0 x) in
              let other : text_eq e.0 k ≡ false = rw at back in rw (x, other) refl
          | inr x ↦ rw x refl
        ],
      )

  Permᴰ-Alike : {ps qs : List (Text × ProxyAdapter S D)} → Permᴰ ps qs → UniqueKeys ps → Alike ps qs
  Permᴰ-Alike Permᴰ.nil u = (u, λ k. refl)
  Permᴰ-Alike (Permᴰ.cons {a = a} {b = b} {l₁ = l} {l₂ = m} e p) (fresh, u) =
      subst (λ x. Alike (a ∷ l) (x ∷ m)) e (cons-Alike a l m fresh (Permᴰ-Alike p u))
  Permᴰ-Alike (Permᴰ.swap {a = a} {b = b} {a' = c} {b' = d} {l = l} e f) u =
      subst (λ x. Alike (a ∷ b ∷ l) (c ∷ x ∷ l)) e
        (subst (λ x. Alike (a ∷ b ∷ l) (x ∷ a ∷ l)) f (swap-Alike a b l u))
  Permᴰ-Alike (Permᴰ.trans p q) u =
      let (v, same) = Permᴰ-Alike p u in
      let (w, again) = Permᴰ-Alike q v in (w, λ k. again k ∙ same k)

  -- What a rule decides, from the adapter that it names and from the answer of the rules after it.
  abbrev decided : Rule → Metadata → Option (ProxyAdapter S D) → MatchResult S D → MatchResult S D
  decided r m found rest =
      if r.matches m
      then elim found [
        | some a ↦ record {
          rule_name = show_rule_type r.rule_type;
          rule_payload = r.payload;
          adapter = a;
        }
        | none ↦ rest
      ]
      else rest

  module _ (fallback : ProxyAdapter S D) where
    match_rules-alike :
        (rules : List Rule) (ps qs : List (Text × ProxyAdapter S D)) (m : Metadata)
        → ((k : Text) → find_proxy k qs ≡ find_proxy k ps)
        → match_rules fallback rules qs m ≡ match_rules fallback rules ps m
    unfolding match_rules default_match
    match_rules-alike [] ps qs m same = rw (same (codes "DIRECT")) refl
    match_rules-alike (r ∷ rs) ps qs m same =
        ap (λ o. decided r m o (match_rules fallback rs qs m)) (same r.adapter)
        ∙ ap (decided r m (find_proxy r.adapter ps)) (match_rules-alike rs ps qs m same)

    -- In the modes of the rules and of direct connections, the adapter that is chosen does not depend
    -- on the order in which the map of adapters, whose keys are distinct, is iterated over.
    pub match_adapter_order :
        (t : Tunnel S D) (qs : List (Text × ProxyAdapter S D)) (m : Metadata)
        → Permᴰ t.proxies qs
        → UniqueKeys t.proxies
        → t.mode ≢ global
        → match_adapter fallback (update_proxies qs t) m ≡ match_adapter fallback t m
    unfolding match_adapter update_proxies
    match_adapter_order t qs m p u mode = in_mode t.mode mode
      where
        in_mode :
            (k : Mode)
            → k ≢ global
            → match_adapter fallback (record t { mode = k; proxies = qs }) m
              ≡ match_adapter fallback (record t { mode = k }) m
        in_mode rule h = match_rules-alike t.rules t.proxies qs m (Permᴰ-Alike p u).1
        in_mode global h = absurd (h refl)
        in_mode direct_mode h = rw ((Permᴰ-Alike p u).1 (codes "DIRECT")) refl
