-- ===== src/Tunnel/FirstMatch.antt =====
-- The adapter that the tunnel chooses, against a description by positions in the list of rules.
use redog.Common.{
  true, false, Text, codes, List, [], ◌∷◌, ◌++◌, none, some, ◌≡◌, ◌≢◌, refl, ap, ◌∙◌, ◌⊎◌, inl, inr,
  arith, All, text_eq, text_eq_iff, Bool-cases, Option-cases,
}
use redog.Core.Adapter.{ProxyAdapter}
use redog.Core.Metadata.{Metadata}
use redog.Core.Rule.{Rule, show_rule_type}
use redog.Tunnel.Routing.{
  Mode, rule, global, direct_mode, MatchResult, Tunnel, find_proxy, find_global, or_direct,
  default_match, match_rules, match_adapter,
}

module _ {S D : Type 0} (fallback : ProxyAdapter S D) where
  -- The rule does not match, or names an adapter that is not there.
  abbrev pub Skipped : List (Text × ProxyAdapter S D) → Metadata → Rule → Type 0
  Skipped proxies m r = (r.matches m ≡ false) ⊎ (find_proxy r.adapter proxies ≡ none)

  -- The rule that decides: all rules before it are skipped, it matches, and its adapter is there.
  pub record Decides (rules : List Rule) (proxies : List (Text × ProxyAdapter S D)) (m : Metadata)
      (result : MatchResult S D) : Type 0 where
    pub before : List Rule
    pub decider : Rule
    pub after : List Rule
    pub splits : rules ≡ before ++ (decider ∷ after)
    pub skipped : All (Skipped proxies m) before
    pub decider_matches : decider.matches m ≡ true
    pub adapter_is : find_proxy decider.adapter proxies ≡ some result.adapter
    pub name_is : result.rule_name ≡ show_rule_type decider.rule_type
    pub payload_is : result.rule_payload ≡ decider.payload

  -- DIRECT among the adapters, or the fallback where there is none of that name.
  abbrev pub DirectAnswer : List (Text × ProxyAdapter S D) → ProxyAdapter S D → Type 0
  DirectAnswer proxies a =
      (find_proxy (codes "DIRECT") proxies ≡ some a)
      ⊎ ((find_proxy (codes "DIRECT") proxies ≡ none) × (a ≡ fallback))

  -- Some rule decides, or all are skipped and the answer is DIRECT, as a match of no payload.
  abbrev pub RuleAnswer :
      List Rule → List (Text × ProxyAdapter S D) → Metadata → MatchResult S D → Type 0
  RuleAnswer rules proxies m result =
      Decides rules proxies m result
      ⊎ (All (Skipped proxies m) rules
          × (result.rule_name ≡ codes "MATCH")
          × (result.rule_payload ≡ [])
          × DirectAnswer proxies result.adapter)

  or_direct-DirectAnswer :
      (proxies : List (Text × ProxyAdapter S D))
      → DirectAnswer proxies (or_direct fallback (find_proxy (codes "DIRECT") proxies))
  or_direct-DirectAnswer proxies = elim (Option-cases (find_proxy (codes "DIRECT") proxies)) [
    | inl gone ↦ inr (gone, rw gone refl)
    | inr (a, found) ↦ inl (found ∙ rw found refl)
  ]

  match_rules_skip :
      (r : Rule) (rs : List Rule) (proxies : List (Text × ProxyAdapter S D)) (m : Metadata)
      → Skipped proxies m r
      → match_rules fallback (r ∷ rs) proxies m ≡ match_rules fallback rs proxies m
  unfolding match_rules
  match_rules_skip r rs proxies m (inl miss) = rw miss
  match_rules_skip r rs proxies m (inr gone) = elim (Bool-cases (r.matches m)) [
    | inl hit ↦ rw hit (rw gone)
    | inr miss ↦ rw miss
  ]

  match_rules_hit :
      (r : Rule) (rs : List Rule) (proxies : List (Text × ProxyAdapter S D)) (m : Metadata)
      {a : ProxyAdapter S D}
      → r.matches m ≡ true
      → find_proxy r.adapter proxies ≡ some a
      → match_rules fallback (r ∷ rs) proxies m
        ≡ record { rule_name = show_rule_type r.rule_type; rule_payload = r.payload; adapter = a }
  unfolding match_rules
  match_rules_hit r rs proxies m hit found = rw hit (rw found)

  RuleAnswer-skip :
      (r : Rule) (rs : List Rule) (proxies : List (Text × ProxyAdapter S D)) (m : Metadata)
      (result : MatchResult S D)
      → Skipped proxies m r
      → RuleAnswer rs proxies m result
      → RuleAnswer (r ∷ rs) proxies m result
  RuleAnswer-skip r rs proxies m result s (inl d) = inl (record {
    before = r ∷ d.before;
    decider = d.decider;
    after = d.after;
    splits = ap (◌∷◌ r) d.splits;
    skipped = (s, d.skipped);
    decider_matches = d.decider_matches;
    adapter_is = d.adapter_is;
    name_is = d.name_is;
    payload_is = d.payload_is;
  })
  RuleAnswer-skip r rs proxies m result s (inr (k, name, payload, d)) =
      inr ((s, k), name, payload, d)

  match_rules-RuleAnswer :
      (rules : List Rule) (proxies : List (Text × ProxyAdapter S D)) (m : Metadata)
      → RuleAnswer rules proxies m (match_rules fallback rules proxies m)
  unfolding match_rules default_match
  match_rules-RuleAnswer [] proxies m = inr (tt, refl, refl, or_direct-DirectAnswer proxies)
  match_rules-RuleAnswer (r ∷ rs) proxies m =
      let ih = match_rules-RuleAnswer rs proxies m in
      let skip : Skipped proxies m r
          → RuleAnswer (r ∷ rs) proxies m (match_rules fallback (r ∷ rs) proxies m) =
        λ s.
          rw (match_rules_skip r rs proxies m s)
            (RuleAnswer-skip r rs proxies m (match_rules fallback rs proxies m) s ih) in
      elim (Bool-cases (r.matches m)) [
        | inr miss ↦ skip (inl miss)
        | inl hit ↦ elim (Option-cases (find_proxy r.adapter proxies)) [
          | inl gone ↦ skip (inr gone)
          | inr (a, found) ↦ rw (match_rules_hit r rs proxies m hit found) (
              inl (record {
                before = [];
                decider = r;
                after = rs;
                splits = refl;
                skipped = tt;
                decider_matches = hit;
                adapter_is = found;
                name_is = refl;
                payload_is = refl;
              }))
        ]
      ]

  -- A built-in adapter is one of these two names.
  abbrev pub IsBuiltin : Text × ProxyAdapter S D → Type 0
  IsBuiltin (_, p) = (p.name ≡ codes "DIRECT") ⊎ (p.name ≡ codes "REJECT")

  -- The choice of the global mode: an entry that is not built in with only built-in ones before
  -- it, or the fallback where all are built in.
  abbrev pub GlobalAnswer : List (Text × ProxyAdapter S D) → ProxyAdapter S D → Type 0
  GlobalAnswer proxies a =
      ((before : List (Text × ProxyAdapter S D)) × (k : Text) × (after : List
          (Text × ProxyAdapter S D))
        × (proxies ≡ before ++ ((k, a) ∷ after))
        × All IsBuiltin before
        × (a.name ≢ codes "DIRECT")
        × (a.name ≢ codes "REJECT"))
      ⊎ (All IsBuiltin proxies × (a ≡ fallback))

  GlobalAnswer-cons :
      (k : Text) (p : ProxyAdapter S D) (ps : List (Text × ProxyAdapter S D)) (a : ProxyAdapter S D)
      → IsBuiltin (k, p)
      → GlobalAnswer ps a
      → GlobalAnswer ((k, p) ∷ ps) a
  GlobalAnswer-cons k p ps a b (inl (before, j, after, e, all, d, r)) =
      inl ((k, p) ∷ before, j, after, ap (◌∷◌ (k, p)) e, (b, all), d, r)
  GlobalAnswer-cons k p ps a b (inr (all, e)) = inr ((b, all), e)

  find_global-GlobalAnswer :
      (proxies : List (Text × ProxyAdapter S D))
      → GlobalAnswer proxies (or_direct fallback (find_global proxies))
  unfolding find_global
  find_global-GlobalAnswer [] = inr (tt, refl)
  find_global-GlobalAnswer ((k, p) ∷ ps) =
      let ih = find_global-GlobalAnswer ps in
      elim (Bool-cases (text_eq p.name (codes "DIRECT"))) [
        | inl direct ↦
            rw direct (GlobalAnswer-cons k p ps _ (inl ((text_eq_iff p.name _).0 direct)) ih)
        | inr not_direct ↦ elim (Bool-cases (text_eq p.name (codes "REJECT"))) [
          | inl reject ↦
              rw (not_direct, reject)
                (GlobalAnswer-cons k p ps _ (inr ((text_eq_iff p.name _).0 reject)) ih)
          | inr not_reject ↦
              rw (not_direct, not_reject)
                (inl (
                  [],
                  k,
                  ps,
                  refl,
                  tt,
                  λ e. ground (arith, (text_eq_iff p.name (codes "DIRECT")).1 e),
                  λ e. ground (arith, (text_eq_iff p.name (codes "REJECT")).1 e),
                ))
        ]
      ]

  -- The answer for each mode.
  abbrev pub ModeAnswer : Mode → Tunnel S D → Metadata → MatchResult S D → Type 0
  ModeAnswer rule t m result = RuleAnswer t.rules t.proxies m result
  ModeAnswer global t m result =
      (result.rule_name ≡ codes "GLOBAL") × GlobalAnswer t.proxies result.adapter
  ModeAnswer direct_mode t m result =
      (result.rule_name ≡ codes "DIRECT") × DirectAnswer t.proxies result.adapter

  -- In the rule mode the first rule that matches and whose adapter exists decides, and DIRECT is
  -- the default where there is none; in the global mode the first adapter that is not built in
  -- answers, whatever the rules; in the direct mode DIRECT does. A new direct adapter stands in
  -- where the one that is wanted is missing.
  pub match_adapter-ModeAnswer :
      (t : Tunnel S D) (m : Metadata) → ModeAnswer t.mode t m (match_adapter fallback t m)
  unfolding match_adapter
  match_adapter-ModeAnswer t m = in_mode t.mode
    where
      in_mode : (k : Mode) → ModeAnswer k t m (match_adapter fallback (record t { mode = k }) m)
      in_mode rule = match_rules-RuleAnswer t.rules t.proxies m
      in_mode global = (refl, find_global-GlobalAnswer t.proxies)
      in_mode direct_mode = (refl, or_direct-DirectAnswer t.proxies)
