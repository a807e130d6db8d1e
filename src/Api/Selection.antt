-- ===== src/Api/Selection.antt =====
-- What a choice made over the interface means for the tunnel.
use redog.Common.{
  ℕ, zero, suc, true, Text, List, [], ◌∷◌, ◌++◌, get_elem?, get_elem?_of_lt, sym, none, some,
  Option-cases, All, inl, inr, ◌⊎◌, ◌≡◌, ◌≢◌, refl, ap, ◌∙◌, arith,
}
use redog.Adapter.Selector.{
  Selector, select, selected_proxy, Selects, select_lem, NotBefore, IsValid,
}
use redog.Core.Adapter.{ProxyAdapter, selector}
use redog.Core.Error.{Result, ok, err, done}
use redog.Core.Metadata.{Metadata}
use redog.Core.Rule.{Rule}
use redog.Tunnel.Routing.{Tunnel, rule, find_proxy, match_rules, match_adapter}
use redog.Api.State.{
  Entry, plain, group, ApiState, adapter_of, as_group, find_entry, put_entry, adapters, Response,
  status_only,
}
use redog.Api.Server.{selection, change_proxy}
use redog.Api.Entries.{find-put_entry, find-put_entry_other, put_entry-same, find-adapters}

module _ {S D : Type 0} where
  -- The proxy is the first of the name among these.
  abbrev pub FirstNamed : Text → List (ProxyAdapter S D) → ProxyAdapter S D → Type 0
  FirstNamed n ps p =
      (before after : List (ProxyAdapter S D)) × (ps ≡ before ++ (p ∷ after))
      × All (λ q. q.name ≢ n) before
      × (p.name ≡ n)

  NotBefore-FirstNamed :
      (n : Text) (ps : List (ProxyAdapter S D)) (i : ℕ) (p : ProxyAdapter S D)
      → NotBefore n ps i
      → get_elem? ps i ≡ some p
      → p.name ≡ n
      → FirstNamed n ps p
  NotBefore-FirstNamed n [] i p b e h = absurd (ground (arith, e))
  NotBefore-FirstNamed n (q ∷ ps) zero p b e h =
      let same : q ≡ p = ground (arith, e) in ([], ps, ap (λ x. x ∷ ps) same, tt, h)
  NotBefore-FirstNamed n (q ∷ ps) (suc i) p (other, b) e h =
      let (before, after, splits, all, name) = NotBefore-FirstNamed n ps i p b e h in
      (q ∷ before, after, ap (◌∷◌ q) splits, (other, all), name)

  selected_member :
      (g : Selector S D) (p : ProxyAdapter S D)
      → IsValid g
      → selected_proxy g ≡ done p
      → get_elem? g.proxies g.selected ≡ some p
  unfolding selected_proxy
  selected_member g p v e =
      let (q, at) = get_elem?_of_lt g.proxies g.selected v in
      let same : q ≡ p = ground (arith, at, e) in at ∙ ap some same

  -- The answers of the handler, and what each means.
  abbrev pub Changes : Text → Text → ApiState S D → ApiState S D × Response → Type 0
  Changes k n s (s', r) =
      ((find_entry k s.proxies ≡ none) × (r ≡ status_only 404) × (s' ≡ s))
      ⊎ ((p : ProxyAdapter S D) × (find_entry k s.proxies ≡ some (plain p))
          × (r ≡ status_only 400)
          × (s' ≡ s))
      ⊎ ((g : Selector S D) × (find_entry k s.proxies ≡ some (group g))
          × All (λ p. p.name ≢ n) g.proxies
          × (r ≡ status_only 400)
          × (s' ≡ s))
      ⊎ ((g g' : Selector S D) × (p : ProxyAdapter S D) × (find_entry k s.proxies ≡ some (group g))
          × (find_entry k s'.proxies ≡ some (group g'))
          × (g'.proxies ≡ g.proxies)
          × (selected_proxy g' ≡ done p)
          × FirstNamed n g.proxies p
          × ((i : Text) → i ≢ k → find_entry i s'.proxies ≡ find_entry i s.proxies)
          × (s' ≡ record s { proxies = s'.proxies })
          × (r ≡ status_only 204))

  selection-Changes :
      (k n : Text) (s : ApiState S D) (g : Selector S D) (q : Selector S D × Result (Unit {0}))
      → find_entry k s.proxies ≡ some (group g)
      → Selects n g q
      → Changes k n s (selection k s q)
  selection-Changes k n s g (g', ok _) h (p, chosen, name, _, b, same, _, v) = inr (
      inr (
        inr (
          g,
          g',
          p,
          h,
          find-put_entry k (group g') s.proxies h,
          same,
          chosen,
          NotBefore-FirstNamed n g.proxies g'.selected p b
              (ap (λ ps. get_elem? ps g'.selected) (sym same) ∙ selected_member g' p v chosen) name,
          find-put_entry_other k (group g') s.proxies,
          refl,
          refl,
        )))
  selection-Changes k n s g (g', err e) h (missing, same, _) =
      let kept : put_entry k (group g') s.proxies ≡ s.proxies =
        ap (λ (x : Selector S D). put_entry k (group x) s.proxies) same
        ∙ put_entry-same k (group g) s.proxies h in
      inr (
        inr (
          inl (
            g,
            h,
            missing,
            refl,
            ap (λ (x : List (Text × Entry S D)). record s { proxies = x }) kept,
          )))

  change_missing :
      (k n : Text) (s : ApiState S D)
      → find_entry k s.proxies ≡ none
      → change_proxy k n s ≡ (s, status_only 404)
  unfolding change_proxy
  change_missing k n s e = rw (e, change_proxy) refl

  change_plain :
      (k n : Text) (s : ApiState S D) (p : ProxyAdapter S D)
      → find_entry k s.proxies ≡ some (plain p)
      → change_proxy k n s ≡ (s, status_only 400)
  unfolding change_proxy
  change_plain k n s p e = rw (e, change_proxy) refl

  change_group :
      (k n : Text) (s : ApiState S D) (g : Selector S D)
      → find_entry k s.proxies ≡ some (group g)
      → change_proxy k n s ≡ selection k s (select n g)
  unfolding change_proxy
  change_group k n s g e = rw (e, change_proxy) refl

  -- A change of the proxy of a group is answered with 404 where no proxy has the group's name, and
  -- with 400 where it is no selector group or has no member of the wanted name, and then nothing is
  -- changed. Otherwise the answer is 204, the first member of that name is the selected one, and
  -- nothing but the group is changed.
  pub change_proxy_lem : (k n : Text) (s : ApiState S D) → Changes k n s (change_proxy k n s)
  change_proxy_lem k n s = elim (Option-cases (find_entry k s.proxies)) [
    | inl e ↦ rw (change_missing k n s e) (inl (e, refl, refl))
    | inr (plain p, e) ↦ rw (change_plain k n s p e) (inr (inl (p, e, refl, refl)))
    | inr (group g, e) ↦
        rw (change_group k n s g e) (selection-Changes k n s g (select n g) e (select_lem n g))
  ]

  -- The tunnel over its adapters.
  abbrev pub tunnel_of : ApiState S D → List (Text × ProxyAdapter S D) → Tunnel S D
  tunnel_of s ps = record {
    proxies = ps;
    rules = s.rules;
    mode = s.mode;
    traffic = s.traffic;
    connections = s.connections;
  }

  -- After the change from `s` to `s'`, the connection is made as the first member of the name makes
  -- it, of those that the group had before.
  abbrev pub Routed :
      ProxyAdapter S D
      → Text
      → Text
      → ApiState S D
      → ApiState S D
      → List (Text × ProxyAdapter S D)
      → Metadata
      → Type 0
  Routed fallback k n s s' ps m =
      (g : Selector S D) × (p : ProxyAdapter S D) × (find_entry k s.proxies ≡ some (group g))
      × FirstNamed n g.proxies p
      × ((match_adapter fallback (tunnel_of s' ps) m).adapter.connect_stream ≡ p.connect_stream)

  first_rule :
      (fallback a : ProxyAdapter S D) (s : ApiState S D) (ps : List (Text × ProxyAdapter S D))
      (r : Rule) (rs : List Rule) (m : Metadata)
      → s.mode ≡ rule
      → s.rules ≡ r ∷ rs
      → r.matches m ≡ true
      → find_proxy r.adapter ps ≡ some a
      → (match_adapter fallback (tunnel_of s ps) m).adapter ≡ a
  unfolding match_adapter match_rules
  first_rule fallback a s ps r rs m mode rules hit found =
      rw (mode, rules) (rw hit (rw (found, match_rules) refl))

  connects_lem :
      (fallback : ProxyAdapter S D) (k n : Text) (s s' : ApiState S D)
      (ps : List (Text × ProxyAdapter S D)) (r : Rule) (rs : List Rule) (m : Metadata)
      → Changes k n s (s', status_only 204)
      → adapters s'.proxies ≡ done ps
      → s.mode ≡ rule
      → s.rules ≡ r ∷ rs
      → r.matches m ≡ true
      → r.adapter ≡ k
      → Routed fallback k n s s' ps m
  unfolding adapter_of
  connects_lem fallback k n s s' ps r rs m (inl (e, f, g)) a mode rules hit to =
      absurd (omega (arith, ap (λ (x : Response). x.status) f))
  connects_lem fallback k n s s' ps r rs m (inr (inl (p, e, f, g))) a mode rules hit to =
      absurd (omega (arith, ap (λ (x : Response). x.status) f))
  connects_lem fallback k n s s' ps r rs m (inr (inr (inl (g, e, all, f, h)))) a mode rules hit to =
      absurd (omega (arith, ap (λ (x : Response). x.status) f))
  connects_lem fallback k n s s' ps r rs m
        (inr (inr (inr (g, g', p, e, f, same, chosen, name, others, rest, st)))) a mode rules hit
        to =
      let view : ProxyAdapter S D = record p {
        name = g'.name;
        adapter_type = selector;
        addr = none;
      } in
      let seen : adapter_of (group g') ≡ done view = ap (as_group g') chosen in
      let found : find_proxy r.adapter ps ≡ some view =
        rw to (find-adapters k s'.proxies a f seen) in
      (
        g,
        p,
        e,
        name,
        ap (λ (x : ProxyAdapter S D). x.connect_stream)
            (first_rule fallback view s' ps r rs m (ap (λ (x : ApiState S D). x.mode) rest ∙ mode)
              (ap (λ (x : ApiState S D). x.rules) rest ∙ rules) hit found),
      )

  -- After a change of proxy that is answered with 204, with no group left empty: in the mode of the
  -- rules, a connection that the first rule sends to the group is made as the first member of
  -- the wanted name, among the members that the group had before, makes it.
  pub change_proxy-match_adapter :
      (fallback : ProxyAdapter S D) (k n : Text) (s s' : ApiState S D)
      (ps : List (Text × ProxyAdapter S D)) (r : Rule) (rs : List Rule) (m : Metadata)
      → change_proxy k n s ≡ (s', status_only 204)
      → adapters s'.proxies ≡ done ps
      → s.mode ≡ rule
      → s.rules ≡ r ∷ rs
      → r.matches m ≡ true
      → r.adapter ≡ k
      → Routed fallback k n s s' ps m
  change_proxy-match_adapter fallback k n s s' ps r rs m e =
      connects_lem fallback k n s s' ps r rs m (rw e at (change_proxy_lem k n s))
