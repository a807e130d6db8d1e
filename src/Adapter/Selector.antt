-- ===== src/Adapter/Selector.antt =====
-- redog-adapter/src/proxy_group/selector.rs: a group whose member is chosen by name.
use mathlib.Core.Path.{subst, sym}
use redog.Common.{
  ℕ, zero, suc, ◌+◌, ◌<◌, Bool, Text, codes, List, [], ◌∷◌, ◌++◌, map, Option, none, some, ◌≡◌, ◌≢◌,
  refl, arith, inl, inr, if◌then◌else◌, text_eq, text_eq_iff, get_elem?, length, All,
  get_elem?_of_lt, Bool-cases, Option-cases,
}
use redog.Core.Adapter.{ProxyAdapter}
use redog.Core.Error.{config, Result, ok, err, Outcome, done, panic}
use redog.Core.Metadata.{Metadata}

pub record Selector (S D : Type 0) : Type 0 where
  pub name : Text
  pub proxies : List (ProxyAdapter S D)
  pub selected : ℕ

module _ {S D : Type 0} where
  -- `Selector::new`
  unfoldable pub new : Text → List (ProxyAdapter S D) → Selector S D
  new name proxies = record { name = name; proxies = proxies; selected = 0 }

  -- `iter().position(|p| p.name() == proxy_name)`, from index `i` on
  unfoldable pub position : Text → ℕ → List (ProxyAdapter S D) → Option ℕ
  position proxy_name i [] = none
  position proxy_name i (p ∷ ps) =
      let rest = position proxy_name (suc i) ps in
      if text_eq p.name proxy_name then some i else rest

  -- `select`: the group after the call, and its answer
  unfoldable pub select : Text → Selector S D → Selector S D × Result (Unit {0})
  unfolding position
  select proxy_name g = elim (position proxy_name 0 g.proxies) [
    | none ↦ (g, err (config (codes "proxy not found: " ++ proxy_name)))
    | some idx ↦ (record g { selected = idx }, ok tt)
  ]

  unfoldable pub current : Selector S D → Text
  current g = elim (get_elem? g.proxies g.selected) [ some p ↦ p.name | none ↦ codes "DIRECT" ]

  unfoldable pub all : Selector S D → List Text
  all g = map (λ p. p.name) g.proxies

  -- `proxies.first().expect(..)`
  abbrev first : List (ProxyAdapter S D) → Outcome (ProxyAdapter S D)
  first [] = panic
  first (p ∷ _) = done p

  unfoldable pub selected_proxy : Selector S D → Outcome (ProxyAdapter S D)
  selected_proxy g = elim (get_elem? g.proxies g.selected) [
    | some p ↦ done p
    | none ↦ first g.proxies
  ]

  -- `impl ProxyAdapter for Selector`: every method but the name asks the selected member.
  abbrev delegate : {A : Type 0} → (ProxyAdapter S D → A) → Selector S D → Outcome A
  delegate f g = elim (selected_proxy g) [ done p ↦ done (f p) | panic ↦ panic ]

  unfoldable pub connect_stream : Selector S D → Metadata → Outcome (Result S)
  unfolding selected_proxy
  connect_stream g m = delegate (λ p. p.connect_stream m) g

  unfoldable pub connect_datagram : Selector S D → Metadata → Outcome (Result D)
  unfolding selected_proxy
  connect_datagram g m = delegate (λ p. p.connect_datagram m) g

  unfoldable pub support_udp : Selector S D → Outcome Bool
  unfolding selected_proxy
  support_udp g = delegate (λ p. p.support_udp) g

  unfoldable pub alive : Selector S D → Outcome Bool
  unfolding selected_proxy
  alive g = delegate (λ p. p.alive) g

  abbrev pub IsValid : Selector S D → Type 0
  IsValid g = g.selected < length g.proxies

  -- Every member before an index has another name.
  abbrev pub NotBefore : Text → List (ProxyAdapter S D) → ℕ → Type 0
  NotBefore n ps zero = Unit
  NotBefore n [] (suc i) = Unit
  NotBefore n (p ∷ ps) (suc i) = (p.name ≢ n) × NotBefore n ps i

  position_found :
      (n : Text) (i : ℕ) (ps : List (ProxyAdapter S D)) {idx : ℕ}
      → position n i ps ≡ some idx
      → (j : ℕ) × (p : ProxyAdapter S D) × (idx ≡ i + j)
        × (get_elem? ps j ≡ some p)
        × (p.name ≡ n)
        × (j < length ps)
        × NotBefore n ps j
  unfolding position
  position_found n i [] h = absurd (ground arith)
  position_found n i (p ∷ ps) {idx} h = elim (Bool-cases (text_eq p.name n)) [
    | inl e ↦ (0, p, ground arith, refl, (text_eq_iff p.name n).0 e, omega arith, tt)
    | inr e ↦
        let (j, q, at, elem, name, lt, before) = position_found n (suc i) ps (rw e at h) in
        (
          suc j,
          q,
          omega arith,
          elem,
          name,
          omega arith,
          (λ s. ground (arith, text_eq_iff p.name n), before),
        )
  ]

  position_missing :
      (n : Text) (i : ℕ) (ps : List (ProxyAdapter S D))
      → position n i ps ≡ none
      → All (λ p. p.name ≢ n) ps
  unfolding position
  position_missing n i [] h = tt
  position_missing n i (p ∷ ps) h =
      (λ s. ground (arith, text_eq_iff p.name n), position_missing n (suc i) ps (ground (arith)))

  -- What an answer of `select` for a name means.
  abbrev pub Selects : Text → Selector S D → Selector S D × Result (Unit {0}) → Type 0
  Selects n g (g', ok _) =
      (p : ProxyAdapter S D) × (selected_proxy g' ≡ done p)
      × (p.name ≡ n)
      × (current g' ≡ n)
      × NotBefore n g.proxies g'.selected
      × (g'.proxies ≡ g.proxies)
      × (g'.name ≡ g.name)
      × IsValid g'
  Selects n g (g', err e) =
      All (λ p. p.name ≢ n) g.proxies × (g' ≡ g) × (e ≡ config (codes "proxy not found: " ++ n))

  -- A successful selection makes the first member of that name the current and selected one, and
  -- leaves a valid group; a failed one means that no member has the name, says so, and changes
  -- nothing.
  pub select_lem : (n : Text) (g : Selector S D) → Selects n g (select n g)
  unfolding select selected_proxy current
  select_lem n g = elim (Option-cases (position n 0 g.proxies)) [
    | inl e ↦ rw (e, select) (position_missing n 0 g.proxies e, refl, refl)
    | inr (idx, e) ↦
        let (j, p, at, elem, name, lt, before) = position_found n 0 g.proxies e in
        let same : idx ≡ j = omega arith in
        rw (e, select)
          (rw same
            (p, rw (elem, selected_proxy), name, rw (elem, current) name, before, refl, refl, lt))
  ]

  -- Every method answers what the selected member answers, which is the current one.
  abbrev pub Delegates : Selector S D → Metadata → Type 0
  Delegates g m =
      (p : ProxyAdapter S D) × (selected_proxy g ≡ done p)
      × (get_elem? g.proxies g.selected ≡ some p)
      × (connect_stream g m ≡ done (p.connect_stream m))
      × (connect_datagram g m ≡ done (p.connect_datagram m))
      × (support_udp g ≡ done p.support_udp)
      × (alive g ≡ done p.alive)
      × (current g ≡ p.name)

  -- On a valid group no method panics: it answers what the selected member answers.
  pub delegates : (g : Selector S D) (m : Metadata) → IsValid g → Delegates g m
  unfolding connect_stream connect_datagram support_udp alive current selected_proxy
  delegates g m v =
      let (p, e) = get_elem?_of_lt g.proxies g.selected v in
      (
        p,
        rw (e, selected_proxy),
        e,
        ground (arith, e),
        ground (arith, e),
        ground (arith, e),
        ground (arith, e),
        rw (e, current),
      )

  answered :
      (n : Text) (g : Selector S D) (m : Metadata) (a : Selector S D × Result (Unit {0}))
      → IsValid g
      → Selects n g a
      → Delegates a.0 m
  answered n g m (g', ok u) v (p, e, name, now, before, same, title, valid) = delegates g' m valid
  answered n g m (g', err x) v (missing, same, e) = delegates g' m (subst IsValid (sym same) v)

  -- A successful selection on a valid group makes the first member of that name the current and
  -- selected one, and leaves a valid group; a failed one means that no member has the name, says so,
  -- and changes nothing. In both cases no method panics afterwards: each answers what the selected
  -- member answers.
  pub select-Delegates :
      (n : Text) (g : Selector S D) (m : Metadata)
      → IsValid g
      → Selects n g (select n g) × Delegates (select n g).0 m
  select-Delegates n g m v = (select_lem n g, answered n g m (select n g) v (select_lem n g))
