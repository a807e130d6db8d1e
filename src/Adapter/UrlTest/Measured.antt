-- ===== src/Adapter/UrlTest/Measured.antt =====
-- redog-adapter/src/proxy_group/url_test.rs: the tests of the members in a round, and the delays
-- that they give.
use redog.Common.{
  ℕ, zero, suc, ◌≤◌, ◌<◌, ◌⊎◌, List, [], ◌∷◌, map, Option, none, some, ◌≡◌, refl, ap, ◌∙◌, arith,
  inl, inr, if◌then◌else◌, ltb, Bool-cases, get_elem?, length,
}
use redog.Adapter.Outbound.{Sockets, direct, direct_connect_stream, resolve_addr}
use redog.Adapter.UrlTest.{test_delay}
use redog.Core.Adapter.{ProxyAdapter}
use redog.Core.Error.{Error, Result-cases, ok, err}
use redog.Core.Metadata.{new_metadata, tcp, inner, remote_addr}

pub found_delay :
    (ms : List (Option ℕ)) (i d : ℕ)
    → get_elem? ms i ≡ some (some d)
    → d ≤ 5000
    → get_elem? (map test_delay ms) i ≡ some d
unfolding test_delay
found_delay [] i d e h = absurd (ground (arith, e))
found_delay (m ∷ ms) zero d e h =
    let same : m ≡ some d = ground (arith, e) in
    ap (λ o. some (test_delay o)) same ∙ ap some (omega arith)
found_delay (m ∷ ms) (suc i) d e h = found_delay ms i d e h

module _ {S D : Type 0} where
  -- The connection that `test_delay` measures, with its timeout of five seconds.
  unfoldable pub measure : ProxyAdapter S D → ℕ → Option ℕ
  measure proxy elapsed =
      if ltb 5000 elapsed then none else elim (proxy.connect_stream (new_metadata tcp inner)) [
        | ok _ ↦ some elapsed
        | err _ ↦ none
      ]

  -- The members' tests, in their order.
  unfoldable pub measure_all : List (ProxyAdapter S D) → List ℕ → List (Option ℕ)
  unfolding measure
  measure_all [] times = []
  measure_all (p ∷ ps) [] = []
  measure_all (p ∷ ps) (t ∷ times) = measure p t ∷ measure_all ps times

  -- A round has a time for each member, and some member connects within five seconds.
  abbrev pub Reachable : List (ProxyAdapter S D) → List ℕ → Type 0
  Reachable ps times =
      (length times ≡ length ps)
      × (i : ℕ) × (d : ℕ) × (get_elem? (measure_all ps times) i ≡ some (some d))

  -- The delay of a member: the milliseconds of a connection that is made within five seconds, and
  -- 65535 where it takes longer or fails.
  abbrev pub IsDelay : ProxyAdapter S D → ℕ → ℕ → Type 0
  IsDelay p t d =
      ((t ≤ 5000) × (s : S) × (p.connect_stream (new_metadata tcp inner) ≡ ok s) × (d ≡ t))
      ⊎ (((5000 < t) ⊎ ((e : Error) × (p.connect_stream (new_metadata tcp inner) ≡ err e)))
          × (d ≡ 65535))

  -- Each delay is that of its member in a round of these times.
  abbrev pub Measures : List (ProxyAdapter S D) → List ℕ → List ℕ → Type 0
  Measures [] [] [] = Unit
  Measures (p ∷ ps) (t ∷ times) (d ∷ ds) = IsDelay p t d × Measures ps times ds
  Measures _ _ _ = ⊥

  -- The delays are those of the last round, or the first ones where there was no round.
  abbrev pub LastRound : List (ProxyAdapter S D) → List ℕ → List (List ℕ) → List ℕ → Type 0
  LastRound ps at_first [] ds = ds ≡ at_first
  LastRound ps at_first (times ∷ []) ds = Measures ps times ds
  LastRound ps at_first (_ ∷ times ∷ rounds) ds = LastRound ps at_first (times ∷ rounds) ds

  LastRound-first :
      (ps : List (ProxyAdapter S D)) (ds es times : List ℕ) (rounds : List (List ℕ)) (last : List ℕ)
      → LastRound ps es (times ∷ rounds) last
      → LastRound ps ds (times ∷ rounds) last
  LastRound-first ps ds es times [] last l = l
  LastRound-first ps ds es times (u ∷ rounds) last l = LastRound-first ps ds es u rounds last l

  -- A round, and then the others.
  pub LastRound-cons :
      (ps : List (ProxyAdapter S D)) (ds es times : List ℕ) (rounds : List (List ℕ)) (last : List ℕ)
      → Measures ps times es
      → LastRound ps es rounds last
      → LastRound ps ds (times ∷ rounds) last
  LastRound-cons ps ds es times [] last m l = rw l m
  LastRound-cons ps ds es times (u ∷ rounds) last m l = LastRound-first ps ds es u rounds last l

  measure-IsDelay : (p : ProxyAdapter S D) (t : ℕ) → IsDelay p t (test_delay (measure p t))
  unfolding measure test_delay
  measure-IsDelay p t = elim (Bool-cases (ltb 5000 t)) [
    | inl late ↦ inr (inl (ground (arith, late)), rw late refl)
    | inr timely ↦ elim (Result-cases (p.connect_stream (new_metadata tcp inner))) [
      | inl (s, c) ↦
          let fits : t ≤ 5000 = ground (arith, timely) in
          inl (fits, s, c, rw (timely, c) (omega arith))
      | inr (x, c) ↦ inr (inr (x, c), rw (timely, c) refl)
    ]
  ]

  pub measure_all-Measures :
      (ps : List (ProxyAdapter S D)) (times : List ℕ)
      → length times ≡ length ps
      → Measures ps times (map test_delay (measure_all ps times))
  unfolding measure_all
  measure_all-Measures [] [] h = tt
  measure_all-Measures [] (t ∷ times) h = absurd (omega arith)
  measure_all-Measures (p ∷ ps) [] h = absurd (omega arith)
  measure_all-Measures (p ∷ ps) (t ∷ times) h =
      (measure-IsDelay p t, measure_all-Measures ps times (omega arith))

  pub length-measure_all :
      (ps : List (ProxyAdapter S D)) (times : List ℕ)
      → length times ≡ length ps
      → length (measure_all ps times) ≡ length ps
  unfolding measure_all
  length-measure_all [] times h = refl
  length-measure_all (p ∷ ps) [] h = absurd (omega arith)
  length-measure_all (p ∷ ps) (t ∷ times) h = ap suc (length-measure_all ps times (omega arith))

  -- What is measured is at most five seconds.
  measure-le : (p : ProxyAdapter S D) (t d : ℕ) → measure p t ≡ some d → d ≤ 5000
  unfolding measure
  measure-le p t d e = elim (Bool-cases (ltb 5000 t)) [
    | inl late ↦ absurd (ground (arith, e))
    | inr timely ↦ elim (Result-cases (p.connect_stream (new_metadata tcp inner))) [
      | inl (s, c) ↦ let same : some t ≡ some d = rw (timely, c) at e in ground (arith, same)
      | inr (x, c) ↦ let same : none ≡ some d = rw (timely, c) at e in absurd (ground (arith, same))
    ]
  ]

  pub measure_all-le :
      (ps : List (ProxyAdapter S D)) (times : List ℕ) (i d : ℕ)
      → get_elem? (measure_all ps times) i ≡ some (some d)
      → d ≤ 5000
  unfolding measure_all
  measure_all-le [] times i d e = absurd (ground (arith, e))
  measure_all-le (p ∷ ps) [] i d e = absurd (ground (arith, e))
  measure_all-le (p ∷ ps) (t ∷ times) zero d e = measure-le p t d (ground (arith, e))
  measure_all-le (p ∷ ps) (t ∷ times) (suc i) d e = measure_all-le ps times i d e

-- The metadata of the test have neither a host nor an address, so a direct member never connects.
direct-measure :
    {Stream Datagram : Type 0} (net : Sockets Stream Datagram) (t : ℕ)
    → measure (direct net) t ≡ none
unfolding measure direct direct_connect_stream resolve_addr remote_addr new_metadata
direct-measure net t = elim (Bool-cases (ltb 5000 t)) [
  | inl late ↦ rw late refl
  | inr timely ↦ rw timely refl
]
