-- ===== src/Adapter/UrlTest/HealthCheck.antt =====
-- redog-adapter/src/proxy_group/url_test.rs: the loop of
-- `start_health_check` from one of its wake-ups to the next. How long each connection takes is an
-- argument. A panic in a round ends the loop, with the group's locks poisoned.
use redog.Common.{
  ℕ, zero, suc, ◌+◌, ◌≤◌, Bool, true, false, Text, List, [], ◌∷◌, map, ◌≡◌, refl, ◌∙◌, arith, inl,
  inr, if◌then◌else◌, length, All, replicate,
}
use redog.Adapter.UrlTest.{
  UrlTest, new, unreachable, test_delay, check_all, stop_health_check, current_delay,
}
use redog.Adapter.UrlTest.Choice.{
  IsValid, Chosen, All-threshold, check_all_lem, length-map_delay, length-replicate,
  current_unreachable,
}
use redog.Core.Adapter.{ProxyAdapter}
use redog.Core.Error.{Build, Outcome, done, bind_outcome}
use redog.Adapter.UrlTest.Measured.{
  measure_all, Reachable, LastRound, LastRound-cons, measure_all-Measures, length-measure_all,
  measure_all-le, found_delay,
}

-- The interval's tick, with the milliseconds that each member's connection takes; another task
-- stops the group or drops it; the loop finds the cancellation.
pub data Wake : Type 0 where
  tick : List ℕ → Wake
  stopped : Wake
  cancelled : Wake

-- The times of the rounds that are run until the loop ends, at the first cancellation it finds when
-- the group has been stopped.
abbrev pub rounds_run : Bool → List Wake → List (List ℕ)
rounds_run c [] = []
rounds_run c (tick times ∷ ws) = times ∷ rounds_run c ws
rounds_run c (stopped ∷ ws) = rounds_run true ws
rounds_run true (cancelled ∷ ws) = []
rounds_run false (cancelled ∷ ws) = rounds_run false ws

All-replicate : (c t u n : ℕ) → c ≤ u + t → All (λ d. c ≤ d + t) (replicate n u)
All-replicate c t u zero h = tt
All-replicate c t u (suc n) h = (h, All-replicate c t u n h)

module _ {S D : Type 0} where
  unfoldable pub health_check : Build → List Wake → UrlTest S D → Outcome (UrlTest S D)
  unfolding check_all measure_all stop_health_check
  health_check b [] g = done g
  health_check b (tick times ∷ ws) g =
      bind_outcome (check_all b (measure_all g.proxies times) g) (health_check b ws)
  health_check b (stopped ∷ ws) g = health_check b ws (stop_health_check g)
  health_check b (cancelled ∷ ws) g =
      let rest = health_check b ws g in if g.cancelled then done g else rest

  -- The member in use is one of the group's, and no other is faster by more than the tolerance.
  pub record IsNear (g : UrlTest S D) : Type 0 where
    pub valid : IsValid g
    pub near : All (λ d. current_delay g.delays g.fastest ≤ d + g.tolerance) g.delays

  -- A round that moves to the best member, or stays, leaves no member that is faster by more.
  Chosen-near :
      (g : UrlTest S D) (ds : List ℕ) (k : ℕ)
      → Chosen g ds k
      → All (λ d. current_delay ds k ≤ d + g.tolerance) ds
  unfolding current_delay
  Chosen-near g ds k (inl (same, all)) = rw same all
  Chosen-near g ds k (inr (d, best, better)) =
      let used : current_delay ds k ≡ d = rw (best.stands, current_delay) refl in
      All-threshold (current_delay ds k) g.tolerance d ds (omega (arith, used)) best.least

  tick-IsNear :
      (b : Build) (times : List ℕ) (g : UrlTest S D)
      → Reachable g.proxies times
      → g.tolerance ≤ 60535
      → IsNear g
      → (k : ℕ) × (check_all b (measure_all g.proxies times) g
          ≡ done (record g { delays = map test_delay (measure_all g.proxies times); fastest = k }))
        × IsNear (record g { delays = map test_delay (measure_all g.proxies times); fastest = k })
  tick-IsNear b times g (size, i, d, at) fits v =
      let ms = measure_all g.proxies times in
      let low : d ≤ 5000 = measure_all-le g.proxies times i d at in
      let count = length-measure_all g.proxies times size in
      let (k, e, chosen, bound) =
        check_all_lem b ms g i d v.valid count (found_delay ms i d at low) (omega arith) in
      (
        k,
        e,
        record {
          valid = (length-map_delay ms ∙ count, bound);
          near = Chosen-near g (map test_delay ms) k chosen;
        },
      )

  -- The group that the loop leaves.
  abbrev pub Checked :
      List (ProxyAdapter S D) → ℕ → List ℕ → List (List ℕ) → Outcome (UrlTest S D) → Type 0
  Checked ps tolerance at_first rounds run =
      (h : UrlTest S D) × (run ≡ done h)
      × (h.proxies ≡ ps)
      × (h.tolerance ≡ tolerance)
      × LastRound ps at_first rounds h.delays
      × IsNear h

  health_check-Checked :
      (b : Build) (c : Bool) (ws : List Wake) (g : UrlTest S D)
      → g.cancelled ≡ c
      → All (Reachable g.proxies) (rounds_run c ws)
      → g.tolerance ≤ 60535
      → IsNear g
      → Checked g.proxies g.tolerance g.delays (rounds_run c ws) (health_check b ws g)
  unfolding health_check stop_health_check
  health_check-Checked b c [] g off r fits v = (g, refl, refl, refl, refl, v)
  health_check-Checked b c (tick times ∷ ws) g off (r, rs) fits v =
      let (k, e, w) = tick-IsNear b times g r fits v in
      let ds = map test_delay (measure_all g.proxies times) in
      let (h, f, members, t, l, u) =
        health_check-Checked b c ws (record g { delays = ds; fastest = k }) off rs fits w in
      let all = measure_all-Measures g.proxies times r.0 in
      (
        h,
        rw e f,
        members,
        t,
        LastRound-cons g.proxies g.delays ds times (rounds_run c ws) h.delays all l,
        u,
      )
  health_check-Checked b c (stopped ∷ ws) g off r fits v =
      health_check-Checked b true ws (stop_health_check g) refl r fits
        (record { valid = v.valid; near = v.near })
  health_check-Checked b true (cancelled ∷ ws) g off r fits v =
      (g, simp off refl, refl, refl, refl, v)
  health_check-Checked b false (cancelled ∷ ws) g off r fits v =
      let (h, e, members, t, l, u) = health_check-Checked b false ws g off r fits v in
      (h, simp off e, members, t, l, u)

  -- On a new group with a member and a tolerance of at most 60535, in either build, for every order of
  -- ticks, stops and cancellations where in each round that is run some member connects within five
  -- seconds: the health check does not panic, and keeps the members and the tolerance. The rounds
  -- are run up to the first cancellation after a stop. The delays are in the end those of the last
  -- round, a member's own time or 65535 for one that fails or takes more than five seconds, or all
  -- 65535 where there was no round; and one of the members is in use such that no other had a
  -- delay that is lower by more than the tolerance.
  pub health_check-IsNear :
      (b : Build) (ws : List Wake) (name : Text) (p : ProxyAdapter S D)
      (ps : List (ProxyAdapter S D)) (test_url : Text) (interval tolerance : ℕ)
      → All (Reachable (p ∷ ps)) (rounds_run false ws)
      → tolerance ≤ 60535
      → Checked
          (p ∷ ps)
          tolerance
          (replicate (length (p ∷ ps)) 65535)
          (rounds_run false ws)
          (health_check b ws (new name (p ∷ ps) test_url interval tolerance))
  unfolding new
  health_check-IsNear b ws name p ps test_url interval tolerance r fits =
      health_check-Checked b false ws (new name (p ∷ ps) test_url interval tolerance) refl r fits
        (record {
          valid = (length-replicate unreachable (suc (length ps)), omega arith);
          near =
              All-replicate (current_delay (replicate (suc (length ps)) unreachable) 0) tolerance
                unreachable (suc (length ps))
                (omega (arith, current_unreachable (suc (length ps)) 0));
        })
