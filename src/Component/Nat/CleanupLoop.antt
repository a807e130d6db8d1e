-- ===== src/Component/Nat/CleanupLoop.antt =====
-- redog-component/src/nat.rs: `start_cleanup_loop`, from one of its wake-ups to the next, with the
-- calls that other tasks make on the table in between.
use redog.Common.{
  ℕ, Bool, true, false, not, ◌&&◌, Text, List, [], ◌∷◌, All, ◌≡◌, refl, arith, ◌∙◌, inl, inr,
  Bool-cases, Option-cases, ◌⊎◌,
}
use redog.Component.Nat.{
  UdpSession, NatTable, new_nat, is_fresh, retain_fresh, cleanup, stop_cleanup, get_session,
  insert_session, drop_session, find_session,
}
use redog.Component.Nat.Sessions.{Call, gets, inserts, removes, cleans, after_call}

-- Another task's call; the tick of the interval, with its time; another task stops the loop, or the
-- table is dropped; the loop finds that it is cancelled.
pub data Wake (D : Type 0) : Type 0 where
  calls : Call D → Wake D
  ticks : ℕ → Wake D
  stops finds_cancelled : Wake D

module _ {D : Type 0} where
  -- The table, and whether the loop still runs.
  unfoldable pub cleanup_loop : Wake D → NatTable D × Bool → NatTable D × Bool
  unfolding after_call cleanup stop_cleanup
  cleanup_loop (calls c) (t, running) = (after_call c t, running)
  cleanup_loop (ticks now) (t, true) = ((cleanup now t).0, true)
  cleanup_loop (ticks now) (t, false) = (t, false)
  cleanup_loop stops (t, running) = (stop_cleanup t, running)
  cleanup_loop finds_cancelled (t, running) = (t, running && not t.cancelled)

  unfoldable pub run : List (Wake D) → NatTable D × Bool → NatTable D × Bool
  unfolding cleanup_loop
  run [] s = s
  run (w ∷ ws) s = run ws (cleanup_loop w s)

  -- The loop has ended only if it was cancelled.
  abbrev Sound : NatTable D × Bool → Type 0
  Sound (t, running) = (running ≡ true) ⊎ (t.cancelled ≡ true)

  cancelled-get_session :
      (now : ℕ) (k : Text) (t : NatTable D) → (get_session now k t).0.cancelled ≡ t.cancelled
  unfolding get_session
  cancelled-get_session now k t = elim (Option-cases (find_session k t.table)) [
    | inl n ↦ rw (n, get_session) refl
    | inr (s, f) ↦ rw (f, get_session) refl
  ]

  cancelled-after_call : (c : Call D) (t : NatTable D) → (after_call c t).cancelled ≡ t.cancelled
  unfolding after_call insert_session drop_session cleanup
  cancelled-after_call (gets now k) t = cancelled-get_session now k t
  cancelled-after_call (inserts now k d) t = refl
  cancelled-after_call (removes k) t = refl
  cancelled-after_call (cleans now) t = refl

  cleanup_loop-Sound : (w : Wake D) (s : NatTable D × Bool) → Sound s → Sound (cleanup_loop w s)
  unfolding cleanup_loop cleanup stop_cleanup
  cleanup_loop-Sound (calls c) (t, r) (inl e) = inl e
  cleanup_loop-Sound (calls c) (t, r) (inr e) = inr (cancelled-after_call c t ∙ e)
  cleanup_loop-Sound (ticks now) (t, true) h = inl refl
  cleanup_loop-Sound (ticks now) (t, false) h = h
  cleanup_loop-Sound stops (t, r) h = inr refl
  cleanup_loop-Sound finds_cancelled (t, r) (inr e) = inr e
  cleanup_loop-Sound finds_cancelled (t, r) (inl e) = elim (Bool-cases t.cancelled) [
    | inl c ↦ inr c
    | inr c ↦ inl (ground (arith, e, c))
  ]

  run-Sound : (ws : List (Wake D)) (s : NatTable D × Bool) → Sound s → Sound (run ws s)
  unfolding run
  run-Sound [] s h = h
  run-Sound (w ∷ ws) s h = run-Sound ws (cleanup_loop w s) (cleanup_loop-Sound w s h)

  All-retain_fresh :
      (now timeout : ℕ) (es : List (Text × UdpSession D))
      → All (λ e. is_fresh now timeout e.1 ≡ true) (retain_fresh now timeout es)
  unfolding retain_fresh
  All-retain_fresh now timeout [] = tt
  All-retain_fresh now timeout ((k, s) ∷ es) = elim (Bool-cases (is_fresh now timeout s)) [
    | inl e ↦ rw e (e, All-retain_fresh now timeout es)
    | inr e ↦ rw e (All-retain_fresh now timeout es)
  ]

  tick-is_fresh :
      (now : ℕ) (t : NatTable D) (running : Bool)
      → t.cancelled ≡ false
      → Sound (t, running)
      → All (λ e. is_fresh now t.timeout e.1 ≡ true) (cleanup_loop (ticks now) (t, running)).0.table
  unfolding cleanup_loop cleanup
  tick-is_fresh now t true e h = All-retain_fresh now t.timeout t.table
  tick-is_fresh now t false e (inl r) = absurd (ground (arith, r))
  tick-is_fresh now t false e (inr c) = absurd (ground (arith, e, c))

  -- After any wake-ups from a new table on, and as long as the loop was not stopped: a tick leaves only
  -- sessions whose last use is less than the timeout ago.
  pub run-is_fresh :
      (ws : List (Wake D)) (timeout now : ℕ)
      → let (t, running) = run ws (new_nat timeout, true) in
        t.cancelled ≡ false
        → All
            (λ e. is_fresh now t.timeout e.1 ≡ true)
            (cleanup_loop (ticks now) (t, running)).0.table
  run-is_fresh ws timeout now open_table =
      let s = run ws (new_nat timeout, true) in
      tick-is_fresh now s.0 s.1 open_table (run-Sound ws (new_nat timeout, true) (inl refl))
