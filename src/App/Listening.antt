-- ===== src/App/Listening.antt =====
-- The restarts of the program's listeners, whose calls end by a failure only.
use redog.Common.{ℕ, ◌+◌, Text, some, ◌≡◌, ap, ◌∙◌, arith, inl, inr}
use redog.App.Restart.{
  run_listener_with_restart, run_listener_with_restart-RunsTo, gave_up, doubling,
}
use redog.Core.Address.{IpAddr}
use redog.Core.Error.{Error, Result, err}
use redog.Listener.Http.{handle_http_connection}
use redog.Listener.Mixed.{handle_mixed_connection}
use redog.Listener.Accept.{
  Accepts, start_mixed_listener, start_http_listener, start_listener, listener_fails,
}

-- A listener whose calls all fail is called eleven times.
gives_up :
    (make : ℕ → Result (Unit {0}))
    → ((n : ℕ) → (e : Error) × (make n ≡ err e))
    → run_listener_with_restart 11 make 0 ≡ some (doubling 0 10, gave_up)
gives_up make fails =
    let r = run_listener_with_restart-RunsTo make in
    elim r.ends [
      | inl (exits, fine) ↦
          let (e, bad) = fails (0 + r.failures) in absurd (ground (arith, fine, bad))
      | inr (gave, count, last) ↦
          let ten : r.failures ≡ 10 = omega (arith, count) in
          r.returns
          ∙ ap (λ (n : ℕ). some (doubling 0 n, r.ending)) ten
          ∙ ap (λ e. some (doubling 0 10, e)) gave
    ]

-- Whatever the binds and the accepts of its calls give, the mixed listener never exits normally, and
-- an accept that fails after any number of connections counts like a bind that fails: the eleventh
-- failure since the program's start ends it.
pub start_mixed_listener-gave_up :
    (show_ip : IpAddr → Text) (calls : ℕ → Accepts)
    → run_listener_with_restart 11 (λ n. (start_mixed_listener show_ip (calls n)).1) 0
      ≡ some (doubling 0 10, gave_up)
unfolding start_mixed_listener
start_mixed_listener-gave_up show_ip calls =
    gives_up (λ n. (start_listener (handle_mixed_connection show_ip) (calls n)).1)
      (λ n. listener_fails (handle_mixed_connection show_ip) (calls n))

pub start_http_listener-gave_up :
    (calls : ℕ → Accepts)
    → run_listener_with_restart 11 (λ n. (start_http_listener (calls n)).1) 0
      ≡ some (doubling 0 10, gave_up)
unfolding start_http_listener
start_http_listener-gave_up calls =
    gives_up (λ n. (start_listener handle_http_connection (calls n)).1)
      (λ n. listener_fails handle_http_connection (calls n))
