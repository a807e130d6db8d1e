-- ===== src/Adapter/UrlTest.antt =====
-- redog-adapter/src/proxy_group/url_test.rs: a group that uses the member with the lowest delay.
-- The delays that a round of tests measures are an argument of `check_all`: `none` for a member
-- whose connection fails or takes more than five seconds, and the elapsed milliseconds otherwise.
pub mod Choice
pub mod Measured
pub mod HealthCheck
use redog.Common.{
  ℕ, zero, suc, ◌+◌, ◌%◌, ◌≤◌, ◌<◌, Bool, true, false, Text, codes, List, [], ◌∷◌, ◌++◌, map,
  Option, none, some, ◌≡◌, ◌≢◌, refl, ap, sym, ◌∙◌, arith, ◌⊎◌, inl, inr, if◌then◌else◌, ltb,
  get_elem?, length, All, Bool-cases, Option-cases, replicate,
}
use redog.Core.Adapter.{ProxyAdapter}
use redog.Core.Error.{Build, debug, release, Result, Outcome, done, panic, bind_outcome}
use redog.Core.Metadata.{Metadata}
use redog.Core.Words.{add_u16}

-- `u16::MAX`
abbrev pub unreachable : ℕ
unreachable = 65535

pub record UrlTest (S D : Type 0) : Type 0 where
  pub name : Text
  pub proxies : List (ProxyAdapter S D)
  pub test_url : Text
  pub interval : ℕ
  pub tolerance : ℕ
  pub fastest : ℕ
  pub delays : List ℕ
  pub cancelled : Bool

-- `test_delay`: the elapsed time as a `u16`.
unfoldable pub test_delay : Option ℕ → ℕ
test_delay none = unreachable
test_delay (some elapsed) = elapsed % 65536

-- The results with their indices, from index `i` on.
unfoldable pub indexed : ℕ → List ℕ → List (ℕ × ℕ)
indexed i [] = []
indexed i (d ∷ ds) = (i, d) ∷ indexed (suc i) ds

-- `iter().min_by_key(|(_, d)| *d)`: the first of the smallest.
unfoldable pub min_by_delay : List (ℕ × ℕ) → Option (ℕ × ℕ)
min_by_delay [] = none
min_by_delay ((i, d) ∷ rest) = elim (min_by_delay rest) [
  | none ↦ some (i, d)
  | some (j, e) ↦ if ltb e d then some (j, e) else some (i, d)
]

-- `delays[*idx] = *delay`, a panic where the index is out of range.
unfoldable pub store_delay : List ℕ → ℕ → ℕ → Outcome (List ℕ)
store_delay [] i d = panic
store_delay (x ∷ xs) zero d = done (d ∷ xs)
store_delay (x ∷ xs) (suc i) d = bind_outcome (store_delay xs i d) (λ ys. done (x ∷ ys))

unfoldable pub store_delays : List ℕ → List (ℕ × ℕ) → Outcome (List ℕ)
unfolding store_delay
store_delays delays [] = done delays
store_delays delays ((i, d) ∷ rest) =
    bind_outcome (store_delay delays i d) (λ ds. store_delays ds rest)

-- `delays.get(*fastest).copied().unwrap_or(u16::MAX)`
unfoldable pub current_delay : List ℕ → ℕ → ℕ
current_delay delays fastest = elim (get_elem? delays fastest) [ some d ↦ d | none ↦ unreachable ]

-- The choice of the member: it changes only if the best delay and the tolerance stay below the
-- delay of the member in use.
unfoldable pub choose : Build → ℕ → ℕ → ℕ → Option (ℕ × ℕ) → Outcome ℕ
unfolding add_u16
choose b tolerance fastest current none = done fastest
choose b tolerance fastest current (some (new_fastest, new_delay)) =
    bind_outcome (add_u16 b new_delay tolerance)
      λ threshold. done (if ltb threshold current then new_fastest else fastest)

module _ {S D : Type 0} where
  -- `URLTest::new`
  unfoldable pub new : Text → List (ProxyAdapter S D) → Text → ℕ → ℕ → UrlTest S D
  new name proxies test_url interval_secs tolerance = record {
    name = name;
    proxies = proxies;
    test_url = test_url;
    interval = interval_secs;
    tolerance = tolerance;
    fastest = 0;
    delays = replicate (length proxies) unreachable;
    cancelled = false;
  }

  -- `check_all`, given what each member's test measured, in the order of the members.
  unfoldable pub check_all : Build → List (Option ℕ) → UrlTest S D → Outcome (UrlTest S D)
  unfolding test_delay indexed min_by_delay store_delays current_delay choose
  check_all b measured g =
      let results = indexed 0 (map test_delay measured) in
      bind_outcome (store_delays g.delays results) λ delays.
        bind_outcome
          (choose b g.tolerance g.fastest (current_delay delays g.fastest) (min_by_delay results))
          λ fastest. done (record g { delays = delays; fastest = fastest })

  unfoldable pub current : UrlTest S D → Text
  current g = elim (get_elem? g.proxies g.fastest) [ some p ↦ p.name | none ↦ codes "DIRECT" ]

  abbrev first : List (ProxyAdapter S D) → Outcome (ProxyAdapter S D)
  first [] = panic
  first (p ∷ _) = done p

  unfoldable pub fastest_proxy : UrlTest S D → Outcome (ProxyAdapter S D)
  fastest_proxy g = elim (get_elem? g.proxies g.fastest) [
    | some p ↦ done p
    | none ↦ first g.proxies
  ]

  -- `stop_health_check`, and `Drop`
  unfoldable pub stop_health_check : UrlTest S D → UrlTest S D
  stop_health_check g = record g { cancelled = true }

  unfoldable pub all : UrlTest S D → List Text
  all g = map (λ p. p.name) g.proxies

  -- `impl ProxyAdapter for URLTest`: every method but the name asks the fastest member.
  abbrev ask_fastest : {A : Type 0} → (ProxyAdapter S D → A) → UrlTest S D → Outcome A
  unfolding fastest_proxy
  ask_fastest f g = bind_outcome (fastest_proxy g) (λ p. done (f p))

  unfoldable pub connect_stream : UrlTest S D → Metadata → Outcome (Result S)
  unfolding ask_fastest
  connect_stream g m = ask_fastest (λ p. p.connect_stream m) g

  unfoldable pub connect_datagram : UrlTest S D → Metadata → Outcome (Result D)
  unfolding ask_fastest
  connect_datagram g m = ask_fastest (λ p. p.connect_datagram m) g

  unfoldable pub support_udp : UrlTest S D → Outcome Bool
  unfolding ask_fastest
  support_udp g = ask_fastest (λ p. p.support_udp) g

  unfoldable pub alive : UrlTest S D → Outcome Bool
  unfolding ask_fastest
  alive g = ask_fastest (λ p. p.alive) g
