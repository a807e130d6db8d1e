-- ===== src/Adapter/Tests.antt =====
-- The theorems on groups at groups of two members.
use redog.Common.{
  ℕ, ◌<◌, true, false, Text, codes, List, [], ◌∷◌, map, Option, some, none, ◌≡◌, refl, arith,
  get_elem?,
}
use redog.Adapter.Selector.{Selector, Selects, select, Delegates, select-Delegates}
use redog.Adapter.UrlTest.{UrlTest, unreachable, test_delay, check_all}
use redog.Adapter.UrlTest
use redog.Adapter.UrlTest.HealthCheck.{
  Wake, tick, stopped, cancelled, health_check, Checked, health_check-IsNear,
}
use redog.Adapter.UrlTest.Measured.{measure, measure_all, Reachable}
use redog.Adapter.UrlTest.Choice.{Chosen, check_all_lem, check_all-unreachable}
use redog.Core.Adapter.{AdapterType, ProxyAdapter}
use redog.Core.Error.{ok, debug, release, done, panic}
use redog.Core.Metadata.{Metadata, new_metadata, tcp, http}

abbrev member : Text → ProxyAdapter ℕ ℕ
member name = record {
  name = name;
  adapter_type = AdapterType.direct;
  connect_stream = λ _. ok 7;
  connect_datagram = λ _. ok 8;
  support_udp = true;
  addr = none;
  alive = true;
}

abbrev members : List (ProxyAdapter ℕ ℕ)
members = member (codes "A") ∷ member (codes "B") ∷ []

abbrev selector : Selector ℕ ℕ
selector = record { name = codes "G"; proxies = members; selected = 0 }

abbrev connection : Metadata
connection = new_metadata tcp http

select-Delegates_example :
    Selects (codes "B") selector (select (codes "B") selector)
    × Delegates (select (codes "B") selector).0 connection
select-Delegates_example = select-Delegates (codes "B") selector connection (omega arith)

-- The first member is in use; both were unreachable.
abbrev group : UrlTest ℕ ℕ
group = record {
  name = codes "Auto";
  proxies = members;
  test_url = codes "http://a.test/";
  interval = 300;
  tolerance = 50;
  fastest = 0;
  delays = unreachable ∷ unreachable ∷ [];
  cancelled = false;
}

-- 120 and 40 milliseconds.
abbrev measured : List (Option ℕ)
measured = some 120 ∷ some 40 ∷ []

second : get_elem? (map test_delay measured) 1 ≡ some 40
unfolding test_delay
second = refl

check_all_lem_example :
    (k : ℕ) × (check_all debug measured group
      ≡ done (record group { delays = map test_delay measured; fastest = k }))
    × Chosen group (map test_delay measured) k
    × (k < 2)
check_all_lem_example =
    check_all_lem debug measured group 1 40 (refl, omega arith) refl second (omega arith)

check_all-unreachable_example :
    (check_all debug (none ∷ none ∷ []) group ≡ panic)
    × (check_all release (none ∷ none ∷ []) group
        ≡ done (record group { delays = unreachable ∷ unreachable ∷ []; fastest = 0 }))
check_all-unreachable_example =
    check_all-unreachable 1 group (refl, omega arith) refl (omega arith) (omega arith)

-- The first member connects in 120 milliseconds and the second in 40, and the group is then
-- stopped; what comes after that is no round.
abbrev wakes : List Wake
wakes = tick (120 ∷ 40 ∷ []) ∷ stopped ∷ cancelled ∷ tick [] ∷ []

in_time : Reachable members (120 ∷ 40 ∷ [])
unfolding measure_all measure
in_time = (refl, 1, 40, refl)

health_check-IsNear_example :
    Checked members 50 (unreachable ∷ unreachable ∷ []) ((120 ∷ 40 ∷ []) ∷ []) (
      health_check release wakes
        (UrlTest.new (codes "Auto") members (codes "http://a.test/") 300 50))
health_check-IsNear_example =
    health_check-IsNear release wakes (codes "Auto") (member (codes "A")) (member (codes "B") ∷ [])
      (codes "http://a.test/") 300 50 (in_time, tt) (omega arith)
