-- ===== src/Tunnel/Speeds/Covers.antt =====
-- What the reported speeds cover, in any order of the atomic operations.
use redog.Common.{ℕ, ◌+◌, ◌-◌, ◌≤◌, ◌<◌, List, arith}
use redog.Tunnel.Speeds.{Shared, Operation, run, start, uploaded, downloaded, sum_up, sum_down}
use redog.Tunnel.Statistics.{u64_mod}
use redog.Tunnel.Speeds.Counted.{run-Counted}

-- What the snapshots report, and what is not reported yet, is at least all that was moved.
abbrev pub Covers : List Operation → Shared → Type 0
Covers ops s =
    (uploaded ops ≤ sum_up s.tasks + (uploaded ops - s.counter.last_upload))
    × (downloaded ops ≤ sum_down s.tasks + (downloaded ops - s.counter.last_download))
    × (s.counter.last_upload ≤ uploaded ops)
    × (s.counter.last_download ≤ downloaded ops)

-- For every order of the atomic operations of any number of snapshots and of additions since the
-- start, snapshots that overlap included, that moves less than 2^64 bytes each way: no byte is
-- passed over. The speeds that the snapshots report, those included that are between their last
-- two operations, and the bytes not yet reported add up to at least all the bytes uploaded, and
-- so for the downloads; and the counters of the reported bytes never exceed the bytes moved.
pub run-Covers :
    (n : ℕ) (ops : List Operation)
    → uploaded ops < u64_mod
    → downloaded ops < u64_mod
    → Covers ops (run ops (start n))
run-Covers n ops a b =
    let w = run-Counted n ops a b in
    let v = w.covered in
    (
      omega (arith, v.up_cover),
      omega (arith, v.down_cover),
      omega (arith, v.up_bound, w.all_up),
      omega (arith, v.down_bound, w.all_down),
    )
