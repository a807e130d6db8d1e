-- ===== src/Tunnel/Speeds.antt =====
-- Snapshots of the traffic that several tasks take while others count bytes: the atomic operations
-- of redog-tunnel/src/statistics.rs in any order.
pub mod Counted
pub mod Covers
pub mod Serial
use redog.Common.{ℕ, zero, suc, ◌+◌, ◌-◌, List, [], ◌∷◌, replicate, ◌≡◌, refl}
use redog.Tunnel.Statistics.{
  TrafficCounter, TrafficSnapshot, new_counter, add_upload, add_download, snapshot, Progress,
  started, upload_swapped, reported, snapshot_step,
}

-- The counters, and the tasks that take a snapshot each.
pub record Shared : Type 0 where
  pub counter : TrafficCounter
  pub tasks : List Progress

-- An atomic operation: bytes are counted, or a task takes the next step of its snapshot.
pub data Operation : Type 0 where
  upload : ℕ → Operation
  download : ℕ → Operation
  advance : ℕ → Operation

-- The counters and the tasks, after the next step of one of them.
unfoldable pub advance_at : ℕ → TrafficCounter → List Progress → TrafficCounter × List Progress
unfolding snapshot_step
advance_at i c [] = (c, [])
advance_at zero c (t ∷ ts) = let (c', t') = snapshot_step c t in (c', t' ∷ ts)
advance_at (suc i) c (t ∷ ts) = let (c', ts') = advance_at i c ts in (c', t ∷ ts')

unfoldable pub apply : Operation → Shared → Shared
unfolding add_upload add_download advance_at
apply (upload n) s = record s { counter = add_upload n s.counter }
apply (download n) s = record s { counter = add_download n s.counter }
apply (advance i) s =
    let (c, ts) = advance_at i s.counter s.tasks in record { counter = c; tasks = ts }

unfoldable pub run : List Operation → Shared → Shared
unfolding apply
run [] s = s
run (op ∷ ops) s = run ops (apply op s)

-- New counters, and `n` snapshots of which none has taken a step.
abbrev pub start : ℕ → Shared
start n = record { counter = new_counter; tasks = replicate n started }

abbrev pub uploaded : List Operation → ℕ
uploaded [] = 0
uploaded (upload n ∷ ops) = n + uploaded ops
uploaded (_ ∷ ops) = uploaded ops

abbrev pub downloaded : List Operation → ℕ
downloaded [] = 0
downloaded (download n ∷ ops) = n + downloaded ops
downloaded (_ ∷ ops) = downloaded ops

-- The speeds that a snapshot reports, or is bound to report after its swap.
abbrev pub upload_speed : Progress → ℕ
upload_speed (upload_swapped up _ last_up) = up - last_up
upload_speed (reported s) = s.upload_speed
upload_speed _ = 0

abbrev pub download_speed : Progress → ℕ
download_speed (reported s) = s.download_speed
download_speed _ = 0

abbrev pub sum_up : List Progress → ℕ
sum_up [] = 0
sum_up (t ∷ ts) = upload_speed t + sum_up ts

abbrev pub sum_down : List Progress → ℕ
sum_down [] = 0
sum_down (t ∷ ts) = download_speed t + sum_down ts

-- A task that is alone takes its snapshot in four steps.
snapshot_steps :
    (c : TrafficCounter)
    → run
        (advance 0 ∷ advance 0 ∷ advance 0 ∷ advance 0 ∷ [])
        (record { counter = c; tasks = started ∷ [] })
      ≡ record { counter = (snapshot c).0; tasks = reported (snapshot c).1 ∷ [] }
unfolding run snapshot
snapshot_steps c = refl
