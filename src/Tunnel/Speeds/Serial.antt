-- ===== src/Tunnel/Speeds/Serial.antt =====
-- The speeds of snapshots that do not overlap account for all the traffic.
use redog.Common.{ℕ, zero, suc, ◌+◌, ◌-◌, ◌≤◌, ◌<◌, List, [], ◌∷◌, All, replicate, ◌≡◌, refl, arith}
use redog.Tunnel.Speeds.{
  Shared, Operation, upload, download, advance, advance_at, apply, run, start, uploaded, downloaded,
  sum_up, sum_down, upload_speed, download_speed,
}
use redog.Tunnel.Speeds.Counted.{Covered, apply-Covered, start-Covered, run-Counted}
use redog.Tunnel.Statistics.{
  TrafficCounter, add_upload, add_download, Progress, started, upload_loaded, both_loaded,
  upload_swapped, reported, snapshot_step, u64_mod,
}

-- The task has not begun its snapshot, or has finished it.
abbrev pub IsIdle : Progress → Type 0
IsIdle started = Unit
IsIdle (reported _) = Unit
IsIdle _ = ⊥

-- No other task is at its snapshot.
abbrev pub IsAlone : ℕ → List Progress → Type 0
IsAlone i [] = Unit
IsAlone zero (t ∷ ts) = All IsIdle ts
IsAlone (suc i) (t ∷ ts) = IsIdle t × IsAlone i ts

-- A task takes a step only when no other is at its snapshot; additions are free.
abbrev pub DoesNotOverlap : List Operation → Shared → Type 0
DoesNotOverlap [] s = Unit
DoesNotOverlap (advance i ∷ ops) s = IsAlone i s.tasks × DoesNotOverlap ops (apply (advance i) s)
DoesNotOverlap (upload n ∷ ops) s = DoesNotOverlap ops (apply (upload n) s)
DoesNotOverlap (download n ∷ ops) s = DoesNotOverlap ops (apply (download n) s)

-- What a task has loaded is at least what was reported before.
abbrev pub Fresh : ℕ → ℕ → Progress → Type 0
Fresh u d (upload_loaded up) = u ≤ up
Fresh u d (both_loaded up down) = (u ≤ up) × (d ≤ down)
Fresh u d (upload_swapped up down last_up) = d ≤ down
Fresh u d _ = Unit

Fresh-idle : (u d : ℕ) (t : Progress) → IsIdle t → Fresh u d t
Fresh-idle u d started i = tt
Fresh-idle u d (upload_loaded _) i = absurd i
Fresh-idle u d (both_loaded _ _) i = absurd i
Fresh-idle u d (upload_swapped _ _ _) i = absurd i
Fresh-idle u d (reported s) i = tt

All-Fresh-idle : (u d : ℕ) (ts : List Progress) → All IsIdle ts → All (Fresh u d) ts
All-Fresh-idle u d [] is = tt
All-Fresh-idle u d (t ∷ ts) (i, is) = (Fresh-idle u d t i, All-Fresh-idle u d ts is)

-- What is reported is exactly what the counters say, where other tasks report `j` and `k`.
pub record Exact (j k : ℕ) (c : TrafficCounter) (ts : List Progress) : Type 0 where
  pub up_exact : j + sum_up ts ≡ c.last_upload
  pub down_exact : k + sum_down ts ≡ c.last_download
  pub fresh : All (Fresh c.last_upload c.last_download) ts

step-Exact :
    (c : TrafficCounter) (j k : ℕ) (t : Progress) (ts : List Progress)
    → c.last_upload ≤ c.upload_total
    → c.last_download ≤ c.download_total
    → All IsIdle ts
    → Exact j k c (t ∷ ts)
    → Exact j k (snapshot_step c t).0 ((snapshot_step c t).1 ∷ ts)
unfolding snapshot_step
step-Exact c j k started ts a b is x = record {
  up_exact = x.up_exact;
  down_exact = x.down_exact;
  fresh = (a, All-Fresh-idle _ _ ts is);
}
step-Exact c j k (upload_loaded u) ts a b is x = record {
  up_exact = x.up_exact;
  down_exact = x.down_exact;
  fresh = ((x.fresh.0, b), All-Fresh-idle _ _ ts is);
}
step-Exact c j k (both_loaded u d) ts a b is x =
    let (f, g) = x.fresh.0 in
    record {
      up_exact = omega (arith, f, x.up_exact);
      down_exact = x.down_exact;
      fresh = (g, All-Fresh-idle _ _ ts is);
    }
step-Exact c j k (upload_swapped u d last) ts a b is x = record {
  up_exact = x.up_exact;
  down_exact = omega (arith, x.fresh.0, x.down_exact);
  fresh = (tt, All-Fresh-idle _ _ ts is);
}
step-Exact c j k (reported s) ts a b is x = record {
  up_exact = x.up_exact;
  down_exact = x.down_exact;
  fresh = (tt, All-Fresh-idle _ _ ts is);
}

advance_at-Exact :
    (i : ℕ) (c : TrafficCounter) (j k : ℕ) (ts : List Progress)
    → c.last_upload ≤ c.upload_total
    → c.last_download ≤ c.download_total
    → IsAlone i ts
    → Exact j k c ts
    → Exact j k (advance_at i c ts).0 (advance_at i c ts).1
unfolding advance_at
advance_at-Exact i c j k [] a b l x = x
advance_at-Exact zero c j k (t ∷ ts) a b l x = step-Exact c j k t ts a b l x
advance_at-Exact (suc i) c j k (t ∷ ts) a b (it, l) x =
    let y = advance_at-Exact i c (j + upload_speed t) (k + download_speed t) ts a b l (record {
      up_exact = omega (arith, x.up_exact);
      down_exact = omega (arith, x.down_exact);
      fresh = x.fresh.1;
    }) in
    record {
      up_exact = omega (arith, y.up_exact);
      down_exact = omega (arith, y.down_exact);
      fresh = (Fresh-idle _ _ t it, y.fresh);
    }

run-Exact :
    (ops : List Operation) (s : Shared)
    → Covered s.counter s.tasks
    → s.counter.upload_total + uploaded ops < u64_mod
    → s.counter.download_total + downloaded ops < u64_mod
    → DoesNotOverlap ops s
    → Exact 0 0 s.counter s.tasks
    → Exact 0 0 (run ops s).counter (run ops s).tasks
unfolding run apply add_upload add_download
run-Exact [] s v a b l x = x
run-Exact (upload n ∷ ops) s v a b l x =
    let (e, f, w) = apply-Covered (upload n) s v (omega arith) (omega arith) in
    run-Exact ops (apply (upload n) s) w (omega (arith, e)) (omega (arith, f)) l
      (record { up_exact = x.up_exact; down_exact = x.down_exact; fresh = x.fresh })
run-Exact (download n ∷ ops) s v a b l x =
    let (e, f, w) = apply-Covered (download n) s v (omega arith) (omega arith) in
    run-Exact ops (apply (download n) s) w (omega (arith, e)) (omega (arith, f)) l
      (record { up_exact = x.up_exact; down_exact = x.down_exact; fresh = x.fresh })
run-Exact (advance i ∷ ops) s v a b (alone, l) x =
    let (e, f, w) = apply-Covered (advance i) s v (omega arith) (omega arith) in
    run-Exact ops (apply (advance i) s) w (omega (arith, e)) (omega (arith, f)) l
      (advance_at-Exact i s.counter 0 0 s.tasks v.up_bound v.down_bound alone x)

sum_up-start : (n : ℕ) → sum_up (replicate n started) ≡ 0
sum_up-start zero = refl
sum_up-start (suc n) = omega (arith, sum_up-start n)

sum_down-start : (n : ℕ) → sum_down (replicate n started) ≡ 0
sum_down-start zero = refl
sum_down-start (suc n) = omega (arith, sum_down-start n)

start-Fresh : (n : ℕ) → All (Fresh 0 0) (replicate n started)
start-Fresh zero = tt
start-Fresh (suc n) = (tt, start-Fresh n)

-- The reported speeds, and what is not reported yet.
abbrev pub Accounts : List Operation → Shared → Type 0
Accounts ops s =
    (sum_up s.tasks + (uploaded ops - s.counter.last_upload) ≡ uploaded ops)
    × (sum_down s.tasks + (downloaded ops - s.counter.last_download) ≡ downloaded ops)
    × (s.counter.last_upload ≤ uploaded ops)
    × (s.counter.last_download ≤ downloaded ops)

-- For every order of the atomic operations of any number of snapshots and of additions since the
-- start in which no two snapshots overlap, and that moves less than 2^64 bytes each way: the speeds
-- that the snapshots report, that included of one that is between its last two operations, and the
-- bytes not yet reported add up to exactly the bytes uploaded, and so for the downloads. Additions
-- may come between the operations of a snapshot.
pub run-Accounts :
    (n : ℕ) (ops : List Operation)
    → uploaded ops < u64_mod
    → downloaded ops < u64_mod
    → DoesNotOverlap ops (start n)
    → Accounts ops (run ops (start n))
run-Accounts n ops a b l =
    let w = run-Counted n ops a b in
    let v = w.covered in
    let x =
      run-Exact ops (start n) (start-Covered n) (omega (arith, a)) (omega (arith, b)) l (record {
        up_exact = omega (arith, sum_up-start n);
        down_exact = omega (arith, sum_down-start n);
        fresh = start-Fresh n;
      }) in
    (
      omega (arith, x.up_exact, v.up_bound, w.all_up),
      omega (arith, x.down_exact, v.down_bound, w.all_down),
      omega (arith, v.up_bound, w.all_up),
      omega (arith, v.down_bound, w.all_down),
    )
