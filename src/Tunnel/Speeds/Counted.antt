-- ===== src/Tunnel/Speeds/Counted.antt =====
-- The counters, and what the tasks have loaded and report, in any order of the atomic operations.
use redog.Common.{
  ℕ, zero, suc, ◌+◌, ◌≤◌, ◌<◌, ◌%◌, List, [], ◌∷◌, All, replicate, ◌≡◌, refl, ◌∙◌, arith,
}
use redog.Tunnel.Speeds.{
  Shared, Operation, upload, download, advance, advance_at, apply, run, start, uploaded, downloaded,
  sum_up, sum_down, upload_speed, download_speed,
}
use redog.Tunnel.Statistics.{
  TrafficCounter, add_upload, add_download, Progress, started, upload_loaded, both_loaded,
  upload_swapped, reported, snapshot_step, u64_mod,
}

-- What a task has loaded is at most the totals.
abbrev pub Loaded : ℕ → ℕ → Progress → Type 0
Loaded u d (upload_loaded up) = up ≤ u
Loaded u d (both_loaded up down) = (up ≤ u) × (down ≤ d)
Loaded u d (upload_swapped _ down _) = down ≤ d
Loaded u d _ = Unit

-- No counter of what is reported is above its total, and what is reported is at least it.
pub record Covered (c : TrafficCounter) (ts : List Progress) : Type 0 where
  pub up_bound : c.last_upload ≤ c.upload_total
  pub down_bound : c.last_download ≤ c.download_total
  pub up_cover : c.last_upload ≤ sum_up ts
  pub down_cover : c.last_download ≤ sum_down ts
  pub loaded : All (Loaded c.upload_total c.download_total) ts

Loaded-le : (u v d e : ℕ) (t : Progress) → u ≤ v → d ≤ e → Loaded u d t → Loaded v e t
Loaded-le u v d e started h k l = tt
Loaded-le u v d e (upload_loaded a) h k l = omega arith
Loaded-le u v d e (both_loaded a b) h k (l, m) = (omega arith, omega arith)
Loaded-le u v d e (upload_swapped a b c) h k l = omega arith
Loaded-le u v d e (reported s) h k l = tt

pub All-Loaded-le :
    (u v d e : ℕ) (ts : List Progress) → u ≤ v → d ≤ e → All (Loaded u d) ts → All (Loaded v e) ts
All-Loaded-le u v d e [] h k l = tt
All-Loaded-le u v d e (t ∷ ts) h k (l, ls) =
    (Loaded-le u v d e t h k l, All-Loaded-le u v d e ts h k ls)

-- What a step of one task leaves, where the others report `j` up and `k` down.
pub record Stepped (c : TrafficCounter) (j k : ℕ) (c' : TrafficCounter) (ts : List Progress)
    : Type 0 where
  pub same_up : c'.upload_total ≡ c.upload_total
  pub same_down : c'.download_total ≡ c.download_total
  pub up_bound : c'.last_upload ≤ c.upload_total
  pub down_bound : c'.last_download ≤ c.download_total
  pub up_cover : c'.last_upload ≤ j + sum_up ts
  pub down_cover : c'.last_download ≤ k + sum_down ts
  pub loaded : All (Loaded c.upload_total c.download_total) ts

step-Stepped :
    (c : TrafficCounter) (j k : ℕ) (t : Progress) (ts : List Progress)
    → c.last_upload ≤ c.upload_total
    → c.last_download ≤ c.download_total
    → c.last_upload ≤ j + sum_up (t ∷ ts)
    → c.last_download ≤ k + sum_down (t ∷ ts)
    → All (Loaded c.upload_total c.download_total) (t ∷ ts)
    → Stepped c j k (snapshot_step c t).0 ((snapshot_step c t).1 ∷ ts)
unfolding snapshot_step
step-Stepped c j k started ts a b f g (l, ls) = record {
  same_up = refl;
  same_down = refl;
  up_bound = a;
  down_bound = b;
  up_cover = f;
  down_cover = g;
  loaded = (omega arith, ls);
}
step-Stepped c j k (upload_loaded u) ts a b f g (l, ls) = record {
  same_up = refl;
  same_down = refl;
  up_bound = a;
  down_bound = b;
  up_cover = f;
  down_cover = g;
  loaded = ((l, omega arith), ls);
}
step-Stepped c j k (both_loaded u d) ts a b f g ((l, m), ls) = record {
  same_up = refl;
  same_down = refl;
  up_bound = l;
  down_bound = b;
  up_cover = omega arith;
  down_cover = g;
  loaded = (m, ls);
}
step-Stepped c j k (upload_swapped u d last) ts a b f g (l, ls) = record {
  same_up = refl;
  same_down = refl;
  up_bound = a;
  down_bound = l;
  up_cover = f;
  down_cover = omega arith;
  loaded = (tt, ls);
}
step-Stepped c j k (reported s) ts a b f g (l, ls) = record {
  same_up = refl;
  same_down = refl;
  up_bound = a;
  down_bound = b;
  up_cover = f;
  down_cover = g;
  loaded = (tt, ls);
}

advance_at-Stepped :
    (i : ℕ) (c : TrafficCounter) (j k : ℕ) (ts : List Progress)
    → c.last_upload ≤ c.upload_total
    → c.last_download ≤ c.download_total
    → c.last_upload ≤ j + sum_up ts
    → c.last_download ≤ k + sum_down ts
    → All (Loaded c.upload_total c.download_total) ts
    → Stepped c j k (advance_at i c ts).0 (advance_at i c ts).1
unfolding advance_at
advance_at-Stepped i c j k [] a b f g l = record {
  same_up = refl;
  same_down = refl;
  up_bound = a;
  down_bound = b;
  up_cover = f;
  down_cover = g;
  loaded = tt;
}
advance_at-Stepped zero c j k (t ∷ ts) a b f g l = step-Stepped c j k t ts a b f g l
advance_at-Stepped (suc i) c j k (t ∷ ts) a b f g (l, ls) =
    let st =
      advance_at-Stepped i c (j + upload_speed t) (k + download_speed t) ts a b (omega arith)
        (omega arith) ls in
    record {
      same_up = st.same_up;
      same_down = st.same_down;
      up_bound = st.up_bound;
      down_bound = st.down_bound;
      up_cover = omega (arith, st.up_cover);
      down_cover = omega (arith, st.down_cover);
      loaded = (l, st.loaded);
    }

-- The counters and the tasks after some operations since the start.
pub record Counted (ops : List Operation) (s : Shared) : Type 0 where
  pub all_up : s.counter.upload_total ≡ uploaded ops
  pub all_down : s.counter.download_total ≡ downloaded ops
  pub covered : Covered s.counter s.tasks

pub apply-Covered :
    (op : Operation) (s : Shared)
    → Covered s.counter s.tasks
    → s.counter.upload_total + uploaded (op ∷ []) < u64_mod
    → s.counter.download_total + downloaded (op ∷ []) < u64_mod
    → ((apply op s).counter.upload_total ≡ s.counter.upload_total + uploaded (op ∷ []))
      × ((apply op s).counter.download_total ≡ s.counter.download_total + downloaded (op ∷ []))
      × Covered (apply op s).counter (apply op s).tasks
unfolding apply add_upload add_download
apply-Covered (upload n) s v a b =
    let c = s.counter in
    let same : (c.upload_total + n) % u64_mod ≡ c.upload_total + n = omega arith in
    (
      same ∙ omega arith,
      omega arith,
      record {
        up_bound = omega (arith, same, v.up_bound);
        down_bound = v.down_bound;
        up_cover = v.up_cover;
        down_cover = v.down_cover;
        loaded = All-Loaded-le _ _ _ _ s.tasks (omega (arith, same)) (omega arith) v.loaded;
      },
    )
apply-Covered (download n) s v a b =
    let c = s.counter in
    let same : (c.download_total + n) % u64_mod ≡ c.download_total + n = omega arith in
    (
      omega arith,
      same ∙ omega arith,
      record {
        up_bound = v.up_bound;
        down_bound = omega (arith, same, v.down_bound);
        up_cover = v.up_cover;
        down_cover = v.down_cover;
        loaded = All-Loaded-le _ _ _ _ s.tasks (omega arith) (omega (arith, same)) v.loaded;
      },
    )
apply-Covered (advance i) s v a b =
    let st =
      advance_at-Stepped i s.counter 0 0 s.tasks v.up_bound v.down_bound (omega (arith, v.up_cover))
        (omega (arith, v.down_cover)) v.loaded in
    (
      st.same_up ∙ omega arith,
      st.same_down ∙ omega arith,
      record {
        up_bound = omega (arith, st.up_bound, st.same_up);
        down_bound = omega (arith, st.down_bound, st.same_down);
        up_cover = omega (arith, st.up_cover);
        down_cover = omega (arith, st.down_cover);
        loaded =
            All-Loaded-le _ _ _ _ _ (omega (arith, st.same_up)) (omega (arith, st.same_down))
              st.loaded;
      },
    )

run-Covered :
    (ops : List Operation) (s : Shared)
    → Covered s.counter s.tasks
    → s.counter.upload_total + uploaded ops < u64_mod
    → s.counter.download_total + downloaded ops < u64_mod
    → ((run ops s).counter.upload_total ≡ s.counter.upload_total + uploaded ops)
      × ((run ops s).counter.download_total ≡ s.counter.download_total + downloaded ops)
      × Covered (run ops s).counter (run ops s).tasks
unfolding run
run-Covered [] s v a b = (omega arith, omega arith, v)
run-Covered (op ∷ ops) s v a b =
    let (p, q) = counts op ops in
    let (e, f, w) = apply-Covered op s v (omega (arith, p)) (omega (arith, q)) in
    let (g, h, x) = run-Covered ops (apply op s) w (omega (arith, e, p)) (omega (arith, f, q)) in
    (omega (arith, e, g, p), omega (arith, f, h, q), x)
  where
    counts :
        (op : Operation) (ops : List Operation)
        → (uploaded (op ∷ ops) ≡ uploaded (op ∷ []) + uploaded ops)
          × (downloaded (op ∷ ops) ≡ downloaded (op ∷ []) + downloaded ops)
    counts (upload n) ops = (omega arith, omega arith)
    counts (download n) ops = (omega arith, omega arith)
    counts (advance i) ops = (omega arith, omega arith)

start-Loaded : (n : ℕ) → All (Loaded 0 0) (replicate n started)
start-Loaded zero = tt
start-Loaded (suc n) = (tt, start-Loaded n)

pub start-Covered : (n : ℕ) → Covered (start n).counter (start n).tasks
start-Covered n = record {
  up_bound = omega arith;
  down_bound = omega arith;
  up_cover = omega arith;
  down_cover = omega arith;
  loaded = start-Loaded n;
}

pub run-Counted :
    (n : ℕ) (ops : List Operation)
    → uploaded ops < u64_mod
    → downloaded ops < u64_mod
    → Counted ops (run ops (start n))
run-Counted n ops a b =
    let (e, f, v) =
      run-Covered ops (start n) (start-Covered n) (omega (arith, a)) (omega (arith, b)) in
    record { all_up = omega (arith, e); all_down = omega (arith, f); covered = v }
