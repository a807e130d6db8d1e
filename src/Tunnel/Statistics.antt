-- ===== src/Tunnel/Statistics.antt =====
-- redog-tunnel/src/statistics.rs: the traffic counters and the table of connections. Each operation
-- on one of the atomic counters is one step, and a snapshot is four of them; the counters are `u64`
-- and wrap.
use redog.Common.{
  ℕ, ◌+◌, ◌-◌, ◌%◌, Bool, Text, List, [], ◌∷◌, map, Option, none, some, ◌==◌, if◌then◌else◌, length,
}

abbrev pub u64_mod : ℕ
u64_mod = 18446744073709551616

pub record TrafficCounter : Type 0 where
  pub upload_total : ℕ
  pub download_total : ℕ
  pub last_upload : ℕ
  pub last_download : ℕ

pub record TrafficSnapshot : Type 0 where
  pub upload_speed : ℕ
  pub download_speed : ℕ
  pub upload_total : ℕ
  pub download_total : ℕ

abbrev pub new_counter : TrafficCounter
new_counter = record { upload_total = 0; download_total = 0; last_upload = 0; last_download = 0 }

-- `fetch_add`
unfoldable pub add_upload : ℕ → TrafficCounter → TrafficCounter
add_upload bytes c = record c { upload_total = (c.upload_total + bytes) % u64_mod }

unfoldable pub add_download : ℕ → TrafficCounter → TrafficCounter
add_download bytes c = record c { download_total = (c.download_total + bytes) % u64_mod }

-- A snapshot is four atomic operations: two loads, and then two swaps that give what they replace.
unfoldable pub load_upload : TrafficCounter → ℕ
load_upload c = c.upload_total

unfoldable pub load_download : TrafficCounter → ℕ
load_download c = c.download_total

unfoldable pub swap_last_upload : ℕ → TrafficCounter → TrafficCounter × ℕ
swap_last_upload upload c = (record c { last_upload = upload }, c.last_upload)

unfoldable pub swap_last_download : ℕ → TrafficCounter → TrafficCounter × ℕ
swap_last_download download c = (record c { last_download = download }, c.last_download)

-- `saturating_sub` is the subtraction of ℕ.
unfoldable pub report : ℕ → ℕ → ℕ → ℕ → TrafficSnapshot
report upload download last_up last_down = record {
  upload_speed = upload - last_up;
  download_speed = download - last_down;
  upload_total = upload;
  download_total = download;
}

-- A snapshot of which the operations follow each other with nothing between them.
unfoldable pub snapshot : TrafficCounter → TrafficCounter × TrafficSnapshot
unfolding load_upload load_download swap_last_upload swap_last_download report
snapshot c =
    let upload = load_upload c in
    let download = load_download c in
    let (c1, last_up) = swap_last_upload upload c in
    let (c2, last_down) = swap_last_download download c1 in
    (c2, report upload download last_up last_down)

-- How far a task has come with a snapshot.
pub data Progress : Type 0 where
  started : Progress
  upload_loaded : ℕ → Progress
  both_loaded : ℕ → ℕ → Progress
  upload_swapped : ℕ → ℕ → ℕ → Progress
  reported : TrafficSnapshot → Progress

-- The task's next atomic operation.
unfoldable pub snapshot_step : TrafficCounter → Progress → TrafficCounter × Progress
unfolding load_upload load_download swap_last_upload swap_last_download report
snapshot_step c started = (c, upload_loaded (load_upload c))
snapshot_step c (upload_loaded upload) = (c, both_loaded upload (load_download c))
snapshot_step c (both_loaded upload download) =
    let (c', last_up) = swap_last_upload upload c in (c', upload_swapped upload download last_up)
snapshot_step c (upload_swapped upload download last_up) =
    let (c', last_down) = swap_last_download download c in
    (c', reported (report upload download last_up last_down))
snapshot_step c (reported s) = (c, reported s)

-- `start` is the time in seconds.
pub record ConnectionInfo : Type 0 where
  pub id : ℕ
  pub destination : Text
  pub network : Text
  pub inbound_type : Text
  pub chains : List Text
  pub rule : Text
  pub rule_payload : Text
  pub upload : ℕ
  pub download : ℕ
  pub start : ℕ

-- The `DashMap` is the list of its entries, one for a key.
pub record ConnectionTracker : Type 0 where
  pub connections : List (ℕ × ConnectionInfo)
  pub counter : ℕ

abbrev pub new_tracker : ConnectionTracker
new_tracker = record { connections = []; counter = 0 }

unfoldable pub find_entry : ℕ → List (ℕ × ConnectionInfo) → Option ConnectionInfo
find_entry k [] = none
find_entry k ((j, v) ∷ m) = if j == k then some v else find_entry k m

unfoldable pub insert_entry :
    ℕ → ConnectionInfo → List (ℕ × ConnectionInfo) → List (ℕ × ConnectionInfo)
insert_entry k v [] = (k, v) ∷ []
insert_entry k v ((j, w) ∷ m) = if j == k then (k, v) ∷ m else (j, w) ∷ insert_entry k v m

unfoldable pub remove_entry : ℕ → List (ℕ × ConnectionInfo) → List (ℕ × ConnectionInfo)
remove_entry k [] = []
remove_entry k ((j, w) ∷ m) = let rest = remove_entry k m in if j == k then rest else (j, w) ∷ rest

-- `track`: the table with the connection under a fresh id, and the id
unfoldable pub track : ConnectionInfo → ConnectionTracker → ConnectionTracker × ℕ
unfolding insert_entry
track info t = (
  record {
    connections = insert_entry t.counter info t.connections;
    counter = (t.counter + 1) % u64_mod;
  },
  t.counter,
)

unfoldable pub untrack : ℕ → ConnectionTracker → ConnectionTracker
unfolding remove_entry
untrack id t = record t { connections = remove_entry id t.connections }

unfoldable pub list : ConnectionTracker → List ConnectionInfo
list t = map (λ e. e.1) t.connections

unfoldable pub close_all : ConnectionTracker → ConnectionTracker × ℕ
close_all t = (record t { connections = [] }, length t.connections)

unfoldable pub len : ConnectionTracker → ℕ
len t = length t.connections

unfoldable pub is_empty : ConnectionTracker → Bool
is_empty t = length t.connections == 0
