-- ===== src/Tunnel/Leaks.antt =====
-- The table of connections under any interleaving of handlers, of closings of all connections,
-- and of snapshots: an entry stands for a handler that has not finished.
use redog.Common.{
  ℕ, ◌≡◌, ◌≢◌, refl, Bool, true, false, ◌||◌, Text, List, [], ◌∷◌, none, some, arith, ◌==◌,
  if◌then◌else◌, sym, ◌∙◌, ap, inl, inr, Bool-cases, Option-cases,
}
use redog.Core.Address.{IpAddr}
use redog.Core.Adapter.{ProxyAdapter}
use redog.Core.Error.{Result, ok, err, Result-cases}
use redog.Core.Rule.{Rule}
use redog.Core.Metadata.{Metadata}
use redog.Tunnel.Handler.{open_connection, close_connection, connection_info}
use redog.Tunnel.Routing.{Tunnel, new, match_adapter}
use redog.Tunnel.Statistics.{
  ConnectionInfo, find_entry, insert_entry, remove_entry, track, close_all, snapshot,
}

pub find_entry-insert_entry :
    (k j : ℕ) (v : ConnectionInfo) (m : List (ℕ × ConnectionInfo))
    → find_entry j (insert_entry k v m) ≡ (if k == j then some v else find_entry j m)
unfolding find_entry insert_entry
find_entry-insert_entry k j v [] = refl
find_entry-insert_entry k j v ((i, w) ∷ m) = ground (arith, find_entry-insert_entry k j v m)

pub find_entry-remove_entry :
    (k j : ℕ) (m : List (ℕ × ConnectionInfo))
    → find_entry j (remove_entry k m) ≡ (if k == j then none else find_entry j m)
unfolding find_entry remove_entry
find_entry-remove_entry k j [] = ground arith
find_entry-remove_entry k j ((i, w) ∷ m) = ground (arith, find_entry-remove_entry k j m)

abbrev pub has : ℕ → List ℕ → Bool
has k [] = false
has k (j ∷ l) = j == k || has k l

-- The ids without the first that equals `k`.
abbrev pub without : ℕ → List ℕ → List ℕ
without k [] = []
without k (j ∷ l) = if j == k then l else j ∷ without k l

pub has-without : (k j : ℕ) (l : List ℕ) → j ≢ k → has j (without k l) ≡ has j l
has-without k j [] h = refl
has-without k j (i ∷ l) h = ground (arith, has-without k j l h)

-- A tunnel, and the ids that running handlers hold.
pub record System (S D : Type 0) : Type 0 where
  pub tunnel : Tunnel S D
  pub live : List ℕ

module _ {S D : Type 0} (show_ip : IpAddr → Text) (show_port : ℕ → Text)
    (fallback : ProxyAdapter S D) where
  -- A handler opens a connection, or fails to; a handler that holds an id ends; all connections
  -- are closed through the API; the traffic is read, which
  -- is one step here: the theorem is about the table, not the counters.
  pub data Step : System S D → System S D → Type 0 where
    opens :
        (s : System S D) (now : ℕ) (m : Metadata) (t : Tunnel S D) (id : ℕ) (remote : S)
        → open_connection show_ip show_port fallback now m s.tunnel ≡ (t, some (id, remote))
        → Step s (record { tunnel = t; live = id ∷ s.live })
    refused :
        (s : System S D) (now : ℕ) (m : Metadata) (t : Tunnel S D)
        → open_connection show_ip show_port fallback now m s.tunnel ≡ (t, none)
        → Step s (record { tunnel = t; live = s.live })
    ends :
        (s : System S D) (id : ℕ) (relayed : Result (ℕ × ℕ))
        → has id s.live ≡ true
        → Step s
            (record { tunnel = close_connection id relayed s.tunnel; live = without id s.live })
    clears :
        (s : System S D)
        → Step s (record {
          tunnel = record (s.tunnel) { connections = (close_all s.tunnel.connections).0 };
          live = s.live;
        })
    reads :
        (s : System S D)
        → Step s (record {
          tunnel = record (s.tunnel) { traffic = (snapshot s.tunnel.traffic).0 };
          live = s.live;
        })

  pub data Reach (s : System S D) : System S D → Type 0 where
    here : Reach s s
    next : {t u : System S D} → Reach s t → Step t u → Reach s u

  -- Every tracked id is held by a handler.
  abbrev pub Held : System S D → Type 0
  Held s = (id : ℕ) → find_entry id s.tunnel.connections.connections ≢ none → has id s.live ≡ true

  -- An opened connection is tracked under its id, and no other entry changes.
  pub opened :
      (now : ℕ) (m : Metadata) (t u : Tunnel S D) (id : ℕ) (remote : S) (j : ℕ)
      → open_connection show_ip show_port fallback now m t ≡ (u, some (id, remote))
      → find_entry j u.connections.connections ≡ (
          if id == j
          then some (connection_info show_ip show_port now m (match_adapter fallback t m))
          else find_entry j t.connections.connections)
  unfolding open_connection
  opened now m t u id remote j e =
      elim (Result-cases ((match_adapter fallback t m).adapter.connect_stream m)) [
        | inl (s, connected) ↦
            let info = connection_info show_ip show_port now m (match_adapter fallback t m) in
            let whole : (
              record t { connections = (track info t.connections).0 },
              some (t.connections.counter, s),
            )
                ≡ (u, some (id, remote)) =
              rw (connected, open_connection) at e in
            let table : u.connections.connections
                ≡ insert_entry t.connections.counter info t.connections.connections =
              ap (λ p. p.0.connections.connections) (sym whole) in
            let ids : t.connections.counter ≡ id = ground (arith, ap (λ p. p.1) whole) in
            rw (table, ← ids)
              (find_entry-insert_entry t.connections.counter j info t.connections.connections)
        | inr (x, failed) ↦
            let whole : (t, none) ≡ (u, some (id, remote)) = rw (failed, open_connection) at e in
            absurd (ground (arith, ap (λ p. p.1) whole))
      ]

  pub not_opened :
      (now : ℕ) (m : Metadata) (t u : Tunnel S D)
      → open_connection show_ip show_port fallback now m t ≡ (u, none)
      → u ≡ t
  unfolding open_connection
  not_opened now m t u e =
      elim (Result-cases ((match_adapter fallback t m).adapter.connect_stream m)) [
        | inl (s, connected) ↦
            absurd (ground (arith, ap (λ p. p.1) (rw (connected, open_connection) at e)))
        | inr (x, failed) ↦ sym (ap (λ p. p.0) (rw (failed, open_connection) at e))
      ]

  closed :
      (id : ℕ) (relayed : Result (ℕ × ℕ)) (t : Tunnel S D) (j : ℕ)
      → find_entry j (close_connection id relayed t).connections.connections
        ≡ (if id == j then none else find_entry j t.connections.connections)
  unfolding close_connection
  closed id (ok (tx, rx)) t j = find_entry-remove_entry id j t.connections.connections
  closed id (err e) t j = find_entry-remove_entry id j t.connections.connections

  Step-Held : {s t : System S D} → Step s t → Held s → Held t
  unfolding close_all find_entry
  Step-Held (opens s now m t id remote e) h = λ j found. elim (Bool-cases (id == j)) [
    | inl same ↦ ground arith
    | inr other ↦
        ground (arith, h j (λ n. found (opened now m s.tunnel t id remote j e ∙ rw other n)))
  ]
  Step-Held (refused s now m t e) h =
      λ j found. h j (λ n. found (rw (not_opened now m s.tunnel t e) n))
  Step-Held (ends s id relayed held) h = λ j found. elim (Bool-cases (id == j)) [
    | inl same ↦ absurd (found (closed id relayed s.tunnel j ∙ rw same))
    | inr other ↦
        has-without id j s.live (λ e. ground arith)
        ∙ h j (λ n. found (closed id relayed s.tunnel j ∙ rw other n))
  ]
  Step-Held (clears s) h = λ j found. absurd (found refl)
  Step-Held (reads s) h = h

  pub Reach-Held : {s t : System S D} → Held s → Reach s t → Held t
  Reach-Held h here = h
  Reach-Held h (next r st) = Step-Held st (Reach-Held h r)

  no_entries : (m : List (ℕ × ConnectionInfo)) → ((j : ℕ) → find_entry j m ≡ none) → m ≡ []
  unfolding find_entry
  no_entries [] h = refl
  no_entries ((k, v) ∷ m) h = absurd (ground (arith, h k))

  -- No handler leaves its connection behind: from a new tunnel, in every interleaving of handlers,
  -- closings and reads, each tracked id belongs to a handler that has not ended, and the table is
  -- empty whenever all handlers have ended.
  pub Reach-no_leak :
      (proxies : List (Text × ProxyAdapter S D)) (rules : List Rule) {t : System S D}
      → Reach (record { tunnel = new proxies rules; live = [] }) t
      → Held t × (t.live ≡ [] → t.tunnel.connections.connections ≡ [])
  unfolding new find_entry
  Reach-no_leak proxies rules {t} r =
      let held : Held t = Reach-Held (λ j found. absurd (found refl)) r in
      (
        held,
        λ e. no_entries t.tunnel.connections.connections (λ j.
            elim (Option-cases (find_entry j t.tunnel.connections.connections)) [
              | inl n ↦ n
              | inr (v, s) ↦ absurd (ground (arith, held j (λ n. ground arith), e))
            ]),
      )
