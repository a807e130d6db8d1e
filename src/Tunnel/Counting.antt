-- ===== src/Tunnel/Counting.antt =====
-- The size of the table of connections: no more entries than handlers that hold an id.
use redog.Common.{
  ℕ, ◌≡◌, ◌≢◌, ◌≤◌, refl, sym, ap, ◌∙◌, true, Text, List, [], ◌∷◌, none, some, arith, ◌==◌, inl,
  inr, Bool-cases, length, suc,
}
use redog.Core.Address.{IpAddr}
use redog.Core.Adapter.{ProxyAdapter}
use redog.Core.Error.{ok, err, Result-cases}
use redog.Core.Metadata.{Metadata}
use redog.Core.Rule.{Rule}
use redog.Tunnel.Handler.{open_connection, close_connection, connection_info}
use redog.Tunnel.Leaks.{
  System, Step, opens, refused, ends, clears, reads, Reach, here, next, Reach-no_leak, has, without,
  has-without, not_opened, find_entry-insert_entry, find_entry-remove_entry,
}
use redog.Tunnel.Routing.{Tunnel, new, match_adapter}
use redog.Tunnel.Statistics.{ConnectionInfo, find_entry, insert_entry, remove_entry, close_all}

pub length-without : (k : ℕ) (l : List ℕ) → has k l ≡ true → length l ≡ suc (length (without k l))
length-without k [] h = ground arith
length-without k (j ∷ l) h = ground (arith, length-without k l)

-- No id stands twice in a table.
abbrev pub Distinct : List (ℕ × ConnectionInfo) → Type 0
Distinct [] = Unit
Distinct ((k, v) ∷ m) = (find_entry k m ≡ none) × Distinct m

insert_entry-Distinct :
    (k : ℕ) (v : ConnectionInfo) (m : List (ℕ × ConnectionInfo))
    → Distinct m
    → Distinct (insert_entry k v m)
unfolding insert_entry find_entry
insert_entry-Distinct k v [] d = (refl, tt)
insert_entry-Distinct k v ((j, w) ∷ m) (fresh, d) = elim (Bool-cases (j == k)) [
  | inl same ↦ let e : j ≡ k = ground arith in rw same ((rw e at fresh, d))
  | inr other ↦
      rw other ((find_entry-insert_entry k j v m ∙ ground arith, insert_entry-Distinct k v m d))
]

remove_entry-Distinct :
    (k : ℕ) (m : List (ℕ × ConnectionInfo)) → Distinct m → Distinct (remove_entry k m)
unfolding remove_entry
remove_entry-Distinct k [] d = tt
remove_entry-Distinct k ((j, w) ∷ m) (fresh, d) = elim (Bool-cases (j == k)) [
  | inl same ↦ rw same (remove_entry-Distinct k m d)
  | inr other ↦
      rw other ((find_entry-remove_entry k j m ∙ ground arith, remove_entry-Distinct k m d))
]

-- A table whose ids all stand in a list is no longer than the list.
Distinct-length :
    (m : List (ℕ × ConnectionInfo)) (l : List ℕ)
    → Distinct m
    → ((k : ℕ) → find_entry k m ≢ none → has k l ≡ true)
    → length m ≤ length l
unfolding find_entry
Distinct-length [] l d h = omega arith
Distinct-length ((k, v) ∷ m) l (fresh, d) h =
    let inside : has k l ≡ true = h k (λ e. ground arith) in
    let rest : length m ≤ length (without k l) = Distinct-length m (without k l) d λ j found.
      elim (Bool-cases (k == j)) [
        | inl same ↦ let e : k ≡ j = ground arith in absurd (found (rw e at fresh))
        | inr other ↦ has-without k j l (λ e. ground arith) ∙ h j (λ e. found (rw other at e))
      ] in
    omega (arith, length-without k l inside)

module _ {S D : Type 0} (show_ip : IpAddr → Text) (show_port : ℕ → Text)
    (fallback : ProxyAdapter S D) where
  -- The table that an opened connection leaves.
  table :
      (now : ℕ) (m : Metadata) (t u : Tunnel S D) (id : ℕ) (remote : S)
      → open_connection show_ip show_port fallback now m t ≡ (u, some (id, remote))
      → u.connections.connections
        ≡ insert_entry t.connections.counter
            (connection_info show_ip show_port now m (match_adapter fallback t m))
            t.connections.connections
  unfolding open_connection
  table now m t u id remote e =
      elim (Result-cases ((match_adapter fallback t m).adapter.connect_stream m)) [
        | inl (s, connected) ↦
            ap (λ p. p.0.connections.connections) (sym (rw (connected, open_connection) at e))
        | inr (x, failed) ↦
            absurd (ground (arith, ap (λ p. p.1) (rw (failed, open_connection) at e)))
      ]

  Step-Distinct :
      {s t : System S D}
      → Step show_ip show_port fallback s t
      → Distinct s.tunnel.connections.connections
      → Distinct t.tunnel.connections.connections
  unfolding close_connection close_all
  Step-Distinct (opens s now m t id remote e) d =
      rw (table now m s.tunnel t id remote e) (insert_entry-Distinct _ _ _ d)
  Step-Distinct (refused s now m t e) d =
      rw (not_opened show_ip show_port fallback now m s.tunnel t e) d
  Step-Distinct (ends s id (ok (tx, rx)) held) d = remove_entry-Distinct id _ d
  Step-Distinct (ends s id (err e) held) d = remove_entry-Distinct id _ d
  Step-Distinct (clears s) d = tt
  Step-Distinct (reads s) d = d

  Reach-Distinct :
      {s t : System S D}
      → Distinct s.tunnel.connections.connections
      → Reach show_ip show_port fallback s t
      → Distinct t.tunnel.connections.connections
  Reach-Distinct d here = d
  Reach-Distinct d (next r st) = Step-Distinct st (Reach-Distinct d r)

  -- From a new tunnel, never more connections are tracked than handlers hold an id.
  pub Reach-length :
      (proxies : List (Text × ProxyAdapter S D)) (rules : List Rule) {t : System S D}
      → Reach show_ip show_port fallback (record { tunnel = new proxies rules; live = [] }) t
      → length t.tunnel.connections.connections ≤ length t.live
  unfolding new
  Reach-length proxies rules {t} r =
      Distinct-length t.tunnel.connections.connections t.live (Reach-Distinct tt r)
        ((Reach-no_leak show_ip show_port fallback proxies rules r).0)
