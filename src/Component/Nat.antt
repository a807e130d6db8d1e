-- ===== src/Component/Nat.antt =====
-- redog-component/src/nat.rs: the table of UDP sessions. The `DashMap` is the list of its entries,
-- and the time of a call, in any unit, is an argument of it; `D` is the type of the datagrams. The
-- calls follow each other: `cleanup`, three operations on the `DashMap`, is one step.
pub mod Sessions
pub mod CleanupLoop
mod Tests
use redog.Common.{
  ℕ, ◌-◌, Bool, true, Text, List, [], ◌∷◌, Option, none, some, ◌==◌, ltb, if◌then◌else◌, text_eq,
  length,
}

pub record UdpSession (D : Type 0) : Type 0 where
  pub datagram : D
  pub last_active : ℕ

pub record NatTable (D : Type 0) : Type 0 where
  pub table : List (Text × UdpSession D)
  pub timeout : ℕ
  pub cancelled : Bool

module _ {D : Type 0} where
  -- `NatTable::new`
  unfoldable pub new_nat : ℕ → NatTable D
  new_nat timeout = record { table = []; timeout = timeout; cancelled = redog.Common.false }

  -- The session of a key, and the table with another session for it.
  unfoldable pub find_session : Text → List (Text × UdpSession D) → Option (UdpSession D)
  find_session k [] = none
  find_session k ((j, s) ∷ es) = if text_eq j k then some s else find_session k es

  unfoldable pub store_session :
      Text → UdpSession D → List (Text × UdpSession D) → List (Text × UdpSession D)
  store_session k s [] = (k, s) ∷ []
  store_session k s ((j, r) ∷ es) =
      let rest = store_session k s es in if text_eq j k then (j, s) ∷ es else (j, r) ∷ rest

  unfoldable pub remove_session : Text → List (Text × UdpSession D) → List (Text × UdpSession D)
  remove_session k [] = []
  remove_session k ((j, s) ∷ es) =
      let rest = remove_session k es in if text_eq j k then rest else (j, s) ∷ rest

  -- `get`: the session's datagram, and the table in which it was active now.
  unfoldable pub get_session : ℕ → Text → NatTable D → NatTable D × Option D
  unfolding find_session store_session
  get_session now key t = elim (find_session key t.table) [
    | some s ↦ (
      record t { table = store_session key (record s { last_active = now }) t.table },
      some s.datagram,
    )
    | none ↦ (t, none)
  ]

  -- `insert`
  unfoldable pub insert_session : ℕ → Text → D → NatTable D → NatTable D
  unfolding store_session
  insert_session now key datagram t = record t {
    table = store_session key (record { datagram = datagram; last_active = now }) t.table;
  }

  -- `remove`
  unfoldable pub drop_session : Text → NatTable D → NatTable D
  unfolding remove_session
  drop_session key t = record t { table = remove_session key t.table }

  -- `elapsed() < timeout`
  abbrev pub is_fresh : ℕ → ℕ → UdpSession D → Bool
  is_fresh now timeout s = ltb (now - s.last_active) timeout

  -- `retain`
  unfoldable pub retain_fresh : ℕ → ℕ → List (Text × UdpSession D) → List (Text × UdpSession D)
  retain_fresh now timeout [] = []
  retain_fresh now timeout ((j, s) ∷ es) =
      let rest = retain_fresh now timeout es in
      if is_fresh now timeout s then (j, s) ∷ rest else rest

  -- `cleanup`: the table without the expired sessions, and how many there were, when no other task
  -- changes the table between its `len`, its `retain` and its second `len`.
  unfoldable pub cleanup : ℕ → NatTable D → NatTable D × ℕ
  unfolding retain_fresh
  cleanup now t =
      let kept = retain_fresh now t.timeout t.table in
      (record t { table = kept }, length t.table - length kept)

  unfoldable pub stop_cleanup : NatTable D → NatTable D
  stop_cleanup t = record t { cancelled = true }

  unfoldable pub session_count : NatTable D → ℕ
  session_count t = length t.table

  unfoldable pub has_no_session : NatTable D → Bool
  has_no_session t = length t.table == 0
