-- ===== src/Component/Nat/Sessions.antt =====
-- Which sessions a cleanup keeps, in a table that the operations built.
use redog.Common.{ℕ, Text, List, [], ◌∷◌, Option, none, some, if◌then◌else◌, ◌≡◌}
use redog.Component.Nat.{
  UdpSession, NatTable, find_session, get_session, insert_session, drop_session, is_fresh, cleanup,
}

-- What happens to a table, each call with its time.
pub data Call (D : Type 0) : Type 0 where
  gets : ℕ → Text → Call D
  inserts : ℕ → Text → D → Call D
  removes : Text → Call D
  cleans : ℕ → Call D

module _ {D : Type 0} where
  unfoldable pub after_call : Call D → NatTable D → NatTable D
  unfolding get_session insert_session drop_session cleanup
  after_call (gets now k) t = (get_session now k t).0
  after_call (inserts now k d) t = insert_session now k d t
  after_call (removes k) t = drop_session k t
  after_call (cleans now) t = (cleanup now t).0

  unfoldable pub after_calls : List (Call D) → NatTable D → NatTable D
  unfolding after_call
  after_calls [] t = t
  after_calls (c ∷ cs) t = after_calls cs (after_call c t)

  abbrev Unique : List (Text × UdpSession D) → Type 0
  Unique [] = Unit
  Unique ((j, s) ∷ es) = (find_session j es ≡ none) × Unique es

  -- The session of a key after a cleanup.
  abbrev pub kept_session : ℕ → ℕ → Option (UdpSession D) → Option (UdpSession D)
  kept_session now timeout none = none
  kept_session now timeout (some s) = if is_fresh now timeout s then some s else none
