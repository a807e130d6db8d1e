-- ===== src/Component/Nat/Tests.antt =====
-- A cleanup after an insertion, a later one and a use.
use redog.Common.{ℕ, codes, List, [], ◌∷◌}
use redog.Component.Nat.Sessions.{Call, gets, inserts}

abbrev calls : List (Call ℕ)
calls = inserts 10 (codes "a:53") 1 ∷ inserts 20 (codes "b:53") 2 ∷ gets 50 (codes "a:53") ∷ []
