-- ===== src/App/Progress.antt =====
-- The main loop's progress: a connection that waits gets its handler while permits are left.
use redog.Common.{ℕ, Text, List, [], ◌∷◌}
use redog.App.Libs.{Channels, Semaphores}
use redog.App.Dispatch.{Program, loops}
use redog.App.Waiting.{all_started}
use redog.Core.Address.{IpAddr}
use redog.Core.Adapter.{ProxyAdapter}
use redog.Core.Metadata.{Metadata}
use redog.Core.Rule.{Rule}

module _ {Q P S D : Type 0} (ch : Channels Metadata Q) (sem : Semaphores P)
    (show_ip : IpAddr → Text) (show_port : ℕ → Text) (fallback : ProxyAdapter S D) where
  -- The connections whose handlers start in two turns of the loop.
  abbrev two_turns : Program Q P S D → List Metadata
  two_turns p = all_started ch sem show_ip show_port fallback (loops ∷ loops ∷ []) p
