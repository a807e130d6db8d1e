-- ===== src/App/Delivery.antt =====
-- The main loop's deliveries: which connections reach a handler, and in which order.
use redog.Common.{ℕ, ◌≡◌, true, Text, List, [], ◌++◌}
use redog.App.Libs.{Channels, ChannelsHold, Semaphores, SemaphoresHold}
use redog.App.Dispatch.{Program, Event, step}
use redog.App.Waiting.{waiting, accepted, started}
use redog.Core.Address.{IpAddr}
use redog.Core.Adapter.{ProxyAdapter}
use redog.Core.Metadata.{Metadata}
use redog.Core.Rule.{Rule}
use redog.Tunnel.Routing.{Tunnel}

module _ {Q P S D : Type 0} (ch : Channels Metadata Q) (sem : Semaphores P)
    (show_ip : IpAddr → Text) (show_port : ℕ → Text) (fallback : ProxyAdapter S D)
    (hc : ChannelsHold ch) (hs : SemaphoresHold sem) where
  -- A loop that has ended has left no connection behind.
  abbrev pub Emptied : Program Q P S D → Type 0
  Emptied p = p.over ≡ true → waiting ch p ≡ []

  -- What a handler does leaves the loop and its queue as they are.
  abbrev Same : Program Q P S D → Program Q P S D → Type 0
  Same p q = (waiting ch p ≡ waiting ch q) × (q.over ≡ p.over)

  abbrev after : Event → Program Q P S D → Program Q P S D
  after e p = step ch sem show_ip show_port fallback e p

  -- What an event does to the connections, on a program whose semaphore is not closed.
  abbrev Passes : Event → Program Q P S D → Type 0
  Passes e p =
      (waiting ch p ++ accepted ch sem e p ≡ started ch sem e p ++ waiting ch (after e p))
      × (Emptied p → Emptied (after e p))
