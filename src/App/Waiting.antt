-- ===== src/App/Waiting.antt =====
-- The connections that wait in the channel or in the main loop, and how the loop's two waits pass
-- them on.
use mathlib.Core.List.{append_assoc, append-nil}
use redog.Common.{
  ℕ, Bool, ◌≡◌, refl, sym, ◌∙◌, ap, true, false, Text, List, [], ◌∷◌, ◌++◌, Option, none, some,
  arith, if◌then◌else◌,
}
use redog.App.Libs.{
  Channels, ChannelsHold, Received, item, empty, disconnected, Semaphores, SemaphoresHold, Acquired,
  acquired, pending, closed,
}
use redog.App.Dispatch.{
  Program, Event, arrives, all_stop, loops, opens, ends, clears, reads, received, dispatched, sent,
  step,
}
use redog.Core.Address.{IpAddr}
use redog.Core.Adapter.{ProxyAdapter}
use redog.Core.Metadata.{Metadata}

-- The connection that an optional one is.
abbrev pub listed : {A : Type 0} → Option A → List A
listed none = []
listed (some a) = a ∷ []

-- The connection whose handler starts with an acquired permit.
abbrev pub with_permit : {P : Type 0} → Metadata → Acquired P → List Metadata
with_permit c (acquired s) = c ∷ []
with_permit c pending = []
with_permit c closed = []

module _ {Q P S D : Type 0} (ch : Channels Metadata Q) where
  -- The connections that no handler has yet, in the order in which they are handed on.
  abbrev pub waiting : Program Q P S D → List Metadata
  waiting p = listed p.conn ++ ch.contents p.rx

module _ {Q P S D : Type 0} (ch : Channels Metadata Q) (sem : Semaphores P) where
  -- The connection that the channel accepts in an event.
  abbrev pub accepted : Event → Program Q P S D → List Metadata
  accepted (arrives m) p =
      if p.over then [] else elim (ch.send m p.rx) [ none ↦ [] | some _ ↦ m ∷ [] ]
  accepted all_stop p = []
  accepted loops p = []
  accepted (opens n now) p = []
  accepted (ends id relayed) p = []
  accepted clears p = []
  accepted reads p = []

  -- The connection whose handler starts in an event.
  abbrev pub started : Event → Program Q P S D → List Metadata
  started loops p =
      if p.over
      then []
      else elim p.conn [ none ↦ [] | some c ↦ with_permit c (sem.acquire_owned p.semaphore) ]
  started (arrives m) p = []
  started all_stop p = []
  started (opens n now) p = []
  started (ends id relayed) p = []
  started clears p = []
  started reads p = []

module _ {Q P S D : Type 0} (ch : Channels Metadata Q) (sem : Semaphores P)
    (show_ip : IpAddr → Text) (show_port : ℕ → Text) (fallback : ProxyAdapter S D) where
  -- The connections that the channel accepts in a run, in their order.
  unfoldable pub all_accepted : List Event → Program Q P S D → List Metadata
  unfolding step
  all_accepted [] p = []
  all_accepted (e ∷ es) p =
      accepted ch sem e p ++ all_accepted es (step ch sem show_ip show_port fallback e p)

  -- The connections whose handlers start in a run, in their order.
  unfoldable pub all_started : List Event → Program Q P S D → List Metadata
  unfolding step
  all_started [] p = []
  all_started (e ∷ es) p =
      started ch sem e p ++ all_started es (step ch sem show_ip show_port fallback e p)

module _ {Q P S D : Type 0} (ch : Channels Metadata Q) (sem : Semaphores P) (hc : ChannelsHold ch)
    (hs : SemaphoresHold sem) where
  pub sends-waiting :
      (m : Metadata) (p : Program Q P S D) (b : Bool) (o : Option Q)
      → ch.send m p.rx ≡ o
      → waiting ch p ++ (if b then [] else elim o [ none ↦ [] | some _ ↦ m ∷ [] ])
        ≡ waiting ch (if b then p else sent p o)
  sends-waiting m p true o e = append-nil (waiting ch p)
  sends-waiting m p false none e = append-nil (waiting ch p)
  sends-waiting m p false (some rx) e =
      append_assoc (listed p.conn) (ch.contents p.rx) (m ∷ [])
      ∙ ap (λ c. listed p.conn ++ c) (sym (hc.contents-send m p.rx rx e))

  pub received-waiting :
      (p : Program Q P S D) (r : Received Metadata Q)
      → ch.recv p.rx ≡ r
      → p.conn ≡ none
      → ch.contents p.rx ≡ waiting ch (received p r)
  received-waiting p (item c rx) e n = hc.contents-item c p.rx rx e
  received-waiting p empty e n = rw n refl
  received-waiting p disconnected e n = rw n refl

  pub dispatched-waiting :
      (c : Metadata) (p : Program Q P S D) (a : Acquired P)
      → sem.acquire_owned p.semaphore ≡ a
      → sem.is_closed p.semaphore ≡ false
      → p.conn ≡ some c
      → c ∷ ch.contents p.rx ≡ with_permit c a ++ waiting ch (dispatched c p a)
  dispatched-waiting c p (acquired s) e u n = refl
  dispatched-waiting c p pending e u n = rw n refl
  dispatched-waiting c p closed e u n = absurd (ground (arith, hs.closed-closed p.semaphore e, u))

  pub loops-waiting :
      (p : Program Q P S D) (b : Bool) (o : Option Metadata)
      → sem.is_closed p.semaphore ≡ false
      → p.conn ≡ o
      → waiting ch p
        ≡ (if b
            then []
            else elim o [ none ↦ [] | some c ↦ with_permit c (sem.acquire_owned p.semaphore) ])
          ++ waiting ch (
              if b then p else elim o [
                | some c ↦ dispatched c p (sem.acquire_owned p.semaphore)
                | none ↦ received p (ch.recv p.rx)
              ])
  loops-waiting p true o u e = refl
  loops-waiting p false none u e =
      ap (λ o. listed o ++ ch.contents p.rx) e ∙ received-waiting p (ch.recv p.rx) refl e
  loops-waiting p false (some c) u e =
      ap (λ o. listed o ++ ch.contents p.rx) e
      ∙ dispatched-waiting c p (sem.acquire_owned p.semaphore) refl u e
