-- ===== src/App/Queues.antt =====
-- A channel and a semaphore that keep the laws which App/Libs states.
use redog.Common.{
  ℕ, Bool, true, false, List, [], ◌∷◌, ◌++◌, Option, some, none, length, ltb, suc, zero, inl, inr,
  Bool-cases, arith, if◌then◌else◌, ◌≡◌, refl,
}
use redog.App.Libs.{
  Channels, ChannelsHold, Received, item, empty, disconnected, Semaphores, SemaphoresHold, Acquired,
  acquired, pending, closed,
}
use redog.Core.Metadata.{Metadata}

-- A channel that is the list of its items with its capacity and whether senders are left, and a
-- semaphore that is the number of its permits.
abbrev pub Queue : Type 0
Queue = List Metadata × (ℕ × Bool)

abbrev pub sent_to : Metadata → Queue → Option Queue
sent_to c (l, (n, open_end)) = if ltb (length l) n then some (l ++ c ∷ [], (n, open_end)) else none

abbrev pub received_from : Queue → Received Metadata Queue
received_from (c ∷ l, r) = item c (l, r)
received_from ([], (n, true)) = empty
received_from ([], (n, false)) = disconnected

abbrev pub channels : Channels Metadata Queue
channels = record {
  channel = λ n. ([], (n, true));
  send = sent_to;
  recv = received_from;
  drop_senders = λ (l, (n, b)). (l, (n, false));
  contents = λ q. q.0;
}

sent_to_lem : (c : Metadata) (q r : Queue) → sent_to c q ≡ some r → r.0 ≡ q.0 ++ c ∷ []
sent_to_lem c (l, (n, b)) r e = elim (Bool-cases (ltb (length l) n)) [
  | inl room ↦
      let whole : some (l ++ c ∷ [], (n, b)) ≡ some r = rw room at e in ground (arith, whole)
  | inr full ↦ let whole : none ≡ some r = rw full at e in absurd (ground (arith, whole))
]

item_lem : (c : Metadata) (q r : Queue) → received_from q ≡ item c r → q.0 ≡ c ∷ r.0
item_lem c (d ∷ l, t) r e = ground (arith, e)
item_lem c ([], (n, true)) r e = absurd (ground (arith, e))
item_lem c ([], (n, false)) r e = absurd (ground (arith, e))

empty_lem : (q : Queue) → received_from q ≡ empty → q.0 ≡ []
empty_lem (d ∷ l, t) e = absurd (ground (arith, e))
empty_lem ([], (n, true)) e = refl
empty_lem ([], (n, false)) e = refl

disconnected_lem : (q : Queue) → received_from q ≡ disconnected → q.0 ≡ []
disconnected_lem (d ∷ l, t) e = absurd (ground (arith, e))
disconnected_lem ([], (n, true)) e = refl
disconnected_lem ([], (n, false)) e = refl

pub channels-Hold : ChannelsHold channels
channels-Hold = record {
  contents-channel = λ n. refl;
  contents-send = sent_to_lem;
  contents-item = item_lem;
  contents-empty = empty_lem;
  contents-disconnected = disconnected_lem;
  contents-drop_senders = λ q. refl;
}

abbrev pub taken : ℕ → Acquired ℕ
taken zero = pending
taken (suc n) = acquired n

abbrev pub semaphores : Semaphores ℕ
semaphores = record {
  new = λ n. n;
  acquire_owned = taken;
  drop_permit = λ n. suc n;
  available_permits = λ n. n;
  is_closed = λ n. false;
}

taken-acquired : (s t : ℕ) → taken s ≡ acquired t → s ≡ suc t
taken-acquired zero t e = absurd (ground (arith, e))
taken-acquired (suc s) t e = ground (arith, e)

taken-pending : (s : ℕ) → taken s ≡ pending → s ≡ 0
taken-pending zero e = refl
taken-pending (suc s) e = absurd (ground (arith, e))

taken-closed : (s : ℕ) → taken s ≡ closed → false ≡ true
taken-closed zero e = absurd (ground (arith, e))
taken-closed (suc s) e = absurd (ground (arith, e))

pub semaphores-Hold : SemaphoresHold semaphores
semaphores-Hold = record {
  permits-new = λ n. refl;
  permits-acquired = taken-acquired;
  permits-pending = taken-pending;
  permits-drop = λ s. refl;
  closed-new = λ n. refl;
  closed-acquired = λ s t e. refl;
  closed-drop = λ s. refl;
  closed-closed = taken-closed;
}
