-- ===== src/App/Libs.antt =====
-- What `main` relies on of tokio: a bounded channel `mpsc`, and a semaphore. Both are parameters;
-- their laws state what tokio's documentation says of them.
use redog.Common.{ℕ, Bool, true, false, List, [], ◌∷◌, ◌++◌, Option, some, ◌≡◌, suc}

-- What `recv` finds: an item, nothing for now, or that no sender is left and nothing is queued.
pub data Received (C Q : Type 0) : Type 0 where
  item : C → Q → Received C Q
  empty disconnected : Received C Q

pub record Channels (C Q : Type 0) : Type 0 where
  pub channel : ℕ → Q
  -- `none` where the channel is full, so that the sender waits
  pub send : C → Q → Option Q
  pub recv : Q → Received C Q
  pub drop_senders : Q → Q
  -- what has been sent and not received
  pub contents : Q → List C

pub record ChannelsHold {C Q : Type 0} (ch : Channels C Q) : Type 0 where
  pub contents-channel : (n : ℕ) → ch.contents (ch.channel n) ≡ []
  pub contents-send :
      (c : C) (q r : Q) → ch.send c q ≡ some r → ch.contents r ≡ ch.contents q ++ c ∷ []
  pub contents-item : (c : C) (q r : Q) → ch.recv q ≡ item c r → ch.contents q ≡ c ∷ ch.contents r
  pub contents-empty : (q : Q) → ch.recv q ≡ empty → ch.contents q ≡ []
  pub contents-disconnected : (q : Q) → ch.recv q ≡ disconnected → ch.contents q ≡ []
  pub contents-drop_senders : (q : Q) → ch.contents (ch.drop_senders q) ≡ ch.contents q

-- What `acquire_owned` comes to: a permit, no permit for now, or that the semaphore is closed.
pub data Acquired (S : Type 0) : Type 0 where
  acquired : S → Acquired S
  pending closed : Acquired S

pub record Semaphores (S : Type 0) : Type 0 where
  pub new : ℕ → S
  pub acquire_owned : S → Acquired S
  pub drop_permit : S → S
  pub available_permits : S → ℕ
  pub is_closed : S → Bool

pub record SemaphoresHold {S : Type 0} (sem : Semaphores S) : Type 0 where
  pub permits-new : (n : ℕ) → sem.available_permits (sem.new n) ≡ n
  pub permits-acquired :
      (s t : S)
      → sem.acquire_owned s ≡ acquired t
      → sem.available_permits s ≡ suc (sem.available_permits t)
  pub permits-pending : (s : S) → sem.acquire_owned s ≡ pending → sem.available_permits s ≡ 0
  pub permits-drop :
      (s : S) → sem.available_permits (sem.drop_permit s) ≡ suc (sem.available_permits s)
  pub closed-new : (n : ℕ) → sem.is_closed (sem.new n) ≡ false
  pub closed-acquired :
      (s t : S) → sem.acquire_owned s ≡ acquired t → sem.is_closed t ≡ sem.is_closed s
  pub closed-drop : (s : S) → sem.is_closed (sem.drop_permit s) ≡ sem.is_closed s
  pub closed-closed : (s : S) → sem.acquire_owned s ≡ closed → sem.is_closed s ≡ true
