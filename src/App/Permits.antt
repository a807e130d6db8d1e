-- ===== src/App/Permits.antt =====
-- The main loop's permits: how many handlers run at once, and that each has been paid for.
use redog.Common.{
  ℕ, Bool, ◌≡◌, ◌≤◌, ◌+◌, refl, ◌∙◌, true, false, Text, List, [], ◌∷◌, Option, none, some, arith,
  if◌then◌else◌, inl, inr, Option-cases, length, zero, suc,
}
use redog.App.Libs.{
  Channels, Received, item, empty, disconnected, Semaphores, SemaphoresHold, Acquired, acquired,
  pending, closed,
}
use redog.App.Dispatch.{
  Program, Event, arrives, all_stop, loops, opens, ends, clears, reads, pick, start, received,
  dispatched, main_loop, opened, open_event, end_event, sent, step, run, max_concurrent_connections,
}
use redog.Core.Address.{IpAddr}
use redog.Core.Adapter.{ProxyAdapter}
use redog.Core.Error.{Result}
use redog.Core.Metadata.{Metadata}
use redog.Core.Rule.{Rule}
use redog.Tunnel.Handler.{open_connection}
use redog.Tunnel.Leaks
use redog.Tunnel.Leaks.{System, Reach, here, next, Held, Reach-no_leak, has}
use redog.Tunnel.Routing.{Tunnel, new}
use redog.Tunnel.Counting.{Reach-length, length-without}

length-pick :
    {A : Type 0} (n : ℕ) (xs ys : List A) (y : A)
    → pick n xs ≡ some (y, ys)
    → length xs ≡ suc (length ys)
length-pick n [] ys y e = ground (arith, e)
length-pick zero (x ∷ xs) ys y e = ground (arith, e)
length-pick (suc n) (x ∷ xs) ys y e = elim (Option-cases (pick n xs)) [
  | inl nothing ↦ ground (arith, e)
  | inr ((z, zs), found) ↦
      let whole : some (z, x ∷ zs) ≡ some (y, ys) = rw found at e in
      ground (arith, length-pick n xs zs z found, whole)
]

-- What holds of both branches holds of a choice.
if-Keeps :
    {A : Type 0} (K : A → Type 0) (b : Bool) (x y : A)
    → (b ≡ true → K x)
    → (b ≡ false → K y)
    → K (if b then x else y)
if-Keeps K true x y f g = f refl
if-Keeps K false x y f g = g refl

-- The handlers that run.
abbrev pub running : {Q P S D : Type 0} → Program Q P S D → ℕ
running p = length p.starting + length p.system.live

module _ {Q P S D : Type 0} (ch : Channels Metadata Q) (sem : Semaphores P)
    (show_ip : IpAddr → Text) (show_port : ℕ → Text) (fallback : ProxyAdapter S D) where
  -- The permits are those that are free and those of the running handlers, and the tunnel is one
  -- that handlers have made from a first one.
  pub record Paid (first : System S D) (p : Program Q P S D) : Type 0 where
    pub permits : sem.available_permits p.semaphore + running p ≡ max_concurrent_connections
    pub usable : sem.is_closed p.semaphore ≡ false
    pub reached : Reach show_ip show_port fallback first p.system

  module _ (h : SemaphoresHold sem) {first : System S D} where
    received-Paid :
        (p : Program Q P S D) (r : Received Metadata Q) → Paid first p → Paid first (received p r)
    received-Paid p (item c rx) v = record {
      permits = v.permits;
      usable = v.usable;
      reached = v.reached;
    }
    received-Paid p empty v = v
    received-Paid p disconnected v = record {
      permits = v.permits;
      usable = v.usable;
      reached = v.reached;
    }

    dispatched-Paid :
        (c : Metadata) (p : Program Q P S D) (a : Acquired P)
        → sem.acquire_owned p.semaphore ≡ a
        → Paid first p
        → Paid first (dispatched c p a)
    dispatched-Paid c p (acquired s) e v = record {
      permits = omega (arith, v.permits, h.permits-acquired p.semaphore s e);
      usable = h.closed-acquired p.semaphore s e ∙ v.usable;
      reached = v.reached;
    }
    dispatched-Paid c p pending e v = v
    dispatched-Paid c p closed e v =
        absurd (ground (arith, h.closed-closed p.semaphore e, v.usable))

    main_loop-Paid : (p : Program Q P S D) → Paid first p → Paid first (main_loop ch sem p)
    unfolding main_loop
    main_loop-Paid p v =
        if-Keeps (Paid first) p.over p _ (λ e. v)
          λ e. elim (Option-cases p.conn) [
            | inl n ↦ simp n (received-Paid p (ch.recv p.rx) v)
            | inr (c, s) ↦ simp s (dispatched-Paid c p (sem.acquire_owned p.semaphore) refl v)
          ]

    opened-Paid :
        (now : ℕ) (m : Metadata) (others : List Metadata) (p : Program Q P S D)
        (o : Tunnel S D × Option (ℕ × S))
        → open_connection show_ip show_port fallback now m p.system.tunnel ≡ o
        → length p.starting ≡ suc (length others)
        → Paid first p
        → Paid first (opened sem others p o)
    opened-Paid now m others p (t, none) e l v = record {
      permits = omega (arith, v.permits, l, h.permits-drop p.semaphore);
      usable = h.closed-drop p.semaphore ∙ v.usable;
      reached = next v.reached (Leaks.refused p.system now m t e);
    }
    opened-Paid now m others p (t, some (id, remote)) e l v = record {
      permits = omega (arith, v.permits, l);
      usable = v.usable;
      reached = next v.reached (Leaks.opens p.system now m t id remote e);
    }

    end_event-Paid :
        (id : ℕ) (relayed : Result (ℕ × ℕ)) (p : Program Q P S D)
        → has id p.system.live ≡ true
        → Paid first p
        → Paid first (end_event sem id relayed p)
    unfolding end_event
    end_event-Paid id relayed p held v = record {
      permits =
          omega
            (arith, v.permits, h.permits-drop p.semaphore, length-without id p.system.live held);
      usable = h.closed-drop p.semaphore ∙ v.usable;
      reached = next v.reached (Leaks.ends p.system id relayed held);
    }

    picked-Paid :
        (now : ℕ) (p : Program Q P S D) (found : Option (Metadata × List Metadata))
        → ((m : Metadata) (others : List Metadata)
            → found ≡ some (m, others)
            → length p.starting ≡ suc (length others))
        → Paid first p
        → Paid first (elim found [
          | none ↦ p
          | some (m, others) ↦ open_event sem show_ip show_port fallback now m others p
        ])
    unfolding open_event
    picked-Paid now p none l v = v
    picked-Paid now p (some (m, others)) l v = opened-Paid now m others p _ refl (l m others refl) v

    sent-Paid : (p : Program Q P S D) (o : Option Q) → Paid first p → Paid first (sent p o)
    sent-Paid p none v = v
    sent-Paid p (some rx) v = record { permits = v.permits; usable = v.usable; reached = v.reached }

    pub step-Paid :
        (e : Event) (p : Program Q P S D)
        → Paid first p
        → Paid first (step ch sem show_ip show_port fallback e p)
    unfolding step
    step-Paid (arrives m) p v =
        if-Keeps (Paid first) p.over p _ (λ e. v) (λ e. sent-Paid p (ch.send m p.rx) v)
    step-Paid all_stop p v = record { permits = v.permits; usable = v.usable; reached = v.reached }
    step-Paid loops p v = main_loop-Paid p v
    step-Paid (opens n now) p v =
        picked-Paid now p (pick n p.starting) (λ m others e. length-pick n p.starting others m e) v
    step-Paid (ends id relayed) p v =
        if-Keeps (Paid first) (has id p.system.live) _ p (λ e. end_event-Paid id relayed p e v)
          (λ e. v)
    step-Paid clears p v = record {
      permits = v.permits;
      usable = v.usable;
      reached = next v.reached (Leaks.clears _);
    }
    step-Paid reads p v = record {
      permits = v.permits;
      usable = v.usable;
      reached = next v.reached (Leaks.reads _);
    }

    pub run-Paid :
        (es : List Event) (p : Program Q P S D)
        → Paid first p
        → Paid first (run ch sem show_ip show_port fallback es p)
    unfolding run
    run-Paid [] p v = v
    run-Paid (e ∷ es) p v = run-Paid es _ (step-Paid e p v)

  pub start-Paid :
      SemaphoresHold sem
      → (proxies : List (Text × ProxyAdapter S D)) (rules : List Rule)
      → Paid (record { tunnel = new proxies rules; live = [] }) (start ch sem proxies rules)
  unfolding start
  start-Paid h proxies rules = record {
    permits = omega (arith, h.permits-new max_concurrent_connections);
    usable = h.closed-new max_concurrent_connections;
    reached = here;
  }

  -- The limits that a program keeps: its permits are the free ones and one for each running handler,
  -- so at most 4096 handlers run; no more connections are tracked than handlers run, and each tracked
  -- id is held by one; a connection that was received waits for a permit only while 4096 run.
  pub record Limited (p : Program Q P S D) : Type 0 where
    permits : sem.available_permits p.semaphore + running p ≡ max_concurrent_connections
    bounded : running p ≤ max_concurrent_connections
    tracked : length p.system.tunnel.connections.connections ≤ running p
    held : Held show_ip show_port fallback p.system
    waits : sem.acquire_owned p.semaphore ≡ pending → running p ≡ max_concurrent_connections

  -- A started program keeps the limits, whatever its listeners, handlers and the API do, and in
  -- whatever order, over a semaphore that does what is documented.
  pub run-Limited :
      SemaphoresHold sem
      → (proxies : List (Text × ProxyAdapter S D)) (rules : List Rule) (es : List Event)
      → Limited (run ch sem show_ip show_port fallback es (start ch sem proxies rules))
  run-Limited h proxies rules es =
      let p = run ch sem show_ip show_port fallback es (start ch sem proxies rules) in
      let v : Paid (record { tunnel = new proxies rules; live = [] }) p =
        run-Paid h es _ (start-Paid h proxies rules) in
      record {
        permits = v.permits;
        bounded = omega (arith, v.permits);
        tracked = omega (arith, Reach-length show_ip show_port fallback proxies rules v.reached);
        held = (Reach-no_leak show_ip show_port fallback proxies rules v.reached).0;
        waits = λ e. omega (arith, v.permits, h.permits-pending p.semaphore e);
      }
