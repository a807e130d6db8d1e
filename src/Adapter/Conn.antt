-- ===== src/Adapter/Conn.antt =====
-- redog-core/src/conn.rs: the methods of a tracked stream and of a tracked datagram, over those of
-- what they wrap, which are parameters.
use redog.Common.{ℕ, Text, List, [], ◌∷◌, ◌≡◌, refl, ap}
use redog.Common.Utf8.{Bytes}
use redog.Adapter.Outbound.{TrackedStream}
use redog.Core.Address.{SocketAddr}
use redog.Core.Error.{io, Result, ok, err}

-- `Poll`
pub data Poll (A : Type 0) : Type 0 where
  ready : A → Poll A
  pending : Poll A

-- `io::Result`; the error is its text.
pub data IoResult (A : Type 0) : Type 0 where
  done : A → IoResult A
  fails : Text → IoResult A

-- `AsyncRead` and `AsyncWrite`, for a context `X`. A read appends to its buffer.
pub record AsyncIo (X S : Type 0) : Type 0 where
  pub poll_read : X → Bytes → S → S × (Bytes × Poll (IoResult (Unit {0})))
  pub poll_write : X → Bytes → S → S × Poll (IoResult ℕ)
  pub poll_flush : X → S → S × Poll (IoResult (Unit {0}))
  pub poll_shutdown : X → S → S × Poll (IoResult (Unit {0}))

-- A method of the stream inside.
abbrev pub on_inner : {S A : Type 0} → (S → S × A) → TrackedStream S → TrackedStream S × A
on_inner f t = let (s, a) = f t.stream in (record t { stream = s }, a)

-- `chains`
unfoldable pub chains : {S : Type 0} → TrackedStream S → List Text
chains t = t.chains

-- `impl AsyncRead` and `impl AsyncWrite for TrackedStream`
unfoldable pub tracked_io : {X S : Type 0} → AsyncIo X S → AsyncIo X (TrackedStream S)
tracked_io inner = record {
  poll_read = λ cx buf. on_inner (inner.poll_read cx buf);
  poll_write = λ cx buf. on_inner (inner.poll_write cx buf);
  poll_flush = λ cx. on_inner (inner.poll_flush cx);
  poll_shutdown = λ cx. on_inner (inner.poll_shutdown cx);
}

-- The methods of `UdpSocket`.
pub record UdpSocket (D : Type 0) : Type 0 where
  pub send_to : Bytes → SocketAddr → D → IoResult ℕ
  pub recv_from : Bytes → D → Bytes × IoResult (ℕ × SocketAddr)

pub record TrackedDatagram (D : Type 0) : Type 0 where
  pub inner : D

unfoldable pub new_datagram : {D : Type 0} → D → TrackedDatagram D
new_datagram d = record { inner = d }

-- `?` on an `io::Result`
abbrev pub from_io : {A : Type 0} → IoResult A → Result A
from_io (done a) = ok a
from_io (fails e) = err (io e)

module _ {D : Type 0} (udp : UdpSocket D) where
  unfoldable pub send_to : Bytes → SocketAddr → TrackedDatagram D → Result ℕ
  send_to buf target t = from_io (udp.send_to buf target t.inner)

  unfoldable pub recv_from : Bytes → TrackedDatagram D → Bytes × Result (ℕ × SocketAddr)
  recv_from buf t = let (filled, r) = udp.recv_from buf t.inner in (filled, from_io r)

unfoldable pub close : {D : Type 0} → TrackedDatagram D → Result (Unit {0})
close t = ok tt

-- A call on a stream, and what it answers.
pub data StreamCall (X : Type 0) : Type 0 where
  reads writes : X → Bytes → StreamCall X
  flushes shuts : X → StreamCall X

pub data Answer : Type 0 where
  read : Bytes × Poll (IoResult (Unit {0})) → Answer
  wrote : Poll (IoResult ℕ) → Answer
  flushed shut : Poll (IoResult (Unit {0})) → Answer

abbrev tagged : {S A : Type 0} → (A → Answer) → S × A → S × Answer
tagged f (s, a) = (s, f a)

abbrev answer : {X S : Type 0} → AsyncIo X S → StreamCall X → S → S × Answer
answer ops (reads cx buf) s = tagged read (ops.poll_read cx buf s)
answer ops (writes cx buf) s = tagged wrote (ops.poll_write cx buf s)
answer ops (flushes cx) s = tagged flushed (ops.poll_flush cx s)
answer ops (shuts cx) s = tagged shut (ops.poll_shutdown cx s)

abbrev answers_of : {X S : Type 0} → AsyncIo X S → List (StreamCall X) → S → S × List Answer
answers_of ops [] s = (s, [])
answers_of ops (c ∷ cs) s =
    let (t, a) = answer ops c s in let (u, as') = answers_of ops cs t in (u, a ∷ as')

call_inner :
    {X S : Type 0} (inner : AsyncIo X S) (c : StreamCall X) (t : TrackedStream S)
    → answer (tracked_io inner) c t ≡ on_inner (answer inner c) t
unfolding tracked_io
call_inner inner (reads cx buf) t = refl
call_inner inner (writes cx buf) t = refl
call_inner inner (flushes cx) t = refl
call_inner inner (shuts cx) t = refl

-- Under any calls a tracked stream answers what the stream inside answers, and keeps its chains.
pub answers-inner :
    {X S : Type 0} (inner : AsyncIo X S) (cs : List (StreamCall X)) (t : TrackedStream S)
    → answers_of (tracked_io inner) cs t ≡ on_inner (answers_of inner cs) t
answers-inner inner [] t = refl
answers-inner inner (c ∷ cs) t =
    let (s, a) = answer inner c t.stream in
    rw (call_inner inner c t)
      (ap (λ p. (p.0, a ∷ p.1)) (answers-inner inner cs (record t { stream = s })))
