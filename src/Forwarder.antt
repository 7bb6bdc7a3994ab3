-- ===== src/Forwarder.antt =====
-- internal/forwarder/forwarder.go: `Proxy`, two copying goroutines that it waits for. What a connection
-- gives and takes is decided outside: a run is the sequence of the steps of both goroutines, in any
-- interleaving.
pub mod Delivery
pub mod HalfClose
use sidero_proxy.Base.{
  ℕ, ◌≡◌, ◌≤◌, ◌<◌, Bool, true, false, ◌&&◌, List, [], ◌∷◌, ◌++◌, length, take, drop, if◌then◌else◌,
  Bytes,
}

-- A goroutine is in `io.Copy`, or that has come back with or without the end of the stream, or it has
-- closed its destination as well and called `wg.Done`.
pub data Phase : Type 0 where
  copying : Phase
  copied : (clean : Bool) → Phase
  returned : (clean : Bool) → Phase

-- The destination of a goroutine: `CloseWrite` closes one side of it, `Close` both.
pub data Destination : Type 0 where
  writable write_closed closed : Destination

-- One call of `pipe`: the bytes that its source still has before the end of the stream, and those that
-- its destination took; whether the source can be read, which ends when the other goroutine closes it.
pub record Pipe : Type 0 where
  pub unread : Bytes
  pub delivered : Bytes
  pub phase : Phase
  pub destination : Destination
  pub source_is_readable : Bool
  pub is_tcp : Bool

-- A step of one goroutine. `io.Copy` reads some bytes and writes them all; or its read finds the end; or
-- a read or a write fails, when it has taken some bytes and written the first of them.
pub data PipeStep : Type 0 where
  copies : (n : ℕ) → PipeStep
  ends : PipeStep
  fails : (taken written : ℕ) → PipeStep
  closes : PipeStep

-- When a goroutine can take a step.
abbrev pub Can : PipeStep → Pipe → Type 0
Can (copies n) p =
    (p.phase ≡ copying) × (p.source_is_readable ≡ true) × (0 < n) × (n ≤ length p.unread)
Can ends p = (p.phase ≡ copying) × (p.source_is_readable ≡ true) × (p.unread ≡ [])
Can (fails taken written) p =
    (p.phase ≡ copying)
    × (written ≤ taken)
    × (taken ≤ length p.unread)
    × (p.source_is_readable ≡ false → taken ≡ 0)
Can closes p = (clean : Bool) × (p.phase ≡ copied clean)

abbrev pub closed_phase : Phase → Phase
closed_phase copying = copying
closed_phase (copied clean) = returned clean
closed_phase (returned clean) = returned clean

-- What a step does to the goroutine and its destination.
unfoldable pub advance : PipeStep → Pipe → Pipe
advance (copies n) p = record p {
  unread = drop n p.unread;
  delivered = p.delivered ++ take n p.unread;
}
advance ends p = record p { phase = copied true }
advance (fails taken written) p = record p {
  unread = drop taken p.unread;
  delivered = p.delivered ++ take written p.unread;
  phase = copied false;
}
advance closes p = record p {
  phase = closed_phase p.phase;
  destination = if p.is_tcp then write_closed else closed;
}

-- What a step of the first goroutine does to the second, which reads from the first one's destination.
unfoldable pub beside : PipeStep → Pipe → Pipe → Pipe
beside closes p q = record q { source_is_readable = p.is_tcp && q.source_is_readable }
beside (copies n) p q = q
beside ends p q = q
beside (fails taken written) p q = q

-- From the client to the backend, and back.
pub record Forwarding : Type 0 where
  pub up : Pipe
  pub down : Pipe

pub data Step : Type 0 where
  up_step : PipeStep → Step
  down_step : PipeStep → Step

unfoldable pub move : Step → Forwarding → Forwarding
unfolding advance beside
move (up_step e) f = record { up = advance e f.up; down = beside e f.up f.down }
move (down_step e) f = record { up = beside e f.down f.up; down = advance e f.down }

abbrev pub CanMove : Step → Forwarding → Type 0
CanMove (up_step e) f = Can e f.up
CanMove (down_step e) f = Can e f.down

unfoldable pub run : List Step → Forwarding → Forwarding
unfolding move
run [] f = f
run (e ∷ es) f = run es (move e f)

-- Every step of the sequence can be taken when its turn comes.
unfoldable pub IsRun : List Step → Forwarding → Type 0
unfolding move
IsRun [] f = Unit
IsRun (e ∷ es) f = CanMove e f × IsRun es (move e f)

abbrev started_pipe : Bytes → Bool → Pipe
started_pipe stream tcp = record {
  unread = stream;
  delivered = [];
  phase = copying;
  destination = writable;
  source_is_readable = true;
  is_tcp = tcp;
}

-- `Proxy` when both goroutines have been started: the bytes that the client and the backend send, and
-- whether each of the two is a TCP connection.
unfoldable pub proxied :
    (from_client from_backend : Bytes) (client_tcp backend_tcp : Bool) → Forwarding
proxied from_client from_backend client_tcp backend_tcp = record {
  up = started_pipe from_client backend_tcp;
  down = started_pipe from_backend client_tcp;
}

abbrev pub is_returned : Phase → Bool
is_returned copying = false
is_returned (copied clean) = false
is_returned (returned clean) = true

-- `wg.Wait()` is over.
abbrev pub has_returned : Forwarding → Bool
has_returned f = is_returned (Pipe.phase f.up) && is_returned (Pipe.phase f.down)
