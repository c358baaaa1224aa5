-- ===== src/Session/Writer.antt =====
-- The writing side of a Session (Session.cpp): `write` posts the message to the io_service,
-- `write_in_io_thread` starts an `async_write` of it without waiting for the one before, and
-- `handle_write` only logs. The io_service and the socket choose what happens next: they are a
-- sequence of events.
pub mod Order
use euthenia.Prelude.{ℕ, zero, suc, Bool, true, false, List, [], ◌∷◌, ◌++◌, length, take, drop}
use euthenia.Dispatcher.{Message}

pub record Writer : Type 0 where
  -- Messages in the io_service's queue, oldest first.
  pub posted : List Message
  -- What each outstanding `async_write` has still to send, oldest first.
  pub in_flight : List (List ℕ)
  -- The bytes that the socket has taken.
  pub socket : List ℕ

abbrev pub init : Writer
init = record { posted = []; in_flight = []; socket = [] }

unfoldable pub write : Message → Writer → Writer
write message s = record s { posted = s.posted ++ message ∷ [] }

-- The io_service runs the oldest posted handler, if there is one.
unfoldable pub start_oldest : List Message → Writer → Writer
start_oldest [] s = s
start_oldest (message ∷ rest) s = record s {
  posted = rest;
  in_flight = s.in_flight ++ message ∷ [];
}

unfoldable pub write_in_io_thread : Writer → Writer
unfolding start_oldest
write_in_io_thread s = start_oldest s.posted s

-- The first `k` bytes left of the `i`-th outstanding write, and all that is left without them.
unfoldable pub sent_at : ℕ → ℕ → List (List ℕ) → List ℕ
sent_at i k [] = []
sent_at zero k (op ∷ ops) = take k op
sent_at (suc i) k (op ∷ ops) = sent_at i k ops

unfoldable pub left_at : ℕ → ℕ → List (List ℕ) → List (List ℕ)
left_at i k [] = []
left_at zero k (op ∷ ops) = drop k op ∷ ops
left_at (suc i) k (op ∷ ops) = op ∷ left_at i k ops

-- A write is over when nothing of it is left; `handle_write` changes nothing.
unfoldable pub over_at : ℕ → List (List ℕ) → List (List ℕ)
over_at i [] = []
over_at zero ([] ∷ ops) = ops
over_at zero ((b ∷ op) ∷ ops) = (b ∷ op) ∷ ops
over_at (suc i) (op ∷ ops) = op ∷ over_at i ops

-- A write that fails drops what is left of it; `handle_write` logs the error and goes on.
unfoldable pub failed_at : ℕ → List (List ℕ) → List (List ℕ)
failed_at i [] = []
failed_at zero (op ∷ ops) = ops
failed_at (suc i) (op ∷ ops) = op ∷ failed_at i ops

pub data Event : Type 0 where
  writes : Message → Event
  starts : Event
  sends : (i k : ℕ) → Event
  ends : (i : ℕ) → Event
  fails : (i : ℕ) → Event

unfoldable pub handle_write : Bool → ℕ → Writer → Writer
unfolding over_at failed_at
handle_write false i s = record s { in_flight = over_at i s.in_flight }
handle_write true i s = record s { in_flight = failed_at i s.in_flight }

unfoldable pub step : Event → Writer → Writer
unfolding write write_in_io_thread sent_at left_at handle_write
step (writes message) s = write message s
step starts s = write_in_io_thread s
step (sends i k) s = record s {
  in_flight = left_at i k s.in_flight;
  socket = s.socket ++ sent_at i k s.in_flight;
}
step (ends i) s = handle_write false i s
step (fails i) s = handle_write true i s

unfoldable pub run : List Event → Writer → Writer
run [] s = s
run (ev ∷ evs) s = run evs (step ev s)
