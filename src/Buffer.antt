-- ===== src/Buffer.antt =====
-- OFPBuffer.h: a queue between threads, and what a call does while it holds the mutex. Buffer/Waiting.antt has the
-- threads that wait, and the notification, which `pushBack` sends after it has given the mutex back.
pub mod Fifo
pub mod Waiting
use euthenia.Prelude.{
  ℕ, Bool, true, false, Option, none, some, List, [], ◌∷◌, ◌++◌, length, Result, ok, fault,
  out_of_bounds, ◌>>=◌, if◌then◌else◌,
}
use euthenia.Dispatcher.{Message}

pub record OfpBuffer : Type 0 where
  pub is_empty : Bool
  pub buffer : List Message

unfoldable pub new_buffer : OfpBuffer
new_buffer = record { is_empty = true; buffer = [] }

unfoldable pub push_back : Message → OfpBuffer → OfpBuffer
push_back message b = record { is_empty = false; buffer = b.buffer ++ message ∷ [] }

-- `buffer_.front()` and `buffer_.pop()`, which are undefined on an empty queue.
unfoldable pub front_and_pop : List Message → OfpBuffer → Result (Option Message × OfpBuffer)
front_and_pop [] b = fault out_of_bounds
front_and_pop (m ∷ ms) b = ok (some m, record b { buffer = ms })

-- `none`: the caller goes on waiting.
unfoldable pub get_front : OfpBuffer → Result (Option Message × OfpBuffer)
unfolding front_and_pop
get_front b = if b.is_empty then ok (none, b) else front_and_pop b.buffer b

unfoldable pub get_size : OfpBuffer → ℕ
get_size b = length b.buffer

-- A call of either operation, by whatever thread.
pub data Call : Type 0 where
  pushes : Message → Call
  gets : Call

-- What a call hands out: a message, or nothing.
abbrev pub given : Option Message → List Message → List Message
given none ms = ms
given (some m) ms = m ∷ ms

-- The messages handed out, in order, and the buffer after the calls.
unfoldable pub run : List Call → OfpBuffer → Result (List Message × OfpBuffer)
unfolding push_back get_front
run [] b = ok ([], b)
run (pushes m ∷ calls) b = run calls (push_back m b)
run (gets ∷ calls) b = get_front b >>= λ r. run calls r.1 >>= λ s. ok (given r.0 s.0, s.1)
