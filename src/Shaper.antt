-- ===== src/Shaper.antt =====
-- OFPShaper.h: a shaper between a source and a destination of messages, of which only the frame is written: what
-- is called of it, and its thread, as steps.
use euthenia.Prelude.{ℕ, ◌≡◌, refl, Bool, true, false, List, [], ◌∷◌, ◌&&◌, if◌then◌else◌, arith}
use euthenia.Dispatcher.{Message}

-- Where the thread is in `process_`: not created, before it takes the lock, before it looks at `is_acked_`, or in
-- `cv_.wait`.
pub data Pc : Type 0 where
  absent : Pc
  locking : Pc
  checking : Pc
  waiting : Pc

-- The two functions are told only by whether they are set.
pub record OfpShaper : Type 0 where
  pub shape_rate : ℕ
  pub source : Bool
  pub dest : Bool
  pub shaper : Pc
  pub is_acked : Bool

unfoldable pub new_shaper : ℕ → OfpShaper
new_shaper shape_rate = record {
  shape_rate = shape_rate;
  source = false;
  dest = false;
  shaper = absent;
  is_acked = true;
}

-- The body is empty; `dest` tells whether the function that it is given is not.
unfoldable pub set_dest : (dest : Bool) → OfpShaper → OfpShaper
set_dest dest s = s

unfoldable pub set_source : (source : Bool) → OfpShaper → OfpShaper
set_source source s = record s { source = source }

unfoldable pub start_shaper : OfpShaper → Bool × OfpShaper
start_shaper s = if s.source && s.dest then (true, record s { shaper = locking }) else (false, s)

-- A thread that waits goes on to look at `is_acked_` again.
unfoldable pub woken : Pc → Pc
woken waiting = checking
woken pc = pc

unfoldable pub on_ack : Message → OfpShaper → OfpShaper
unfolding woken
on_ack message s = record s { shaper = woken s.shaper }

-- One step of `process_`: the lock is taken, `is_acked_` is looked at, and at the end of the outer loop's body the lock
-- is given back. A thread that waits may wake without cause.
unfoldable pub process_at : Pc → (is_acked : Bool) → Pc
process_at absent is_acked = absent
process_at locking is_acked = checking
process_at checking is_acked = if is_acked then locking else waiting
process_at waiting is_acked = checking

unfoldable pub process : OfpShaper → OfpShaper
unfolding process_at
process s = record s { shaper = process_at s.shaper s.is_acked }

pub data Operation : Type 0 where
  sets_dest : Bool → Operation
  sets_source : Bool → Operation
  starts : Operation
  acks : Message → Operation
  works : Operation

unfoldable pub apply : Operation → OfpShaper → OfpShaper
unfolding set_dest set_source start_shaper on_ack process
apply (sets_dest b) s = set_dest b s
apply (sets_source b) s = set_source b s
apply starts s = (start_shaper s).1
apply (acks m) s = on_ack m s
apply works s = process s

unfoldable pub run : List Operation → OfpShaper → OfpShaper
unfolding apply
run [] s = s
run (op ∷ rest) s = run rest (apply op s)

refused : (s : OfpShaper) → s.dest ≡ false → start_shaper s ≡ (false, s)
unfolding start_shaper
refused s h = ground (arith, h)

-- There is no destination and no thread.
pub record Idle (s : OfpShaper) : Type 0 where
  pub no_dest : s.dest ≡ false
  pub no_thread : s.shaper ≡ absent

start-Idle : (s : OfpShaper) → Idle s → Idle (start_shaper s).1
start-Idle s h = rw (refused s h.no_dest) h

apply-Idle : (op : Operation) (s : OfpShaper) → Idle s → Idle (apply op s)
unfolding apply
apply-Idle (sets_dest b) s h = h
apply-Idle (sets_source b) s h = record { no_dest = h.no_dest; no_thread = h.no_thread }
apply-Idle starts s h = start-Idle s h
apply-Idle (acks m) s h = record { no_dest = h.no_dest; no_thread = rw (h.no_thread) refl }
apply-Idle works s h = record { no_dest = h.no_dest; no_thread = rw (h.no_thread) refl }

run-Idle : (operations : List Operation) (s : OfpShaper) → Idle s → Idle (run operations s)
unfolding run
run-Idle [] s h = h
run-Idle (op ∷ rest) s h = run-Idle rest (apply op s) (apply-Idle op s h)

-- Whatever was called before, with whatever source and destination, a shaper refuses to start, and no thread runs.
pub start_shaper-run :
    (shape_rate : ℕ) (operations : List Operation)
    → ((start_shaper (run operations (new_shaper shape_rate))).0 ≡ false)
      × ((start_shaper (run operations (new_shaper shape_rate))).1.shaper ≡ absent)
unfolding new_shaper
start_shaper-run shape_rate operations =
    let idle =
      run-Idle operations (new_shaper shape_rate) (record { no_dest = refl; no_thread = refl }) in
    rw (refused (run operations (new_shaper shape_rate)) idle.no_dest) (refl, idle.no_thread)
