-- ===== src/Monitor.antt =====
-- PacketInMonitor.h: a counter of packet-in messages, and a thread that compares it with a threshold
-- once in every sample period and runs an action if it is reached. The counter is atomic, so the
-- callbacks and the thread are a sequence of steps; `W` is what the bound actions act on.
pub mod Windows
pub mod Stopping
pub mod Budget
use euthenia.Prelude.{
  ℕ, suc, ◌+◌, ◌-◌, ◌%◌, ◌^◌, Bool, true, false, Option, none, some, List, [], ◌∷◌, leb, ltb,
  if◌then◌else◌, Result, ok, fault, bad_function_call, ◌>>=◌,
}
use euthenia.Prelude.Int.{ℤ, pos, negsuc}
use euthenia.Dispatcher.{Message, Callback, call}

-- Where the thread stands in `clear`. `absent` is a null `worker`; `finished` is a thread that has
-- left its loop, whose pointer is never cleared.
pub data Pc : Type 0 where
  absent : Pc
  testing : Pc
  resetting : Pc
  sleeping : Pc
  comparing : Pc
  acting : Pc
  finished : Pc

pub record Monitor : Type 0 where
  pub worker : Pc
  pub counter : ℕ
  pub sample_rate : ℕ
  pub thresh_hold : ℕ
  pub is_running : Bool

-- `action_` and `follow_`
pub record Actions (W : Type 0) : Type 0 where
  pub action : Option (W → Result W)
  pub follow : Option (Callback W)

abbrev pub u32 : ℕ
u32 = 2 ^ 32

-- The constructor.
abbrev pub init : (sample_rate threshold : ℕ) → Monitor
init sample_rate threshold = record {
  worker = absent;
  counter = 0;
  sample_rate = sample_rate;
  thresh_hold = threshold;
  is_running = true;
}

abbrev pub started : Pc → Pc
started absent = testing
started p = p

unfoldable pub start : Monitor → Monitor
start s = record s { worker = started s.worker }

unfoldable pub add_counter : Monitor → Monitor
add_counter s = record s { counter = (s.counter + 1) % u32 }

-- `atomic_uint` to `int`: from 2^31 on the number is negative.
unfoldable pub get_counter : Monitor → ℤ
get_counter s = if ltb s.counter (2 ^ 31) then pos s.counter else negsuc (2 ^ 32 - s.counter - 1)

unfoldable pub set_sample_rate : ℕ → Monitor → Monitor
set_sample_rate rate s = record s { sample_rate = rate }

unfoldable pub stop : Monitor → Monitor
stop s = record s { is_running = false }

-- What may happen: a packet-in message comes, the thread takes a step, `stop` is called.
pub data Event : Type 0 where
  packet : Message → Event
  works : Event
  stops : Event

module _ {W : Type 0} where
  abbrev pub set_trigger_action : Option (W → Result W) → Actions W → Actions W
  set_trigger_action f a = record a { action = f }

  abbrev pub set_follow_action : Option (Callback W) → Actions W → Actions W
  set_follow_action f a = record a { follow = f }

  unfoldable pub on_message : Actions W → Message → Monitor × W → Result (Monitor × W)
  unfolding add_counter
  on_message a message (s, w) =
      let s' = add_counter s in call a.follow message w >>= λ w'. ok (s', w')

  -- `action_()`
  abbrev pub run_action : Option (W → Result W) → W → Result W
  run_action none w = fault bad_function_call
  run_action (some f) w = f w

  -- One step of `clear`. The end of `sleeping` is the timer's, at any time after the sample period.
  unfoldable pub clear_at : Pc → Actions W → Monitor × W → Result (Monitor × W)
  clear_at absent a (s, w) = ok (s, w)
  clear_at testing a (s, w) =
      ok (record s { worker = if s.is_running then resetting else finished }, w)
  clear_at resetting a (s, w) = ok (record s { counter = 0; worker = sleeping }, w)
  clear_at sleeping a (s, w) = ok (record s { worker = comparing }, w)
  clear_at comparing a (s, w) =
      ok (record s { worker = if leb s.thresh_hold s.counter then acting else testing }, w)
  clear_at acting a (s, w) = run_action a.action w >>= λ w'. ok (record s { worker = testing }, w')
  clear_at finished a (s, w) = ok (s, w)

  unfoldable pub clear : Actions W → Monitor × W → Result (Monitor × W)
  unfolding clear_at
  clear a (s, w) = clear_at s.worker a (s, w)

  unfoldable pub step : Actions W → Event → Monitor × W → Result (Monitor × W)
  unfolding on_message clear stop
  step a (packet message) s = on_message a message s
  step a works s = clear a s
  step a stops (s, w) = ok (stop s, w)

  unfoldable pub run : Actions W → List Event → Monitor × W → Result (Monitor × W)
  unfolding step
  run a [] s = ok s
  run a (ev ∷ evs) s = step a ev s >>= run a evs
