-- ===== src/Proxy/Events.antt =====
-- The proxy under its io_service and the monitor's thread: what may happen after `io_service.run()` of eproxy.cpp.
use euthenia.Prelude.{ℕ, Bool, Option, none, some, List, [], ◌∷◌, Result, ok, ◌>>=◌}
use euthenia.Machine.Memory.{Memory}
use euthenia.Machine.Endian.{Endian}
use euthenia.Session.Linked.{Linked, completes}
use euthenia.Session.Writer.{Writer}
use euthenia.Session.Writer
use euthenia.Monitor.{Monitor, clear}
use euthenia.Proxy.{Net, System, monitor_actions}

-- What the io_service and a socket do for a writing side.
pub data Io : Type 0 where
  starts : Io
  sends : (i k : ℕ) → Io
  ends : (i : ℕ) → Io
  fails : (i : ℕ) → Io

abbrev pub event : Io → Writer.Event
event starts = Writer.starts
event (sends i k) = Writer.sends i k
event (ends i) = Writer.ends i
event (fails i) = Writer.fails i

-- A read of a session completes, a writing side moves on, or the monitor's thread takes a step, in which a new
-- buffer holds `heap`.
pub data Event : Type 0 where
  switch_reads : (error : Bool) (bytes : List ℕ) → Event
  controller_reads : (error : Bool) (bytes : List ℕ) → Event
  ovs_reads : (error : Bool) (bytes : List ℕ) → Event
  switch_io : Io → Event
  controller_io : Io → Event
  monitor_works : (heap : Memory) → Event

module _ (e : Endian) where
  -- A session without OVS_ASSIST is none, and reads nothing.
  unfoldable pub ovs_completes :
      Option (Linked (Monitor × Net)) → (error : Bool) (bytes : List ℕ) → System → Result System
  unfolding completes
  ovs_completes none error bytes s = ok s
  ovs_completes (some r) error bytes s = completes e error bytes r (s.monitor, s.net) >>= λ t.
      ok (record s { ovs_session = some t.0; monitor = t.1.0; net = t.1.1 })

  unfoldable pub step : Event → System → Result System
  unfolding completes ovs_completes clear Writer.step
  step (switch_reads error bytes) s =
      completes e error bytes s.s_session (s.monitor, s.net) >>= λ t.
      ok (record s { s_session = t.0; monitor = t.1.0; net = t.1.1 })
  step (controller_reads error bytes) s =
      completes e error bytes s.c_session (s.monitor, s.net) >>= λ t.
      ok (record s { c_session = t.0; monitor = t.1.0; net = t.1.1 })
  step (ovs_reads error bytes) s = ovs_completes s.ovs_session error bytes s
  step (switch_io io) s =
      ok (record s { net = record s.net { switch = Writer.step (event io) s.net.switch } })
  step (controller_io io) s =
      ok (record s { net = record s.net { controller = Writer.step (event io) s.net.controller } })
  step (monitor_works heap) s = clear (monitor_actions e heap) (s.monitor, s.net) >>= λ t.
      ok (record s { monitor = t.0; net = t.1 })

  unfoldable pub run : List Event → System → Result System
  unfolding step
  run [] s = ok s
  run (ev ∷ evs) s = step ev s >>= run evs
