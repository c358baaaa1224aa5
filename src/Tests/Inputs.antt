-- ===== src/Tests/Inputs.antt =====
-- Messages, buffers and states for the tests.
use euthenia.Prelude.{List, [], ◌∷◌, Bool, ok, some, arith, refl}
use euthenia.Machine.Memory.{Memory, write}
use euthenia.Machine.Endian.{from_be}
use euthenia.Openflow.Header.{IsFrame}
use euthenia.Dispatcher.{Message, Callback, Dispatcher}
use euthenia.Session.Writer.{Writer}
use euthenia.Session.Writer
use euthenia.Monitor.{Monitor, Pc, Actions}
use euthenia.Proxy.{Net}

-- A bare OFPT_HELLO, an OFPT_PACKET_IN with two bytes of body, and a header that claims 4 bytes.
abbrev pub hello : Message
hello = 4 ∷ 0 ∷ 0 ∷ 8 ∷ 0 ∷ 0 ∷ 0 ∷ 1 ∷ []

abbrev pub packet : Message
packet = 4 ∷ 10 ∷ 0 ∷ 10 ∷ 0 ∷ 0 ∷ 0 ∷ 2 ∷ 7 ∷ 9 ∷ []

abbrev pub short : Message
short = 4 ∷ 0 ∷ 0 ∷ 4 ∷ 0 ∷ 0 ∷ 0 ∷ 1 ∷ []

pub hello-IsFrame : IsFrame hello
unfolding from_be
hello-IsFrame = record { bytes = omega arith; has_header = omega arith; counted = refl }

pub packet-IsFrame : IsFrame packet
unfolding from_be
packet-IsFrame = record { bytes = omega arith; has_header = omega arith; counted = refl }

-- Memory with 0xaa everywhere, and with a message from its start on.
abbrev pub stale : Memory
stale i = 0xaa

unfoldable pub holding : Message → Memory
unfolding write
holding message = write stale 0 message

-- A dispatcher whose callbacks collect the messages that reach them.
abbrev pub collect : Callback (List Message)
collect message log = ok (message ∷ log)

abbrev pub collecting : Dispatcher (List Message)
collecting = record { funs = []; default_callback = some collect }

abbrev pub watching : Monitor
watching = record {
  worker = Pc.resetting;
  counter = 5;
  sample_rate = 500;
  thresh_hold = 1;
  is_running = Bool.true;
}

abbrev pub quiet : Net
quiet = record { switch = Writer.init; controller = Writer.init }

abbrev pub collect_actions : Actions (List Message)
collect_actions = record { action = some (λ log. ok ([] ∷ log)); follow = some collect }
