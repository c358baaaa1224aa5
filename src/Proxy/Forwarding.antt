-- ===== src/Proxy/Forwarding.antt =====
-- What the proxy does with each message of a peer, and with a stream of messages of the switch.
use euthenia.Prelude.{
  ℕ, ◌+◌, ◌*◌, ◌%◌, ◌<◌, ◌≡◌, refl, ◌∙◌, List, [], ◌∷◌, ◌++◌, append-nil, append_assoc, arith, ◌==◌,
  if◌then◌else◌, true, ok, length, All, concat,
}
use euthenia.Machine.Memory.{Memory}
use euthenia.Machine.Endian.{Endian}
use euthenia.Openflow.Header.{header_size, type_field, IsFrame}
use euthenia.Openflow.Types.{type_code, packet_in}
use euthenia.Dispatcher.{Message, dispatch, find, set_callback_on_message, set_default_callback}
use euthenia.Dispatcher.Routing.{target}
use euthenia.Session.{header, pump}
use euthenia.Session.Framing.{deliver, absorb_all, pump-frames}
use euthenia.Session.Writer.{Writer}
use euthenia.Session.Writer
use euthenia.Monitor.{Monitor, u32, on_message, add_counter}
use euthenia.Proxy.{
  Net, monitor_actions, dispatcher_from_switch, dispatcher_from_controller, dispatcher_from_ovs,
}

abbrev pub count_packet_in : List Message → ℕ
count_packet_in [] = 0
count_packet_in (f ∷ fs) =
    (if type_code packet_in == type_field f then 1 else 0) + count_packet_in fs

-- The messages posted to a session, after those that were.
abbrev pub post_all : List Message → Writer → Writer
post_all fs s = record s { posted = s.posted ++ fs }

pub post_all-write :
    (f : Message) (fs : List Message) (s : Writer)
    → post_all fs (Writer.write f s) ≡ post_all (f ∷ fs) s
unfolding Writer.write
post_all-write f fs s = rw (append_assoc s.posted (f ∷ []) fs)

-- The monitor after a message of the switch.
abbrev pub counted : Message → Monitor → Monitor
counted f s = if type_code packet_in == type_field f then add_counter s else s

module _ (e : Endian) (heap : Memory) where
  pub target_from_switch :
      (f : Message) (s : Monitor) (n : Net)
      → target (dispatcher_from_switch e heap) (type_field f) f (s, n)
        ≡ ok (counted f s, record n { controller = Writer.write f n.controller })
  unfolding dispatcher_from_switch set_callback_on_message set_default_callback dispatch find
      on_message monitor_actions
  target_from_switch f s n = ground arith

  counted-lt : (f : Message) (s : Monitor) → s.counter < u32 → (counted f s).counter < u32
  unfolding add_counter
  counted-lt f s small = ground arith

  add-counted :
      (f : Message) (s : Monitor) (k : ℕ)
      → record (counted f s) { counter = ((counted f s).counter + k) % u32 } ≡ record s {
        counter = (s.counter + ((if type_code packet_in == type_field f then 1 else 0) + k)) % u32;
      }
  unfolding add_counter
  add-counted f s k = ground arith

  deliver_from_switch :
      (fs : List Message) (s : Monitor) (n : Net)
      → s.counter < u32
      → deliver (dispatcher_from_switch e heap) fs (s, n)
        ≡ ok (
          record s { counter = (s.counter + count_packet_in fs) % u32 },
          record n { controller = post_all fs n.controller },
        )
  deliver_from_switch [] s n small =
      let same : (s.counter + 0) % u32 ≡ s.counter = omega arith in
      rw (same, append-nil n.controller.posted)
  deliver_from_switch (f ∷ fs) s n small = rw (target_from_switch f s n) (
      deliver_from_switch fs (counted f s) (record n { controller = Writer.write f n.controller })
        (counted-lt f s small)
      ∙ rw (add-counted f s (count_packet_in fs), post_all-write f fs n.controller) refl)

  -- Whatever whole messages the switch sends, the proxy posts the same bytes to the controller's
  -- session, message by message and in order; nothing goes back to the switch, and the monitor has counted the packet-in messages.
  pub pump_from_switch :
      (fuel : ℕ) (m : Memory) (s : Monitor) (n : Net) (fs : List Message) (rest : List ℕ)
      → All IsFrame fs
      → length rest < header_size
      → 2 * length fs < fuel
      → s.counter < u32
      → pump e
          (dispatcher_from_switch e heap)
          fuel
          (record { buffer = m; pending = header })
          (s, n)
          (concat fs ++ rest)
        ≡ ok (
          record { buffer = absorb_all m fs; pending = header },
          (
            record s { counter = (s.counter + count_packet_in fs) % u32 },
            record n { controller = post_all fs n.controller },
          ),
          rest,
        )
  pump_from_switch fuel m s n fs rest frames short enough small =
      pump-frames e (dispatcher_from_switch e heap) fuel m (s, n) fs rest frames short enough
      ∙ rw (deliver_from_switch fs s n small) refl

pub target_from_ovs :
    (f : Message) (s : Monitor) (n : Net)
    → target (dispatcher_from_ovs true) (type_field f) f (s, n)
      ≡ ok (s, record n { controller = Writer.write f n.controller })
unfolding dispatcher_from_ovs set_default_callback dispatch find
target_from_ovs f s n = refl

pub target_from_controller :
    (f : Message) (s : Monitor) (n : Net)
    → target dispatcher_from_controller (type_field f) f (s, n)
      ≡ ok (s, record n { switch = Writer.write f n.switch })
unfolding dispatcher_from_controller set_default_callback dispatch find
target_from_controller f s n = refl
