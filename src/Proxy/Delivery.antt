-- ===== src/Proxy/Delivery.antt =====
-- From the switch's bytes to the bytes on the controller's socket: both sides of a session and the proxy's
-- wiring together.
use euthenia.Prelude.{
  ℕ, ◌*◌, ◌<◌, ◌≡◌, refl, ap, ◌∙◌, List, [], ◌∷◌, ◌++◌, append-nil, append_assoc, take, drop,
  take_all, drop_all, Result, ok, ◌>>=◌, length, All, concat,
}
use euthenia.Machine.Memory.{Memory}
use euthenia.Machine.Endian.{Endian}
use euthenia.Openflow.Header.{header_size, IsFrame}
use euthenia.Dispatcher.{Message}
use euthenia.Session.{header, pump}
use euthenia.Session.Writer.{
  Writer, Event, starts, sends, ends, run, step, write_in_io_thread, start_oldest, sent_at, left_at,
  over_at, handle_write,
}
use euthenia.Session.Writer
use euthenia.Session.Writer.Order.{Serial, written, stream, run-stream}
use euthenia.Monitor.{Monitor, u32}
use euthenia.Proxy.{dispatcher_from_switch}
use euthenia.Proxy.Forwarding.{post_all, pump_from_switch}

-- The events of an io_service that starts each write, has it sent whole, and ends it.
abbrev pub drain : List Message → List Event
drain [] = []
drain (m ∷ ms) = starts ∷ sends 0 (length m) ∷ ends 0 ∷ drain ms

-- A session with nothing outstanding.
abbrev resting : List ℕ → List Message → Writer
resting socket posted = record { posted = posted; in_flight = []; socket = socket }

-- An outstanding write is sent whole and ended.
pub one_sent :
    (m : Message) (ms : List Message) (socket : List ℕ)
    → step
        (ends 0)
        (step (sends 0 (length m)) (record { posted = ms; in_flight = m ∷ []; socket = socket }))
      ≡ resting (socket ++ m) ms
unfolding step sent_at left_at handle_write over_at
one_sent m ms socket = done (take (length m) m) (drop (length m) m) (take_all m) (drop_all m)
  where
    done :
        (sent left : List ℕ)
        → sent ≡ m
        → left ≡ []
        → record { posted = ms; in_flight = over_at 0 (left ∷ []); socket = socket ++ sent }
          ≡ resting (socket ++ m) ms
    done sent left es el = rw (es, el) refl

one_drained :
    (m : Message) (ms : List Message) (socket : List ℕ)
    → step (ends 0) (step (sends 0 (length m)) (step starts (resting socket (m ∷ ms))))
      ≡ resting (socket ++ m) ms
one_drained m ms socket =
    ap (λ w. step (ends 0) (step (sends 0 (length m)) w)) begun ∙ one_sent m ms socket
  where
    begun :
        step starts (resting socket (m ∷ ms))
        ≡ record { posted = ms; in_flight = m ∷ []; socket = socket }
    begun = unfold step write_in_io_thread start_oldest in refl

pub run-drain :
    (ms : List Message) (socket : List ℕ)
    → run (drain ms) (resting socket ms) ≡ resting (socket ++ concat ms) []
unfolding run
run-drain [] socket = rw (append-nil socket) refl
run-drain (m ∷ ms) socket =
    ap (run (drain ms)) (one_drained m ms socket)
    ∙ run-drain ms (socket ++ m)
    ∙ ap (λ xs. resting xs []) (append_assoc socket m (concat ms))

module _ (e : Endian) (heap : Memory) where
  -- The writing side to the controller after the switch has sent `rx` to the reading side.
  abbrev pub after_switch :
      (fuel : ℕ) → Memory → Monitor → (switch : Writer) → (rx : List ℕ) → Result Writer
  after_switch fuel m s switch rx =
      pump e (dispatcher_from_switch e heap) fuel (record { buffer = m; pending = header })
        (s, record { switch = switch; controller = Writer.init }) rx
      >>= λ t. ok t.1.1.controller

  module _ (fuel : ℕ) (m : Memory) (s : Monitor) (switch : Writer) (fs : List Message)
      (rest : List ℕ) (frames : All IsFrame fs) (short : length rest < header_size)
      (enough : 2 * length fs < fuel) (small : s.counter < u32) where
    after_switch-posted :
        after_switch fuel m s switch (concat fs ++ rest) ≡ ok (post_all fs Writer.init)
    after_switch-posted =
        rw
          (pump_from_switch e heap fuel m s (record { switch = switch; controller = Writer.init })
            fs rest frames short enough small)
          refl

    -- Whatever whole messages come from the switch, and however the sends to the controller are cut: if no write
    -- to the controller is started before the last one is over, and none fails, then what its socket has taken,
    -- followed by what is still to be sent, is exactly the bytes of the messages that the switch sent, in order.
    pub delivered :
        (evs : List Event)
        → Serial evs (post_all fs Writer.init)
        → written evs ≡ []
        → (after_switch fuel m s switch (concat fs ++ rest) >>= λ w. ok (stream (run evs w)))
          ≡ ok (concat fs)
    delivered evs serial no_more = rw after_switch-posted (
        ap ok (
          run-stream evs (post_all fs Writer.init) tt serial ∙ rw no_more (append-nil (concat fs))))
