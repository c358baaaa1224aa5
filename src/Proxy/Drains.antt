-- ===== src/Proxy/Drains.antt =====
-- The proxy reaches the end of what is to be sent to the controller.
use euthenia.Prelude.{
  ℕ, ◌≡◌, refl, ap, ◌∙◌, Bool, Option, some, List, [], ◌∷◌, ◌++◌, map, length, concat, append-nil,
  append_assoc, ok, ◌>>=◌, Returns, Returns->>=,
}
use euthenia.Machine.Memory.{Memory}
use euthenia.Machine.Endian.{Endian}
use euthenia.Dispatcher.{Message}
use euthenia.Session.Piecewise.{Received}
use euthenia.Session.Writer.{Writer, sent_at, left_at, handle_write, over_at}
use euthenia.Session.Writer
use euthenia.Session.Writer.Order.{IsSingle}
use euthenia.Proxy.{System, Outside, main}
use euthenia.Proxy.Delivery.{drain, one_sent, run-drain}
use euthenia.Proxy.Events.{Io, starts, sends, ends, event, Event, controller_io, step, run}
use euthenia.Proxy.Merges.{Merge}
use euthenia.Proxy.Invariant.{Rx, Inv, ReceivedOvs}
use euthenia.Proxy.Runs.{AdmitsAll, grow_all, nothing_yet, main-run}

-- The outstanding write is sent to its end, and then each that is posted is started, sent whole and ended.
abbrev rest_of : List (List ℕ) → List Io
rest_of [] = []
rest_of (op ∷ ops) = sends 0 (length op) ∷ ends 0 ∷ []

abbrev each : List Message → List Io
each [] = []
each (m ∷ ms) = starts ∷ sends 0 (length m) ∷ ends 0 ∷ each ms

abbrev pub flush : Writer → List Io
flush w = rest_of w.in_flight ++ each w.posted

each-drain : (ms : List Message) → map event (each ms) ≡ drain ms
each-drain [] = refl
each-drain (m ∷ ms) =
    ap (λ evs. Writer.starts ∷ Writer.sends 0 (length m) ∷ Writer.ends 0 ∷ evs) (each-drain ms)

run-flush :
    (ops : List (List ℕ)) (ms : List Message) (socket : List ℕ)
    → IsSingle ops
    → Writer.run
        (map event (rest_of ops ++ each ms))
        (record { posted = ms; in_flight = ops; socket = socket })
      ≡ record { posted = []; in_flight = []; socket = socket ++ (concat ops ++ concat ms) }
run-flush [] ms socket one = rw (each-drain ms) (run-drain ms socket)
run-flush (op ∷ []) ms socket one =
    unfold Writer.run in
    ap (Writer.run (map event (each ms))) (one_sent op ms socket)
    ∙ rw (each-drain ms) (run-drain ms (socket ++ op))
    ∙ ap (λ xs. record { posted = []; in_flight = []; socket = xs })
        (append_assoc socket op (concat ms) ∙ rw (append-nil op) refl)
run-flush (op ∷ op' ∷ ops) ms socket one = absurd one

run-controller_io :
    (e : Endian) (ios : List Io) (s : System)
    → run e (map controller_io ios) s
      ≡ ok (record s {
        net = record s.net { controller = Writer.run (map event ios) s.net.controller };
      })
unfolding run step Writer.run
run-controller_io e [] s = refl
run-controller_io e (io ∷ ios) s = run-controller_io e ios _

-- What each peer has sent, and what the controller has of it: all bytes of all whole messages, in an order that
-- keeps those of the switch and those of the ovs. Nothing is left to be sent to it.
pub record Drained (rx : Rx) (s : System) : Type 0 where
  pub of_switch : List Message
  pub of_ovs : List Message
  pub to_controller : List Message
  pub from_switch : Received rx.switch of_switch s.s_session.reader
  pub from_ovs : ReceivedOvs rx.ovs of_ovs s.ovs_session
  pub merged : Merge of_switch of_ovs to_controller
  pub socket : s.net.controller.socket ≡ concat to_controller
  pub posted : s.net.controller.posted ≡ []
  pub in_flight : s.net.controller.in_flight ≡ []

drains :
    (e : Endian) (heap : Memory) (rx : Rx) (s : System)
    → Inv e heap rx s
    → Returns (Drained rx) (run e (map controller_io (flush s.net.controller)) s)
drains e heap rx s h =
    let w = s.net.controller in
    rw
      (
        run-controller_io e (flush w) s,
        run-flush w.in_flight w.posted w.socket h.sends.controller.single,
      )
      (record {
        of_switch = h.of_switch;
        of_ovs = h.of_ovs;
        to_controller = h.sends.to_controller;
        from_switch = h.from_switch;
        from_ovs = h.from_ovs;
        merged = h.sends.merged;
        socket = h.sends.controller.bytes;
        posted = refl;
        in_flight = refl;
      })

-- After `main` and whatever has happened since, as long as peers send headers that count themselves, no read or
-- write fails, and no write of a session is started before its last one is over: if now the outstanding write to the
-- controller is sent to its end, and then each that is posted is started, sent and ended, the controller has all bytes
-- of all whole messages that the switch and the ovs have sent, and nothing is left.
pub main-drains :
    (e : Endian) (heap : Memory) (ovs_assist : Bool) (argument : Option (List ℕ)) (o : Outside)
    (s : System) (evs : List Event)
    → (main e heap ovs_assist argument o).1 ≡ some s
    → AdmitsAll e evs s
    → Returns
        (Drained (grow_all evs nothing_yet))
        (run e evs s >>= λ t. run e (map controller_io (flush t.net.controller)) t)
main-drains e heap ovs_assist argument o s evs runs all =
    Returns->>= (Inv e heap (grow_all evs nothing_yet)) (Drained (grow_all evs nothing_yet))
      (run e evs s) (λ t. run e (map controller_io (flush t.net.controller)) t)
      (main-run e heap ovs_assist argument o s evs runs all)
      λ t h. drains e heap (grow_all evs nothing_yet) t h
