-- ===== src/Tests/Writing.antt =====
-- A session's writing side, and the proxy, at concrete inputs.
use euthenia.Prelude.{
  ◌+◌, ◌%◌, ◌≡◌, refl, List, [], ◌∷◌, ◌++◌, leb, if◌then◌else◌, ok, ◌>>=◌, arith, concat,
}
use euthenia.Machine.Endian.{little}
use euthenia.Session.{header, pump}
use euthenia.Session.Framing.{absorb_all}
use euthenia.Session.Writer.{init, Event, writes, starts, sends, ends, step, run}
use euthenia.Session.Writer.Order.{stream, written, run-stream, run-interleaved}
use euthenia.Monitor.{Monitor, u32, works}
use euthenia.Monitor
use euthenia.Monitor.Windows.{window}
use euthenia.Proxy.{Net, monitor_actions, dispatcher_from_switch}
use euthenia.Proxy.Forwarding.{post_all, count_packet_in, pump_from_switch}
use euthenia.Proxy.Migration.{redirected, window-redirects}
use euthenia.Tests.Inputs.{hello, packet, hello-IsFrame, packet-IsFrame, stale, watching, quiet}

-- One message is sent in two pieces before the next is started.
abbrev one_by_one : List Event
one_by_one =
    writes hello
    ∷ writes packet
    ∷ starts
    ∷ sends 0 3
    ∷ sends 0 5
    ∷ ends 0
    ∷ starts
    ∷ sends 0 10
    ∷ []

run-stream_example : stream (run one_by_one init) ≡ stream init ++ concat (written one_by_one)
unfolding step
run-stream_example = run-stream one_by_one init tt (refl, (refl, tt))

run-interleaved_example :
    (evs : List Event) × (written evs ≡ (1 ∷ 2 ∷ []) ∷ (3 ∷ 4 ∷ []) ∷ [])
    × ((run evs init).socket ≡ 1 ∷ 3 ∷ 4 ∷ 2 ∷ [])
    × ((run evs init).in_flight ≡ [])
run-interleaved_example = run-interleaved 1 3 (2 ∷ []) (4 ∷ [])

pump_from_switch_example :
    pump little
      (dispatcher_from_switch little stale)
      5
      (record { buffer = stale; pending = header })
      (watching, quiet)
      (concat (hello ∷ packet ∷ []) ++ [])
    ≡ ok (
      record { buffer = absorb_all stale (hello ∷ packet ∷ []); pending = header },
      (
        record watching { counter = (5 + count_packet_in (hello ∷ packet ∷ [])) % u32 },
        record quiet { controller = post_all (hello ∷ packet ∷ []) quiet.controller },
      ),
      [],
    )
pump_from_switch_example =
    pump_from_switch little stale 5 stale watching quiet (hello ∷ packet ∷ []) []
      (hello-IsFrame, (packet-IsFrame, tt)) (omega arith) (omega arith) (omega arith)

window-redirects_example :
    (Monitor.run
        (monitor_actions little stale)
        (window (monitor_actions little stale) (packet ∷ []) (packet ∷ []) ++ works ∷ [])
        (watching, quiet)
      >>= λ t. ok t.1)
    ≡ (let n : Net = record quiet {
      controller = post_all (packet ∷ packet ∷ []) quiet.controller;
    } in
        ok (if leb 1 2 then redirected little stale n else n))
window-redirects_example =
    window-redirects little stale (packet ∷ []) (packet ∷ []) watching quiet refl (omega arith)
