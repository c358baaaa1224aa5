-- ===== src/Tests/Running.antt =====
-- The proxy from `main` on, at concrete events.
use euthenia.Prelude.{
  map, ◌>>=◌, ltb, leb, ◌^◌, ◌++◌, if◌then◌else◌, Bool, ◌==◌, ◌||◌, ◌≡◌, refl, true, false, none,
  some, List, [], ◌∷◌, Returns, arith,
}
use euthenia.Machine.Endian.{little, from_be, hton, load_word}
use euthenia.Machine.Memory
use euthenia.Session.{start}
use euthenia.Session.Linked
use euthenia.Session.Linked.{completes, completes_with, set_dispatcher}
use euthenia.Dispatcher.{set_default_callback, set_callback_on_message}
use euthenia.Monitor
use euthenia.Proxy.{
  dispatcher_from_switch, dispatcher_from_controller, dispatcher_from_ovs, Outside, launched,
  peers_met, main,
}
use euthenia.Session.Connection.{Endpoint, any_v4, from_string, listen, connect}
use euthenia.Numerals.Decimal.{print}
use euthenia.Proxy.Drains.{Drained, flush, main-drains}
use euthenia.Proxy.Severity.{main-logs}
use euthenia.Proxy.Events
use euthenia.Proxy.Events.{
  Event, switch_reads, controller_reads, ovs_reads, controller_io, monitor_works, run, step,
}
use euthenia.Proxy.Invariant.{Inv}
use euthenia.Proxy.Runs.{AdmitsAll, grow_all, nothing_yet, main-run}
use euthenia.Tests.Inputs.{hello, stale}

-- The controller and the two switches are where `main` looks for them, and nobody else is.
abbrev met : Endpoint → Bool
met peer = elim peer.host [
  | any_v4 ↦ peer.port == 9000 || peer.port == 9001
  | from_string text ↦ peer.port == 6633
]

abbrev outside : Outside
outside = record { s_data = stale; c_data = stale; ovs_data = stale; connects = met; accepts = met }

-- A packet-in message comes in two pieces, with a hello of the controller and a step of the thread between them.
abbrev events : List Event
events =
    switch_reads false (4 ∷ 10 ∷ 0 ∷ 10 ∷ 0 ∷ 0 ∷ 0 ∷ 2 ∷ [])
    ∷ controller_reads false hello
    ∷ monitor_works stale
    ∷ switch_reads false (7 ∷ 9 ∷ [])
    ∷ ovs_reads false hello
    ∷ controller_io Events.starts
    ∷ controller_io (Events.sends 0 4)
    ∷ []

running : (main little stale true none outside).1 ≡ some (launched little stale true outside)
unfolding main peers_met listen connect
running = refl

admitted : AdmitsAll little events (launched little stale true outside)
unfolding step completes completes_with Linked.start set_dispatcher dispatcher_from_switch
    dispatcher_from_controller dispatcher_from_ovs launched from_be start hton load_word Memory.read
    Memory.write set_default_callback set_callback_on_message Monitor.start Monitor.on_message
admitted = (
  (omega arith, refl, omega arith),
  (
    (omega arith, refl, omega arith),
    (tt, ((omega arith, refl), ((omega arith, refl, omega arith), ((refl, tt), (tt, tt))))),
  ),
)

main-run_example :
    Returns
      (Inv little stale (grow_all events nothing_yet))
      (run little events (launched little stale true outside))
main-run_example =
    main-run little stale true none outside (launched little stale true outside) events running
      admitted

-- "4x"
main-logs_example :
    ((main little stale true none outside).0 4 ≡ leb 2 4)
    × ((main little stale true (some (print 2 4 ++ 120 ∷ [])) outside).0 4
        ≡ leb (if ltb 4 (2 ^ 31) then 4 else 2) 4)
    × ((main little stale true (some (45 ∷ (print 2 4 ++ 120 ∷ []))) outside).0 4
        ≡ (if leb 4 (2 ^ 31) then true else leb 2 4))
main-logs_example = main-logs little stale true outside 4 1 4 (120 ∷ []) (omega arith) refl

main-drains_example : Returns (Drained (grow_all events nothing_yet)) (
    run little events (launched little stale true outside) >>= λ t.
    run little (map controller_io (flush t.net.controller)) t)
main-drains_example =
    main-drains little stale true none outside (launched little stale true outside) events running
      admitted
