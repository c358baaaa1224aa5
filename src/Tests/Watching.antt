-- ===== src/Tests/Watching.antt =====
-- The monitor at concrete schedules.
use euthenia.Prelude.{◌≡◌, refl, [], ◌∷◌, ◌++◌, false, leb, if◌then◌else◌, ok, ◌>>=◌, arith}
use euthenia.Monitor.{
  resetting, finished, sleeping, acting, testing, works, stops, packet, run, run_action, start,
}
use euthenia.Monitor.Windows.{window, packets, follow_all, run-window, run-between}
use euthenia.Monitor.Stopping.{due_at, last_count, run-stop, run-restart}
use euthenia.Tests.Inputs.{hello, watching, collect_actions}

run-window_example : run collect_actions (window collect_actions (hello ∷ []) []) (watching, []) ≡ (
    follow_all collect_actions (hello ∷ []) [] >>= λ log.
    ok (record watching { counter = 1; worker = if leb 1 1 then acting else testing }, log))
run-window_example = run-window collect_actions (hello ∷ []) [] watching [] refl (omega arith)

run-between_example :
    (run collect_actions
        (packets collect_actions (hello ∷ [])
          ++ works
            ∷ (packets collect_actions []
                ++ works ∷ (packets collect_actions (hello ∷ []) ++ works ∷ [])))
        (record watching { worker = acting }, [])
      ≡ (follow_all collect_actions (hello ∷ []) [] >>= λ w1.
          run_action collect_actions.action w1 >>= λ w2.
          follow_all collect_actions ([] ++ hello ∷ []) w2 >>= λ w3.
          ok (record watching { counter = 0; worker = sleeping }, w3)))
    × (run collect_actions
          (packets collect_actions []
            ++ works ∷ (packets collect_actions (hello ∷ []) ++ works ∷ []))
          (record watching { worker = testing }, [])
        ≡ (follow_all collect_actions ([] ++ hello ∷ []) [] >>= λ log.
            ok (record watching { counter = 0; worker = sleeping }, log)))
run-between_example =
    run-between collect_actions (hello ∷ []) [] (hello ∷ []) watching [] (omega arith) refl

run-stop_example :
    run collect_actions (stops ∷ works ∷ works ∷ works ∷ works ∷ works ∷ []) (watching, []) ≡ (
      (if due_at resetting watching then run_action collect_actions.action [] else ok []) >>= λ log.
      ok (
        record watching {
          worker = finished;
          counter = last_count resetting watching;
          is_running = false;
        },
        log,
      ))
run-stop_example = run-stop collect_actions resetting watching [] refl (λ e. cc)

run-restart_example :
    (run collect_actions
        (packet hello ∷ works ∷ works ∷ [])
        (start (record watching { worker = finished }), [])
      >>= λ t. ok t.1)
    ≡ follow_all collect_actions (hello ∷ []) []
run-restart_example =
    run-restart collect_actions (packet hello ∷ works ∷ works ∷ [])
      (record watching { worker = finished }) [] refl
