-- ===== src/Monitor/Stopping.antt =====
-- `stop`, and what `start` does afterwards.
use mathlib.Core.Path.{fun_ext}
use euthenia.Prelude.{
  ℕ, ◌≡◌, ◌≢◌, refl, ap, ◌∙◌, Bool, true, false, List, [], ◌∷◌, arith, leb, if◌then◌else◌, ok,
  ◌>>=◌, >>=_assoc,
}
use euthenia.Dispatcher.{Message, call}
use euthenia.Monitor.Windows.{follow_all}
use euthenia.Monitor.{
  Monitor, Actions, Pc, absent, testing, resetting, sleeping, comparing, acting, finished, start,
  stop, add_counter, on_message, clear, run_action, Event, packet, works, stops, step, run,
}

-- The messages among the events.
abbrev pub messages : List Event → List Message
messages [] = []
messages (packet m ∷ evs) = m ∷ messages evs
messages (ev ∷ evs) = messages evs

-- The action is still to run in the round that the thread is in.
abbrev pub due_at : Pc → Monitor → Bool
due_at resetting s = leb s.thresh_hold 0
due_at sleeping s = leb s.thresh_hold s.counter
due_at comparing s = leb s.thresh_hold s.counter
due_at acting s = true
due_at _ s = false

abbrev pub last_count : Pc → Monitor → ℕ
last_count resetting s = 0
last_count _ s = s.counter

module _ {W : Type 0} (a : Actions W) where
  -- Once `stop` has been called a thread that nothing disturbs leaves its loop within five steps. It
  -- finishes its round before: the action runs once more if it is due in that round, and never again.
  pub run-stop :
      (p : Pc) (s : Monitor) (w : W)
      → s.worker ≡ p
      → p ≢ absent
      → run a (stops ∷ works ∷ works ∷ works ∷ works ∷ works ∷ []) (s, w) ≡ (
          (if due_at p s then run_action a.action w else ok w) >>= λ w'.
          ok (record s { worker = finished; counter = last_count p s; is_running = false }, w'))
  unfolding run step clear stop
  run-stop absent s w here live = absurd (live refl)
  run-stop testing s w here live = ground (arith, here)
  run-stop finished s w here live = ground (arith, here)
  run-stop resetting s w here live = ground (arith, here)
  run-stop sleeping s w here live = ground (arith, here)
  run-stop comparing s w here live = ground (arith, here)
  run-stop acting s w here live = ground (arith, here)

  start-finished : (s : Monitor) → s.worker ≡ finished → start s ≡ s
  unfolding start
  start-finished s over = ground (arith, over)

  clear-finished : (s : Monitor) (w : W) → s.worker ≡ finished → clear a (s, w) ≡ ok (s, w)
  unfolding clear
  clear-finished s w over = rw over

  run-finished :
      (evs : List Event) (s : Monitor) (w : W)
      → s.worker ≡ finished
      → (run a evs (s, w) >>= λ t. ok t.1) ≡ follow_all a (messages evs) w
  unfolding run step on_message
  run-finished [] s w over = refl
  run-finished (packet m ∷ evs) s w over =
      ap (λ c. c >>= λ t. ok t.1) (>>=_assoc (call a.follow m w) _ (run a evs))
      ∙ >>=_assoc (call a.follow m w) _ _
      ∙ ap (λ c. call a.follow m w >>= c) (fun_ext λ w'. run-finished evs (add_counter s) w' over)
  run-finished (works ∷ evs) s w over = rw (clear-finished s w over) (run-finished evs s w over)
  run-finished (stops ∷ evs) s w over = run-finished evs (stop s) w over

  -- A thread that has finished is not started again: after `start` the messages are followed as before, and the
  -- action never runs.
  pub run-restart :
      (evs : List Event) (s : Monitor) (w : W)
      → s.worker ≡ finished
      → (run a evs (start s, w) >>= λ t. ok t.1) ≡ follow_all a (messages evs) w
  run-restart evs s w over =
      ap (λ t. run a evs (t, w) >>= λ u. ok u.1) (start-finished s over) ∙ run-finished evs s w over
