-- ===== src/Monitor/Windows.antt =====
-- What the thread of a PKTINMonitor sees of the messages.
use mathlib.Core.Path.{fun_ext}
use euthenia.Prelude.{
  true, ℕ, suc, ◌+◌, ◌%◌, ◌<◌, ◌≡◌, refl, sym, ap, ◌∙◌, List, [], ◌∷◌, ◌++◌, map, arith, leb,
  if◌then◌else◌, Result, ok, ◌>>=◌, >>=_assoc, length, length-append,
}
use euthenia.Dispatcher.{Message, call}
use euthenia.Monitor.{
  Monitor, run_action, Actions, testing, finished, resetting, sleeping, comparing, acting, u32,
  add_counter, on_message, clear, Event, packet, works, step, run,
}

module _ {W : Type 0} (a : Actions W) where
  -- Every message goes to the follow action, in order.
  abbrev pub follow_all : List Message → W → Result W
  follow_all [] w = ok w
  follow_all (m ∷ ms) w = call a.follow m w >>= follow_all ms

  abbrev pub packets : List Message → List Event
  packets = map packet

  follow_all-append :
      (ms ns : List Message) (w : W) → follow_all (ms ++ ns) w ≡ (follow_all ms w >>= follow_all ns)
  follow_all-append [] ns w = refl
  follow_all-append (m ∷ ms) ns w =
      ap (λ c. call a.follow m w >>= c) (fun_ext λ w'. follow_all-append ms ns w')
      ∙ sym (>>=_assoc (call a.follow m w) (follow_all ms) (follow_all ns))

  -- Messages in a row are followed and counted.
  run-packets :
      (ms : List Message) (evs : List Event) (s : Monitor) (w : W)
      → s.counter < u32
      → run a (packets ms ++ evs) (s, w) ≡ (
          follow_all ms w >>= λ w'.
          run a evs (record s { counter = (s.counter + length ms) % u32 }, w'))
  unfolding run step on_message add_counter
  run-packets [] evs s w small =
      let e : (s.counter + 0) % u32 ≡ s.counter = omega arith in
      ap (λ c. run a evs (record s { counter = c }, w)) (sym e)
  run-packets (m ∷ ms) evs s w small =
      let e : ((s.counter + 1) % u32 + length ms) % u32 ≡ (s.counter + suc (length ms)) % u32 =
        omega arith in
      >>=_assoc (call a.follow m w) _ _
      ∙ ap (λ c. call a.follow m w >>= c)
          (fun_ext λ w'. rw e at (run-packets ms evs (add_counter s) w' (omega arith)))
      ∙ sym (>>=_assoc (call a.follow m w) (follow_all ms) _)

  -- The counter is cleared, `ms` come before the timer and `ns` between the timer and the comparison.
  abbrev pub window : List Message → List Message → List Event
  window ms ns = works ∷ (packets ms ++ works ∷ (packets ns ++ works ∷ []))

  pub run-append :
      (evs more : List Event) (s : Monitor × W)
      → run a (evs ++ more) s ≡ (run a evs s >>= run a more)
  unfolding run
  run-append [] more s = refl
  run-append (ev ∷ evs) more s =
      ap (λ c. step a ev s >>= c) (fun_ext λ t. run-append evs more t)
      ∙ sym (>>=_assoc (step a ev s) (run a evs) (run a more))

  clear-resetting :
      (s : Monitor) (w : W)
      → s.worker ≡ resetting
      → clear a (s, w) ≡ ok (record s { counter = 0; worker = sleeping }, w)
  unfolding clear
  clear-resetting s w here = rw here

  -- After a comparison at the count `n`.
  abbrev closed : Monitor → ℕ → Monitor
  closed s n = record s { counter = n; worker = if leb s.thresh_hold n then acting else testing }

  -- In a window all messages, those before the timer and those after it,
  -- are followed in order, and the action is to run next exactly if they are at least `thresh_hold`.
  pub run-window :
      (ms ns : List Message) (s : Monitor) (w : W)
      → s.worker ≡ resetting
      → length (ms ++ ns) < u32
      → run a (window ms ns) (s, w) ≡ (
          follow_all (ms ++ ns) w >>= λ w'. ok (
            record s {
              counter = length (ms ++ ns);
              worker = if leb s.thresh_hold (length (ms ++ ns)) then acting else testing;
            },
            w',
          ))
  unfolding run step
  run-window ms ns s w here small = rw (clear-resetting s w here) (
      run-packets ms _ (record s { counter = 0; worker = sleeping }) w (omega arith)
      ∙ ap (λ c. follow_all ms w >>= c) (fun_ext second)
      ∙ sym (>>=_assoc (follow_all ms w) (follow_all ns) _)
      ∙ ap (λ c. c >>= λ w'. ok (closed s (length (ms ++ ns)), w'))
          (sym (follow_all-append ms ns w)))
    where
      total : ((0 + length ms) % u32 + length ns) % u32 ≡ length (ms ++ ns)
      total = omega (arith, small, length-append ms ns)

      second :
          (w' : W)
          → run a
              (works ∷ (packets ns ++ works ∷ []))
              (record s { counter = (0 + length ms) % u32; worker = sleeping }, w')
            ≡ (follow_all ns w' >>= λ w''. ok (closed s (length (ms ++ ns)), w''))
      second w' =
          unfold clear in
          (run-packets ns (works ∷ [])
              (record s { counter = (0 + length ms) % u32; worker = comparing }) w' (omega arith)
            ∙ ap (λ c. follow_all ns w' >>= λ w''. ok (closed s c, w'')) total)

  forgotten : Monitor → Monitor
  forgotten s = record s { counter = 0; worker = sleeping }

  from_resetting :
      (ms : List Message) (s : Monitor) (w : W)
      → s.counter < u32
      → run a (packets ms ++ works ∷ []) (record s { worker = resetting }, w)
        ≡ (follow_all ms w >>= λ w'. ok (forgotten s, w'))
  unfolding run step clear forgotten
  from_resetting ms s w small =
      run-packets ms (works ∷ []) (record s { worker = resetting }) w small

  tested :
      (s : Monitor) (w : W)
      → s.is_running ≡ true
      → clear a (record s { worker = testing }, w) ≡ ok (record s { worker = resetting }, w)
  unfolding clear
  tested s w runs = ap (λ b. ok (record s { worker = if b then resetting else finished }, w)) runs

  from_testing :
      (ms ns : List Message) (s : Monitor) (w : W)
      → s.counter < u32
      → s.is_running ≡ true
      → run a (packets ms ++ works ∷ (packets ns ++ works ∷ [])) (record s { worker = testing }, w)
        ≡ (follow_all (ms ++ ns) w >>= λ w'. ok (forgotten s, w'))
  unfolding run step clear forgotten
  from_testing ms ns s w small runs =
      run-packets ms (works ∷ (packets ns ++ works ∷ [])) (record s { worker = testing }) w small
      ∙ ap (λ c. follow_all ms w >>= c)
          (fun_ext λ w'.
            ap (λ c. c >>= run a (packets ns ++ works ∷ []))
              (tested (record s { counter = (s.counter + length ms) % u32 }) w' runs)
            ∙ from_resetting ns (record s { counter = (s.counter + length ms) % u32 }) w'
                (omega arith))
      ∙ sym (>>=_assoc (follow_all ms w) (follow_all ns) _)
      ∙ ap (λ c. c >>= λ w'. ok (forgotten s, w')) (sym (follow_all-append ms ns w))

  -- While the monitor runs, messages that come after the comparison and before the counter is cleared are followed, and
  -- forgotten, whether the action is run in between or not: however many come before the action, between it and
  -- the loop's test, and after the test, the action runs once, and the next window starts from 0.
  pub run-between :
      (ms ns os : List Message) (s : Monitor) (w : W)
      → s.counter < u32
      → s.is_running ≡ true
      → (run a
            (packets ms ++ works ∷ (packets ns ++ works ∷ (packets os ++ works ∷ [])))
            (record s { worker = acting }, w)
          ≡ (follow_all ms w >>= λ w1. run_action a.action w1 >>= λ w2.
              follow_all (ns ++ os) w2 >>= λ w3.
              ok (record s { counter = 0; worker = sleeping }, w3)))
        × (run a
              (packets ns ++ works ∷ (packets os ++ works ∷ []))
              (record s { worker = testing }, w)
            ≡ (follow_all (ns ++ os) w >>= λ w'.
                ok (record s { counter = 0; worker = sleeping }, w')))
  unfolding run step clear forgotten
  run-between ms ns os s w small runs = (acts, from_testing ns os s w small runs)
    where
      after : Monitor
      after = record s { counter = (s.counter + length ms) % u32 }

      acts :
          run a
            (packets ms ++ works ∷ (packets ns ++ works ∷ (packets os ++ works ∷ [])))
            (record s { worker = acting }, w)
          ≡ (follow_all ms w >>= λ w1. run_action a.action w1 >>= λ w2.
              follow_all (ns ++ os) w2 >>= λ w3. ok (forgotten s, w3))
      acts =
          run-packets ms (works ∷ (packets ns ++ works ∷ (packets os ++ works ∷ [])))
            (record s { worker = acting }) w small
          ∙ ap (λ c. follow_all ms w >>= c)
              (fun_ext λ w1.
                >>=_assoc (run_action a.action w1) _ _
                ∙ ap (λ c. run_action a.action w1 >>= c)
                    (fun_ext λ w2. from_testing ns os after w2 (omega arith) runs))
