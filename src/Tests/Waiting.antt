-- ===== src/Tests/Waiting.antt =====
-- Two threads at the same OFPBuffer.
use euthenia.Prelude.{◌+◌, false, ◌≡◌, ◌≤◌, refl, fault, out_of_bounds, [], ◌∷◌, ◌++◌, length, ◌⊎◌}
use euthenia.Buffer.{new_buffer, push_back, get_front, front_and_pop}
use euthenia.Buffer.Waiting.{
  Shared, Reachable, begins, goes, pushes, calls, sleeps, takes, notifies, breaks, Step, unshared,
  notify_one, push_locked, Reachable-served,
}
use euthenia.Tests.Inputs.{hello}

-- One sleeps. Another pushes and has not notified when a third calls and takes; then the first is woken.
abbrev called : Shared
called = record unshared { awake = 1 }

abbrev slept : Shared
unfolding new_buffer
slept = record unshared { asleep = 1 }

abbrev called_again : Shared
called_again = record (push_locked hello slept) { awake = 1 }

abbrev taken_first : Shared
taken_first = record {
  buffer = record { is_empty = false; buffer = [] };
  asleep = 1;
  awake = 0;
  notifying = 1;
  pushed = hello ∷ [];
  taken = hello ∷ [];
}

abbrev stolen : Shared
stolen = record taken_first { asleep = 0; awake = 1; notifying = 0 }

stolen_reached : Reachable stolen
unfolding push_locked notify_one push_back get_front front_and_pop new_buffer
stolen_reached =
    goes taken_first stolen
      (goes called_again taken_first
        (goes (push_locked hello slept) called_again
          (goes slept (push_locked hello slept)
            (goes called slept (goes unshared called begins (calls unshared))
              (sleeps called 0 new_buffer refl refl))
            (pushes slept hello))
          (calls (push_locked hello slept)))
        (takes called_again 0 hello (record { is_empty = false; buffer = [] }) refl refl))
      (notifies taken_first 0 refl)

-- The first one takes the front of an empty queue, where it should have gone on waiting.
stolen_breaks : Step stolen (fault out_of_bounds)
unfolding get_front front_and_pop
stolen_breaks = breaks stolen 0 out_of_bounds refl refl

Reachable-served_example :
    (stolen.taken ++ stolen.buffer.buffer ≡ stolen.pushed)
    × ((stolen.asleep ≡ 0) ⊎ (length stolen.buffer.buffer ≤ stolen.awake + stolen.notifying))
Reachable-served_example = Reachable-served stolen stolen_reached
