-- ===== src/Tests/Parts.antt =====
-- The dump, the buffer and the shaper at concrete inputs.
use euthenia.Prelude.{
  some, ◌≡◌, refl, fault, out_of_bounds, true, false, List, [], ◌∷◌, ◌++◌, map, replicate, length,
  suc, arith,
}
use euthenia.Machine.Memory.{read}
use euthenia.Utility.{to_hex_string}
use euthenia.Utility.Hex.{parse, to_hex_string-parse}
use euthenia.Buffer
use euthenia.Buffer.{OfpBuffer, Call, pushes, gets, new_buffer}
use euthenia.Buffer.Fifo.{Follows, fifo, run-fifo, run-emptied}
use euthenia.Shaper
use euthenia.Shaper.{
  Operation, sets_dest, sets_source, starts, acks, works, absent, new_shaper, start_shaper,
  start_shaper-run,
}
use euthenia.Tests.Inputs.{hello, packet, stale}

abbrev started : List Operation
started = sets_dest true ∷ sets_source true ∷ starts ∷ works ∷ acks hello ∷ works ∷ []

-- "aa aa "
dump : to_hex_string stale 2 ≡ 97 ∷ 97 ∷ 32 ∷ 97 ∷ 97 ∷ 32 ∷ []
unfolding to_hex_string
dump = refl

to_hex_string-parse_example : parse 0 (to_hex_string stale 2) ≡ read stale 0 2
unfolding read
to_hex_string-parse_example = to_hex_string-parse stale 2 (omega arith)

abbrev calls : List Call
calls = pushes hello ∷ gets ∷ pushes packet ∷ pushes hello ∷ gets ∷ []

run-fifo_example : Follows (fifo calls new_buffer.buffer) (Buffer.run calls new_buffer)
unfolding new_buffer
run-fifo_example = run-fifo calls new_buffer (λ e. refl)

-- It is not asked in vain.
fifo_answers : fifo calls [] ≡ some (hello ∷ packet ∷ [], hello ∷ [])
unfolding fifo
fifo_answers = refl

run-emptied_example :
    Buffer.run
      (map pushes (hello ∷ packet ∷ []) ++ replicate (suc (length (hello ∷ packet ∷ []))) gets)
      new_buffer
    ≡ fault out_of_bounds
run-emptied_example = run-emptied hello (packet ∷ [])

start_shaper-run_example :
    ((start_shaper (Shaper.run started (new_shaper 9))).0 ≡ false)
    × ((start_shaper (Shaper.run started (new_shaper 9))).1.shaper ≡ absent)
start_shaper-run_example = start_shaper-run 9 started
