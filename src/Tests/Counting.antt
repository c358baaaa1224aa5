-- ===== src/Tests/Counting.antt =====
-- The tester at concrete inputs.
use euthenia.Prelude.{
  take, map, ◌>>=◌, ltb, leb, if◌then◌else◌, fault, signed_overflow, ℕ, ◌==◌, arith, some, ◌++◌,
  concat, ◌≡◌, refl, ok, true, List, [], ◌∷◌, Result, Bool, replicate, length, All, ◌⊎◌, ◌^◌,
}
use euthenia.Prelude.Int.{◌-ℤ◌, scale, ◌+ℤ◌}
use euthenia.Machine.Memory.{read}
use mathlib.Core.Option
use euthenia.Machine.Endian.{from_be, little, big}
use euthenia.Openflow.Header.{type_field, IsFrame}
use euthenia.Dispatcher
use euthenia.Dispatcher.{Message}
use euthenia.FlowGen.{Sending, a_burst}
use euthenia.Session.Writer
use euthenia.Tester.Start.{conversation, main-conversation}
use euthenia.Tester.{Tester, Trial, new_tester, do_test}
use euthenia.Tester.Main.{main, log_filter, tester_dispatcher}
use euthenia.Tester.Severity.{log_filter-print}
use euthenia.Numerals.Decimal.{print}
use euthenia.Tester.Handshake.{bare, answer, on_message-answer}
use euthenia.Tester.Groups.{Split, SentNone, ReceivedNone}
use euthenia.Tester.Leaves.{arrived}
use euthenia.Tester.Rounds.{do_test-Split}
use euthenia.Tests.Inputs
use euthenia.Tests.Inputs.{hello-IsFrame, packet, packet-IsFrame, stale, holding}
use euthenia.Tests.Flows.{generator, earlier, sending, ending}

abbrev fresh : Tester
fresh = new_tester generator Writer.init

packet_held : read (holding packet) 0 (length packet) ≡ packet
unfolding read holding
packet_held = refl

on_message-answer_example :
    Dispatcher.on_message big (tester_dispatcher big 99 stale) (holding packet) fresh
    ≡ answer (type_field packet) 99 fresh
on_message-answer_example =
    on_message-answer big 99 stale (holding packet) packet fresh packet-IsFrame packet_held

-- The first round sends a packet, which comes back; in the second one comes back too late.
abbrev first_trial : Trial
first_trial = record {
  begin = earlier;
  rounds = sending ∷ ending ∷ [];
  arrivals = (77, packet) ∷ [];
}

abbrev later_trials : List Trial
later_trials =
    record { begin = earlier; rounds = []; arrivals = (88, packet) ∷ [] }
    ∷ replicate 18 (record { begin = earlier; rounds = []; arrivals = [] })

first_burst : Result (Sending Unit × Bool)
first_burst =
    a_burst little 100 5 earlier (sending ∷ ending ∷ [])
      (record { gen = generator; pkt_sent = 0; world = tt })

burst_of : Result (Sending Unit × Bool) → Sending Unit
burst_of (ok r) = r.0
burst_of (fault f) = record { gen = generator; pkt_sent = 0; world = tt }

abbrev burst : Sending Unit
unfolding first_burst burst_of
burst = burst_of first_burst

burst_ends : first_burst ≡ ok (burst, true)
unfolding first_burst burst_of a_burst ◌-ℤ◌ scale ◌+ℤ◌
burst_ends = refl

do_test-Split_example :
    (t : Tester) × (do_test little (first_trial ∷ later_trials) fresh ≡ ok (t, true))
    × Split (map arrived (take 20 (first_trial ∷ later_trials))) 0 burst.pkt_sent 20 20 true t
    × All (λ g. SentNone g ⊎ ReceivedNone g) t.groups
unfolding first_burst
do_test-Split_example =
    do_test-Split little generator Writer.init first_trial later_trials burst burst_ends
      (omega arith)

abbrev reply : Message
reply = 4 ∷ 6 ∷ 0 ∷ 8 ∷ 0 ∷ 0 ∷ 0 ∷ 2 ∷ []

reply-IsFrame : IsFrame reply
unfolding from_be
reply-IsFrame = record { bytes = omega arith; has_header = omega arith; counted = refl }

-- "s1"
abbrev device : List ℕ
device = 115 ∷ 49 ∷ []

-- The level 4 with nothing after it, which is not looked at.
main-conversation_example :
    (main little (device ∷ print 1 4 ∷ []) true (λ peer. peer.port == 9000) stale stale
      >>= λ started. ok (
          Option.map
            (conversation little 5 stale 5 (concat (Inputs.hello ∷ reply ∷ []) ++ 4 ∷ []))
            started))
    ≡ ok (some (ok (bare 0 1 ∷ bare 5 2 ∷ [], true)))
main-conversation_example =
    main-conversation little 5 stale 5 device (print 1 4 ∷ []) (λ level. true)
      (λ peer. peer.port == 9000) stale stale Inputs.hello reply (4 ∷ [])
      (unfold log_filter in refl) refl hello-IsFrame reply-IsFrame refl refl (omega arith)
      (omega arith)

log_filter-print_example :
    ((log_filter [] >>= λ logs. ok (logs 3)) ≡ ok true)
    × ((log_filter (print 1 4 ∷ []) >>= λ logs. ok (logs 3)) ≡ ok true)
    × ((log_filter ((print 1 4 ++ []) ∷ device ∷ []) >>= λ logs. ok (logs 3))
        ≡ (if ltb 4 (2 ^ 31) then ok (leb 4 3) else fault signed_overflow))
log_filter-print_example = log_filter-print 3 (print 1 4) 0 4 [] device [] (omega arith) tt
