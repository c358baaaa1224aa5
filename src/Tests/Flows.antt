-- ===== src/Tests/Flows.antt =====
-- The flow generator and the tester at concrete inputs.
use euthenia.Prelude.{
  ◌≡◌, refl, ok, fault, signed_overflow, some, none, true, false, List, [], ◌∷◌, ◌++◌, After, arith,
  Bool, ◌*◌,
}
use euthenia.Prelude.Int.{pos}
use euthenia.Machine.Memory.{read}
use euthenia.Machine.Endian.{little, big, from_be}
use euthenia.Dispatcher.{Message}
use euthenia.FlowGen.{FlowGen, Sending, Round, Scratch, a_burst, for_callback, make_pkt}
use euthenia.FlowGen.Time.{Timespec, timeval_subtract, timespec_add}
use euthenia.FlowGen.Time.Subtract.{timeval_subtract_lem}
use euthenia.FlowGen.Packet.{mac, make_pkt-ethernet, make_pkt-total_length}
use euthenia.FlowGen.Time.{IsNormal, nanos}
use euthenia.FlowGen.Time.Subtract.{IsDifference}
use euthenia.FlowGen.Time.Add.{timespec_add_lem}
use euthenia.FlowGen.Time.Overflow.{at_time, deadline_overflow}
use euthenia.FlowGen.Burst.{a_burst-once}
use euthenia.FlowGen.Sent.{collect, Sent, a_burst-Sent}
use euthenia.FlowGen.Time.{Difference, nsec}
use euthenia.Prelude.Int.{◌-ℤ◌, scale, ◌+ℤ◌, ◌≤ℤ◌, ◌<ℤ◌}
use euthenia.FlowGen.Ending.{IsPast, a_burst-ends}
use euthenia.Tests.Inputs.{stale}

abbrev pub scratch : Scratch
scratch = record { eth = stale; ip = stale; tcp = stale; heap = stale }

abbrev pub generator : FlowGen Unit
generator = record {
  is_run = true;
  pd = true;
  failed = 0;
  fector = 1;
  src = 7;
  dst = 0x1000203;
  on_message = none;
}

make_pkt-ethernet_example :
    read (make_pkt little scratch generator).0 0 14
    ≡ mac 0 0 0x0c 0x1000203 ++ (mac 0 2 0xb3 7 ++ (8 ∷ 0 ∷ []))
make_pkt-ethernet_example = make_pkt-ethernet little scratch generator

make_pkt-total_length_example :
    (from_be (read (make_pkt big scratch generator).0 16 2) ≡ 1440)
    × (from_be (read (make_pkt little scratch generator).0 16 2) ≡ 40965)
make_pkt-total_length_example = make_pkt-total_length scratch generator

-- 7.9 s and 3.2 s
abbrev later : Timespec
later = at_time (pos 7) 900000000

abbrev pub earlier : Timespec
earlier = at_time (pos 3) 200000000

timeval_subtract_lem_example :
    (d : Difference) × (timeval_subtract later earlier ≡ ok d) × IsDifference later earlier d
timeval_subtract_lem_example =
    timeval_subtract_lem later earlier (omega arith, omega arith) (omega arith, omega arith)

timespec_add_lem_example :
    (later.tv_nsec +ℤ earlier.tv_nsec <ℤ pos nsec
      → (nanos (timespec_add later earlier) ≡ nanos later +ℤ nanos earlier)
        × IsNormal (timespec_add later earlier))
    × (pos nsec ≤ℤ later.tv_nsec +ℤ earlier.tv_nsec
        → (nanos (timespec_add later earlier) ≡ nanos later +ℤ nanos earlier +ℤ pos (2 * nsec))
          × ¬ IsNormal (timespec_add later earlier))
timespec_add_lem_example =
    timespec_add_lem later earlier (omega arith, omega arith) (omega arith, omega arith)

deadline_overflow_example :
    (let add = λ (t : Timespec). timespec_add t (at_time (pos 0) 10000000) in
      timeval_subtract (add (add (add (at_time (pos 9) 995000000)))) later ≡ fault signed_overflow)
deadline_overflow_example =
    deadline_overflow (pos 9) 995000000 10000000 later (omega arith) (omega arith) (omega arith)
      (omega arith, omega arith)

-- A round that sends one packet, and the round that ends a burst of five seconds.
abbrev pub sending : Round
sending = record {
  sec_end = at_time (pos 4) 0;
  now = at_time (pos 4) 5;
  attempts = λ i. record { scratch = scratch; pcap_fails = true };
}

abbrev pub ending : Round
ending = record sending { sec_end = at_time (pos 9) 0 }

abbrev burst_start : Sending Unit
burst_start = record { gen = generator; pkt_sent = 0; world = tt }

abbrev burst_end : Sending Unit
burst_end = record {
  gen = record generator { is_run = false; failed = 1; src = 6; dst = 0x1000204 };
  pkt_sent = 1;
  world = tt;
}

first_burst :
    a_burst little 100 5 earlier (sending ∷ ending ∷ []) burst_start ≡ ok (burst_end, true)
unfolding a_burst ◌-ℤ◌ scale ◌+ℤ◌
first_burst = refl

a_burst-once_example :
    a_burst little 200 5 later (sending ∷ ending ∷ []) burst_end ≡ ok (burst_end, true)
a_burst-once_example =
    a_burst-once little 100 5 200 5 earlier later (sending ∷ ending ∷ []) (sending ∷ ending ∷ [])
      burst_start burst_end first_burst (λ h. omega (arith, h))

abbrev with_callback : Sending (List Message)
with_callback = record { gen = for_callback (some collect); pkt_sent = 0; world = [] }

a_burst-Sent_example :
    After
      (λ (r : Sending (List Message) × Bool). Sent 0 0 [] r.0)
      (a_burst big 100 5 earlier (sending ∷ ending ∷ []) with_callback)
unfolding for_callback
a_burst-Sent_example =
    a_burst-Sent big 100 5 earlier (sending ∷ ending ∷ []) with_callback refl (omega arith)
      (omega arith)

a_burst-ends_example :
    After
      (λ (t : Sending Unit × Bool). (t.1 ≡ true) × (t.0.gen.is_run ≡ false))
      (a_burst little 100 5 earlier ((sending ∷ []) ++ ending ∷ []) burst_start)
a_burst-ends_example =
    a_burst-ends little 100 5 earlier (sending ∷ []) ending burst_start (omega arith, omega arith)
      ((omega arith, omega arith), tt) (omega arith, omega arith) past
  where
    past : IsPast earlier 5 ending.sec_end
    past = unfold nanos scale ◌+ℤ◌ in omega arith
