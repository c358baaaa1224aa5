-- ===== src/Tester/Leaves.antt =====
-- One round of `do_test` and what it leaves: `group_test` of PacketInTester.cpp.
use euthenia.Prelude.{
  Returns, Returns->>=, ap, ◌∙◌, sym, ◌-◌, replicate, ℕ, zero, suc, ◌+◌, ◌*◌, ◌%◌, ◌<◌, ◌≡◌, refl,
  Bool, true, false, List, [], ◌∷◌, ◌++◌, append_assoc, length, length-append, ltb, ok, arith,
}
use euthenia.Machine.Endian.{Endian}
use euthenia.FlowGen.{FlowGen, Sending, a_burst, u32}
use euthenia.FlowGen.Burst.{Stopped, a_burst-Stopped, a_burst-idle}
use euthenia.Tester.{Group, new_group, Tester, Trial, receive, Outcome, close_group, group_test}
use euthenia.Tester.Groups.{Split, SentNone, ReceivedNone, receive-Split}

-- The packet-in messages of a round, in the counter's 32 bits.
abbrev pub arrived : Trial → ℕ
arrived trial = length trial.arrivals % u32

abbrev pub starting : FlowGen Unit → Sending Unit
starting generator = record { gen = generator; pkt_sent = 0; world = tt }

module _ (e : Endian) (burst : Sending Unit) where
  -- The burst of the first round ends with `burst`.
  abbrev pub Ends : (n rate : ℕ) → Trial → FlowGen Unit → Type 0
  Ends n rate trial generator =
      n ≡ 0 → a_burst e rate 5 trial.begin trial.rounds (starting generator) ≡ ok (burst, true)

  abbrev pub EndsFirst : (n : ℕ) → List Trial → FlowGen Unit → Type 0
  EndsFirst n [] generator = Unit
  EndsFirst n (trial ∷ trials) generator = Ends n (100 * n + 100) trial generator

  pub ends_later :
      (n : ℕ) (trials : List Trial) (generator : FlowGen Unit) → EndsFirst (n + 1) trials generator
  ends_later n [] generator = tt
  ends_later n (trial ∷ trials) generator = λ z. absurd (omega (arith, z))

  -- What a burst leaves in the `n`-th round.
  abbrev BurstLeaves : (n : ℕ) → Sending Unit × Bool → Type 0
  BurstLeaves n r =
      (r.1 ≡ true)
      × (r.0.gen.is_run ≡ false)
      × (0 < n → r.0.pkt_sent ≡ 0)
      × (n ≡ 0 → r.0.pkt_sent ≡ burst.pkt_sent)

  burst-leaves :
      (done : List ℕ) (n rate : ℕ) (trial : Trial) (t : Tester)
      → Split done 0 burst.pkt_sent n n (ltb 0 n) t
      → ¬ rate ≡ 0
      → Ends n rate trial t.flow_gen
      → Returns (BurstLeaves n) (a_burst e rate 5 trial.begin trial.rounds (starting t.flow_gen))
  burst-leaves done zero rate trial t s positive ends =
      let stops : Stopped (burst, true) =
        rw (ends refl) at
          (a_burst-Stopped e rate 5 trial.begin trial.rounds (starting t.flow_gen)) in
      rw (ends refl) (refl, unfold Stopped in stops refl, λ l. absurd (omega arith), λ _. refl)
  burst-leaves done (suc n) rate trial t s positive ends =
      let stopped = s.stopped (ground arith) in
      rw (a_burst-idle e rate 5 trial.begin trial.rounds (starting t.flow_gen) positive stopped)
        (refl, stopped, λ _. refl, λ z. absurd (omega (arith, z)))

  -- What a round leaves, in which `count` messages come.
  unfoldable pub RoundLeaves : (done : List ℕ) (count n : ℕ) → Outcome → Type 0
  RoundLeaves done count n o =
      (o.ended ≡ true)
      × Split (done ++ count ∷ []) 0 burst.pkt_sent (n + 1) n true o.tester
      × ReceivedNone o.group
      × (0 < n → SentNone o.group)
      × (n ≡ 0 → o.group.sent_flow ≡ burst.pkt_sent)

  close_group-leaves :
      (done : List ℕ) (count n : ℕ) (g : Group) (t : Tester)
      → n < 2047
      → Split done count burst.pkt_sent n n true t
      → ReceivedNone g
      → (0 < n → SentNone g)
      → (n ≡ 0 → g.sent_flow ≡ burst.pkt_sent)
      → Returns (RoundLeaves done count n) (close_group e 5 g t)
  unfolding close_group RoundLeaves
  close_group-leaves done count n g t few s hr hs h0 = (
    refl,
    record {
      receiving = s.receiving;
      pushed = s.pushed;
      groups = s.groups;
      many = s.many;
      sent_none = s.sent_none;
      rounds = omega (arith, s.rounds, length-append done (count ∷ []));
      counted =
          s.counted
          ∙ ap (λ k. done ++ count ∷ replicate k 0) left
          ∙ sym (append_assoc done (count ∷ []) (0 ∷ replicate (2047 - (n + 1)) 0));
      received_none = s.received_none;
      sents = s.sents;
      place = omega (arith, s.place);
      stopped = s.stopped;
    },
    hr,
    hs,
    h0,
  )
    where
      left : 2047 - n ≡ suc (2047 - (n + 1))
      left = omega arith

  pub group_test-leaves :
      (done : List ℕ) (n rate : ℕ) (trial : Trial) (t : Tester)
      → n < 2047
      → ¬ rate ≡ 0
      → Split done 0 burst.pkt_sent n n (ltb 0 n) t
      → Ends n rate trial t.flow_gen
      → Returns (RoundLeaves done (arrived trial) n) (group_test e trial new_group 5 rate t)
  unfolding group_test RoundLeaves
  group_test-leaves done n rate trial t few positive s ends =
      Returns->>= (BurstLeaves n) (RoundLeaves done (arrived trial) n)
        (a_burst e rate 5 trial.begin trial.rounds (starting t.flow_gen)) _
        (burst-leaves done n rate trial t s positive ends)
        λ r h.
          Returns->>= (Split done (arrived trial) burst.pkt_sent n n true)
            (RoundLeaves done (arrived trial) n)
            (receive trial.arrivals (record t { flow_gen = r.0.gen })) _
            (rw from_none at (
              receive-Split done 0 burst.pkt_sent n true trial.arrivals
                (record t { flow_gen = r.0.gen }) (omega arith) (omega arith) (with_generator r h)))
            λ t' s'. rw h.0 (
              close_group-leaves done (arrived trial) n
                (record new_group { sent_flow = r.0.pkt_sent }) t' few s' refl h.2 h.3)
    where
      from_none : (0 + length trial.arrivals) % u32 ≡ arrived trial
      from_none = omega arith

      with_generator :
          (r : Sending Unit × Bool)
          → BurstLeaves n r
          → Split done 0 burst.pkt_sent n n true (record t { flow_gen = r.0.gen })
      with_generator r h = record {
        receiving = s.receiving;
        pushed = s.pushed;
        groups = s.groups;
        many = s.many;
        sent_none = s.sent_none;
        rounds = s.rounds;
        counted = s.counted;
        received_none = s.received_none;
        sents = s.sents;
        place = s.place;
        stopped = λ _. h.1;
      }
