-- ===== src/Tester/Rounds.antt =====
-- A whole test: `do_test` of PacketInTester.cpp.
use euthenia.Prelude.{
  length, Returns, Returns->>=, Returns-if, Returns-result, map, take, ap, ◌∙◌, ◌-◌, replicate,
  replicate_snoc, append-nil, All-map, ◌⊎◌, inl, inr, ℕ, zero, suc, ◌+◌, ◌*◌, ◌%◌, ◌<◌, ◌≤◌, ◌≡◌,
  refl, Bool, true, List, [], ◌∷◌, ◌++◌, append_assoc, ltb, leb, ok, All, All-append, arith,
}
use euthenia.Machine.Endian.{Endian}
use euthenia.Session.Writer.{Writer}
use euthenia.FlowGen.{FlowGen, Sending, a_burst, u32}
use euthenia.Tester.{
  Group, new_group, Tester, new_tester, Trial, Outcome, group_test, do_test_from, do_test,
}
use mathlib.Core.List.{map-append}
use euthenia.Tester.Groups.{sent_in, Split, SentNone, ReceivedNone, new_tester-Split}
use euthenia.Tester.Leaves.{
  arrived, starting, EndsFirst, ends_later, RoundLeaves, group_test-leaves,
}

sent_in_suc :
    (sent n k : ℕ)
    → (0 < n → k ≡ 0)
    → (n ≡ 0 → k ≡ sent)
    → sent_in n sent ++ k ∷ [] ≡ sent_in (n + 1) sent
sent_in_suc sent zero k later first = ap (λ x. x ∷ []) (first refl)
sent_in_suc sent (suc n) k later first =
    let next : suc (suc n) ≡ suc n + 1 = omega arith in
    ap (λ x. sent ∷ (replicate n 0 ++ x ∷ [])) (later (omega arith))
    ∙ ap (◌∷◌ sent) (replicate_snoc n 0)
    ∙ ap (λ m. sent_in m sent) next

module _ (e : Endian) (burst : Sending Unit) where
  -- The group of a round is pushed.
  push-Split :
      (done : List ℕ) (count n : ℕ) (o : Outcome)
      → RoundLeaves e burst done count n o
      → Split
          (done ++ count ∷ [])
          0
          burst.pkt_sent
          (n + 1)
          (n + 1)
          (ltb 0 (n + 1))
          (record o.tester { groups = o.tester.groups ++ o.group ∷ [] })
  unfolding RoundLeaves
  push-Split done count n o h =
      let s = h.1 in
      record {
        receiving = s.receiving;
        pushed = s.pushed ++ o.group ∷ [];
        groups = rw s.groups (append_assoc s.receiving s.pushed (o.group ∷ []));
        many = s.many;
        sent_none = s.sent_none;
        rounds = s.rounds;
        counted = s.counted;
        received_none = All-append ReceivedNone s.pushed (o.group ∷ []) s.received_none (h.2, tt);
        sents =
            map-append (λ (g : Group). g.sent_flow) s.pushed (o.group ∷ [])
            ∙ ap (λ ks. ks ++ o.group.sent_flow ∷ []) s.sents
            ∙ sent_in_suc burst.pkt_sent n o.group.sent_flow h.3 h.4;
        place = s.place;
        stopped = λ _. s.stopped refl;
      }

  Finished : (done : List ℕ) → Tester × Bool → Type 0
  Finished done r = (r.1 ≡ true) × Split done 0 burst.pkt_sent 20 20 true r.0

  all_rounds :
      (done : List ℕ) (n : ℕ) (trials : List Trial) (t : Tester)
      → n ≡ 20
      → Split done 0 burst.pkt_sent n n (ltb 0 n) t
      → Split (done ++ map arrived (take (20 - n) trials)) 0 burst.pkt_sent 20 20 true t
  all_rounds done n trials t last s = rw (last, append-nil done) (rw last at s)

  do_test_from-Finished :
      (done : List ℕ) (n : ℕ) (trials : List Trial) (t : Tester)
      → n ≤ 20
      → 20 ≤ n + length trials
      → Split done 0 burst.pkt_sent n n (ltb 0 n) t
      → EndsFirst e burst n trials t.flow_gen
      → Returns
          (Finished (done ++ map arrived (take (20 - n) trials)))
          (do_test_from e (100 * n + 100) trials t)
  unfolding do_test_from Finished
  do_test_from-Finished done n [] t few enough s ends =
      let last : n ≡ 20 = omega (arith, few, enough) in
      (ground (arith, last), all_rounds done n [] t last s)
  do_test_from-Finished done n (trial ∷ trials) t few enough s ends =
      Returns-if (Finished (done ++ map arrived (take (20 - n) (trial ∷ trials))))
        (leb (100 * n + 100) 2000) _ _
        (λ going.
          Returns->>= (RoundLeaves e burst done (arrived trial) n)
            (Finished (done ++ map arrived (take (20 - n) (trial ∷ trials))))
            (group_test e trial new_group 5 (100 * n + 100) t) _
            (group_test-leaves e burst done n (100 * n + 100) trial t (omega arith) (omega arith) s
              ends)
            λ o h.
              let next : (100 * n + 100 + 100) % u32 ≡ 100 * (n + 1) + 100 = omega arith in
              let soon : n + 1 ≤ 20 = ground (arith, going) in
              let left : 20 - n ≡ suc (20 - (n + 1)) = omega arith in
              rw (ended o h, next, left)
                (rw
                  (append_assoc done (arrived trial ∷ [])
                    (map arrived (take (20 - (n + 1)) trials)))
                  at
                  (do_test_from-Finished (done ++ arrived trial ∷ []) (n + 1) trials _ soon
                    (omega (arith, enough)) (push-Split done (arrived trial) n o h)
                    (ends_later e burst n trials _))))
        (λ done_all.
          let last : n ≡ 20 = ground (arith, done_all) in
          (refl, all_rounds done n (trial ∷ trials) t last s))
    where
      ended : (o : Outcome) → RoundLeaves e burst done (arrived trial) n o → o.ended ≡ true
      ended o h = unfold RoundLeaves in h.0

-- If the burst of the first of 20 rounds or more ends, the test ends, without a fault, and has pushed 20 groups after
-- the 2048 that were there, and these hold the numbers apart. The packet-in messages of the n-th round are counted in
-- the n-th of the first 2048 groups, and none in the others; these 2048 have sent nothing. What the bursts have sent
-- stands in the pushed groups, which have received nothing: the first one's count in the first, and 0 in the others.
pub do_test-Split :
    (e : Endian) (generator : FlowGen Unit) (session : Writer) (trial : Trial) (trials : List Trial)
    (burst : Sending Unit)
    → a_burst e 100 5 trial.begin trial.rounds (starting generator) ≡ ok (burst, true)
    → 19 ≤ length trials
    → (t : Tester) × (do_test e (trial ∷ trials) (new_tester generator session) ≡ ok (t, true))
      × Split (map arrived (take 20 (trial ∷ trials))) 0 burst.pkt_sent 20 20 true t
      × All (λ g. SentNone g ⊎ ReceivedNone g) t.groups
unfolding do_test Finished
do_test-Split e generator session trial trials burst first enough =
    let ((t, over), runs, finished) =
      Returns-result (Finished e burst (map arrived (take 20 (trial ∷ trials))))
        (do_test e (trial ∷ trials) (new_tester generator session))
        (do_test_from-Finished e burst [] 0 (trial ∷ trials) (new_tester generator session)
          (omega arith) (omega (arith, enough)) (new_tester-Split burst.pkt_sent generator session)
          (unfold new_tester in λ z. first)) in
    (t, runs ∙ ap (λ b. ok (t, b)) finished.0, finished.1, apart t finished.1)
  where
    apart :
        (t : Tester)
        → Split (map arrived (take 20 (trial ∷ trials))) 0 burst.pkt_sent 20 20 true t
        → All (λ g. SentNone g ⊎ ReceivedNone g) t.groups
    apart t split = rw split.groups (
        All-append (λ g. SentNone g ⊎ ReceivedNone g) split.receiving split.pushed
          (All-map SentNone (λ g. SentNone g ⊎ ReceivedNone g) split.receiving (λ g. inl)
            split.sent_none)
          (All-map ReceivedNone (λ g. SentNone g ⊎ ReceivedNone g) split.pushed (λ g. inr)
            split.received_none))
