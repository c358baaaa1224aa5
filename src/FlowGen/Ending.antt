-- ===== src/FlowGen/Ending.antt =====
-- When a burst ends: the loop of `a_burst` of FlowGen.cpp.
use euthenia.Prelude.{
  After-map, After-both, Result, ◌/◌, After, After-next, After-if, ℕ, ◌*◌, ◌≡◌, refl, ap, Bool,
  true, false, List, [], ◌∷◌, ◌++◌, ◌==◌, All, arith,
}
use euthenia.Prelude.Int.{
  pos, pos_part, neg_part, ltb_ℤ, ◌+ℤ◌, ◌≤ℤ◌, ◌<ℤ◌, int_laws, parts_apart, ≤→ltb_ℤ,
}
use euthenia.Machine.Endian.{Endian}
use euthenia.FlowGen.{Sending, Round, a_burst, burst_loop, send_from}
use euthenia.FlowGen.Burst.{Stopped, a_burst-Stopped}
use euthenia.FlowGen.Time.{
  Timespec, nsec, timeval_subtract, timespec_add, nanos, IsNormal, Difference,
}
use euthenia.FlowGen.Time.Subtract.{IsNear, IsDifference, timeval_subtract_lem}

-- More than `last_sec` seconds after `begin`.
abbrev pub IsPast : Timespec → ℕ → Timespec → Type 0
IsPast begin last_sec now = nanos begin +ℤ pos (last_sec * nsec) <ℤ nanos now

past_seconds :
    (x y : Timespec) (d : Difference) (last_sec : ℕ)
    → IsDifference x y d
    → IsPast y last_sec x
    → pos last_sec ≤ℤ d.result.tv_sec
unfolding nanos
past_seconds x y d last_sec h past =
    omega (int_laws, ap pos_part h.exact, ap neg_part h.exact, h.high, parts_apart d.result.tv_sec)

module _ {W : Type 0} (e : Endian) (nsleep : Timespec) (last_sec : ℕ) where
  Ended : Sending W × Bool → Type 0
  Ended r = r.1 ≡ true

  -- The last round.
  last_round :
      (r : Round) (sec_beg deadline : Timespec) (s : Sending W)
      → IsNear sec_beg
      → IsNormal r.sec_end
      → IsPast sec_beg last_sec r.sec_end
      → After Ended (burst_loop e nsleep last_sec (r ∷ []) sec_beg deadline s)
  unfolding burst_loop Ended
  last_round r sec_beg deadline s near normal past =
      let (d, runs, h) = timeval_subtract_lem r.sec_end sec_beg normal near in
      let over =
        ≤→ltb_ℤ d.result.tv_sec (pos last_sec) (past_seconds r.sec_end sec_beg d last_sec h past) in
      rw (runs, over) (After-if Ended s.gen.is_run _ _ (λ _. refl) (λ _. refl))

  burst_loop-Ended :
      (rounds : List Round) (r : Round) (sec_beg deadline : Timespec) (s : Sending W)
      → IsNear sec_beg
      → All (λ (q : Round). IsNormal q.sec_end) rounds
      → IsNormal r.sec_end
      → IsPast sec_beg last_sec r.sec_end
      → After Ended (burst_loop e nsleep last_sec (rounds ++ r ∷ []) sec_beg deadline s)
  unfolding burst_loop Ended
  burst_loop-Ended [] r sec_beg deadline s near normals normal past =
      last_round r sec_beg deadline s near normal past
  burst_loop-Ended (q ∷ rounds) r sec_beg deadline s near normals normal past =
      let (d, runs, h) = timeval_subtract_lem q.sec_end sec_beg normals.0 near in
      let past' : IsPast d.y_after last_sec r.sec_end = rw (h.y_same) past in
      rw runs (
        After-if Ended s.gen.is_run _ _
          (λ _.
            After-if Ended (ltb_ℤ d.result.tv_sec (pos last_sec)) _ _
              (λ _. After-next Ended (send_from e s.gen.fector 0 q.attempts s) _ λ s'.
                After-next Ended (timeval_subtract (timespec_add deadline nsleep) q.now) _ λ _.
                  burst_loop-Ended rounds r d.y_after (timespec_add deadline nsleep) s' h.y_near
                    normals.1 normal past')
              (λ _. refl))
          (λ _. refl))

-- With a clock that gives normal times a burst ends, at the latest, at the first reading that is more than `last_sec`
-- seconds after the beginning, at every rate above 0: unless a callback or the arithmetic for the sleep has failed.
pub a_burst-ends :
    {W : Type 0} (e : Endian) (packet_per_sec last_sec : ℕ) (begin : Timespec) (rounds : List Round)
    (r : Round) (s : Sending W)
    → IsNormal begin
    → All (λ (q : Round). IsNormal q.sec_end) rounds
    → IsNormal r.sec_end
    → IsPast begin last_sec r.sec_end
    → After
        (λ (t : Sending W × Bool). (t.1 ≡ true) × (t.0.gen.is_run ≡ false))
        (a_burst e packet_per_sec last_sec begin (rounds ++ r ∷ []) s)
unfolding a_burst Stopped Ended
a_burst-ends {W} e packet_per_sec last_sec begin rounds r s normal_begin normals normal past =
    After-map (λ t. Ended e nsleep last_sec t × Stopped t)
      (λ (t : Sending W × Bool). (t.1 ≡ true) × (t.0.gen.is_run ≡ false)) burst
      (After-both (Ended e nsleep last_sec) Stopped burst
        (After-if (Ended e nsleep last_sec) (packet_per_sec == 0) _ _ (λ _. tt)
          (λ _.
            burst_loop-Ended e nsleep last_sec rounds r begin (timespec_add begin nsleep) s
              (omega arith, omega arith) normals normal past))
        (a_burst-Stopped e packet_per_sec last_sec begin (rounds ++ r ∷ []) s))
      (λ t h. (h.0, h.1 h.0))
  where
    nsleep : Timespec
    nsleep = record { tv_sec = pos 0; tv_nsec = pos (nsec / packet_per_sec) }

    burst : Result (Sending W × Bool)
    burst = a_burst e packet_per_sec last_sec begin (rounds ++ r ∷ []) s
