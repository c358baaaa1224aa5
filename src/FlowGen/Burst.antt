-- ===== src/FlowGen/Burst.antt =====
-- What a burst sends, and what it leaves behind: `a_burst` of FlowGen.cpp.
use euthenia.Prelude.{
  After-map, After-next, After, After->>=, After-if, After-any, ℕ, zero, suc, ◌≡◌, refl, Bool, true,
  false, ◌==◌, List, [], ◌∷◌, arith, ok,
}
use euthenia.Prelude.Int.{ltb_ℤ, pos}
use euthenia.Machine.Endian.{Endian}
use euthenia.FlowGen.{Sending, Round, Attempt, a_burst, burst_loop, send_from, send_one}
use euthenia.FlowGen.Time.{Timespec, timeval_subtract, timespec_add}

-- What holds of a burst that has ended.
unfoldable pub Stopped : {W : Type 0} → Sending W × Bool → Type 0
Stopped r = r.1 ≡ true → r.0.gen.is_run ≡ false

module _ {W : Type 0} (e : Endian) where
  -- Nothing that holds before a transmission and after it, or when `is_run` is cleared, is lost in a burst.
  module _ (I : Sending W → Type 0)
      (send_one-keeps : (a : Attempt) (s : Sending W) → I s → After I (send_one e a s))
      (stop-keeps : (s : Sending W)
        → I s
        → I (record s { gen = record s.gen { is_run = false } })) where
    abbrev KeptAndStopped : Sending W × Bool → Type 0
    KeptAndStopped r = I r.0 × Stopped r

    send_from-keeps :
        (left i : ℕ) (attempts : ℕ → Attempt) (s : Sending W)
        → I s
        → After I (send_from e left i attempts s)
    unfolding send_from
    send_from-keeps zero i attempts s h = h
    send_from-keeps (suc left) i attempts s h =
        After->>= I I (send_one e (attempts i) s) _ (send_one-keeps (attempts i) s h)
          λ s' h'. send_from-keeps left (suc i) attempts s' h'

    burst_loop-keeps :
        (nsleep : Timespec) (last_sec : ℕ) (rounds : List Round) (sec_beg deadline : Timespec)
        (s : Sending W)
        → I s
        → After KeptAndStopped (burst_loop e nsleep last_sec rounds sec_beg deadline s)
    unfolding burst_loop Stopped
    burst_loop-keeps nsleep last_sec [] sec_beg deadline s h =
        (h, λ stopped. grind (arith, stopped))
    burst_loop-keeps nsleep last_sec (r ∷ rs) sec_beg deadline s h =
        After-if KeptAndStopped s.gen.is_run _ _
          (λ _. After-next KeptAndStopped (timeval_subtract r.sec_end sec_beg) _ λ d.
            After-if KeptAndStopped (ltb_ℤ d.result.tv_sec (pos last_sec)) _ _
              (λ _.
                After->>= I KeptAndStopped (send_from e s.gen.fector 0 r.attempts s) _
                  (send_from-keeps s.gen.fector 0 r.attempts s h)
                  λ s' h'.
                    After-next KeptAndStopped
                      (timeval_subtract (timespec_add deadline nsleep) r.now) _
                      λ _.
                        burst_loop-keeps nsleep last_sec rs d.y_after (timespec_add deadline nsleep)
                          s' h')
              (λ _. (stop-keeps s h, λ _. refl)))
          (λ idle. (h, λ _. idle))

    pub a_burst-keeps :
        (packet_per_sec last_sec : ℕ) (begin : Timespec) (rounds : List Round) (s : Sending W)
        → I s
        → After
            (λ (r : Sending W × Bool). I r.0 × Stopped r)
            (a_burst e packet_per_sec last_sec begin rounds s)
    unfolding a_burst
    a_burst-keeps packet_per_sec last_sec begin rounds s h =
        After-if KeptAndStopped (packet_per_sec == 0) _ _ (λ _. tt)
          (λ _. burst_loop-keeps _ last_sec rounds begin _ s h)

  pub a_burst-Stopped :
      (packet_per_sec last_sec : ℕ) (begin : Timespec) (rounds : List Round) (s : Sending W)
      → After Stopped (a_burst e packet_per_sec last_sec begin rounds s)
  a_burst-Stopped packet_per_sec last_sec begin rounds s =
      After-map (λ (r : Sending W × Bool). Unit {0} × Stopped r) Stopped
        (a_burst e packet_per_sec last_sec begin rounds s)
        (a_burst-keeps (λ _. Unit) (λ a s' _. After-any (send_one e a s')) (λ _ _. tt)
          packet_per_sec last_sec begin rounds s tt)
        (λ r h. h.1)

  -- With `is_run` false a burst ends at once.
  pub a_burst-idle :
      (packet_per_sec last_sec : ℕ) (begin : Timespec) (rounds : List Round) (s : Sending W)
      → ¬ packet_per_sec ≡ 0
      → s.gen.is_run ≡ false
      → a_burst e packet_per_sec last_sec begin rounds s ≡ ok (s, true)
  unfolding a_burst burst_loop
  a_burst-idle packet_per_sec last_sec begin [] s positive idle = ground (arith, positive, idle)
  a_burst-idle packet_per_sec last_sec begin (r ∷ rs) s positive idle =
      ground (arith, positive, idle)

  -- A generator gives one burst: after one that has ended, every further burst, at whatever rate above 0
  -- and for however long, ends at once and sends nothing.
  pub a_burst-once :
      (rate last_sec rate' last_sec' : ℕ) (begin begin' : Timespec) (rounds rounds' : List Round)
      (s s' : Sending W)
      → a_burst e rate last_sec begin rounds s ≡ ok (s', true)
      → ¬ rate' ≡ 0
      → a_burst e rate' last_sec' begin' rounds' s' ≡ ok (s', true)
  unfolding Stopped
  a_burst-once rate last_sec rate' last_sec' begin begin' rounds rounds' s s' ended positive =
      a_burst-idle rate' last_sec' begin' rounds' s' positive (stopped refl)
    where
      stopped : Stopped (s', true)
      stopped = rw ended at (a_burst-Stopped rate last_sec begin rounds s)
