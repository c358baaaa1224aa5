-- ===== src/Session/Writer/Order.antt =====
-- In which order the bytes of the messages reach the socket.
use euthenia.Prelude.{
  ℕ, zero, suc, ◌≡◌, refl, sym, ap, ◌∙◌, List, [], ◌∷◌, ◌++◌, append-nil, append_assoc, length,
  concat, concat-append, take-append-drop, take_all, drop_all,
}
use euthenia.Dispatcher.{Message}
use euthenia.Session.Writer.{
  Writer, init, write, write_in_io_thread, start_oldest, sent_at, left_at, over_at, handle_write,
  Event, writes, starts, sends, ends, fails, step, run,
}

-- At most one `async_write` is outstanding.
abbrev pub IsSingle : List (List ℕ) → Type 0
IsSingle [] = Unit
IsSingle (op ∷ []) = Unit
IsSingle (op ∷ op' ∷ ops) = ⊥

-- A write is started only when none is outstanding, and none fails.
abbrev pub Serial : List Event → Writer → Type 0
Serial [] s = Unit
Serial (starts ∷ evs) s = (s.in_flight ≡ []) × Serial evs (step starts s)
Serial (fails i ∷ evs) s = ⊥
Serial (ev ∷ evs) s = Serial evs (step ev s)

-- The messages given to `write`, in order.
abbrev pub written : List Event → List Message
written [] = []
written (writes message ∷ evs) = message ∷ written evs
written (ev ∷ evs) = written evs

-- All bytes, sent and to be sent, in the order of sending.
abbrev pub stream : Writer → List ℕ
stream s = s.socket ++ (concat s.in_flight ++ concat s.posted)

sends-stream :
    (i k : ℕ) (ops : List (List ℕ))
    → IsSingle ops
    → IsSingle (left_at i k ops) × (sent_at i k ops ++ concat (left_at i k ops) ≡ concat ops)
unfolding left_at sent_at
sends-stream i k [] one = (tt, refl)
sends-stream zero k (op ∷ []) one = (tt, simp (append-nil, take-append-drop))
sends-stream (suc i) k (op ∷ []) one = (tt, refl)
sends-stream i k (op ∷ op' ∷ ops) one = absurd one

ends-stream :
    (i : ℕ) (ops : List (List ℕ))
    → IsSingle ops
    → IsSingle (over_at i ops) × (concat (over_at i ops) ≡ concat ops)
unfolding over_at
ends-stream i [] one = (tt, refl)
ends-stream zero ([] ∷ []) one = (tt, refl)
ends-stream zero ((b ∷ op) ∷ []) one = (tt, refl)
ends-stream (suc i) (op ∷ []) one = (tt, refl)
ends-stream i (op ∷ op' ∷ ops) one = absurd one

starts-stream :
    (ms : List Message) (s : Writer)
    → s.posted ≡ ms
    → s.in_flight ≡ []
    → IsSingle (start_oldest ms s).in_flight × (stream (start_oldest ms s) ≡ stream s)
unfolding start_oldest
starts-stream [] s p none = rw none (tt, refl)
starts-stream (m ∷ ms) s p none = rw (none, p) (tt, simp append-nil)

writes-stream : (m : Message) (s : Writer) → stream (write m s) ≡ stream s ++ m
unfolding write
writes-stream m s = simp (concat-append, append-nil, append_assoc)

regroup :
    (done sent left posted : List ℕ) {ops : List ℕ}
    → sent ++ left ≡ ops
    → (done ++ sent) ++ (left ++ posted) ≡ done ++ (ops ++ posted)
regroup done sent left posted e =
    append_assoc done sent (left ++ posted)
    ∙ ap (λ xs. done ++ xs) (sym (append_assoc sent left posted) ∙ ap (λ xs. xs ++ posted) e)

-- One step, in any order but a start of a second write, keeps the stream.
pub step-stream :
    (ev : Event) (s : Writer)
    → IsSingle s.in_flight
    → Serial (ev ∷ []) s
    → IsSingle (step ev s).in_flight × (stream (step ev s) ≡ stream s ++ concat (written (ev ∷ [])))
unfolding step
step-stream (writes m) s one serial =
    (unfold write in one, writes-stream m s ∙ ap (λ xs. stream s ++ xs) (sym (append-nil m)))
step-stream starts s one (none, serial) =
    let (one', same) = starts-stream s.posted s refl none in
    (
      unfold write_in_io_thread in one',
      unfold write_in_io_thread in (same ∙ sym (append-nil (stream s))),
    )
step-stream (sends i k) s one serial =
    let (one', same) = sends-stream i k s.in_flight one in
    (one', regroup s.socket _ _ (concat s.posted) same ∙ sym (append-nil (stream s)))
step-stream (ends i) s one serial =
    let (one', same) = ends-stream i s.in_flight one in
    (
      unfold handle_write in one',
      unfold handle_write in
          (ap (λ xs. s.socket ++ (xs ++ concat s.posted)) same ∙ sym (append-nil (stream s))),
    )
step-stream (fails i) s one serial = absurd serial

Serial-head :
    (ev : Event) (evs : List Event) (s : Writer)
    → Serial (ev ∷ evs) s
    → Serial (ev ∷ []) s × Serial evs (step ev s)
Serial-head (writes m) evs s h = (tt, h)
Serial-head starts evs s h = ((h.0, tt), h.1)
Serial-head (sends i k) evs s h = (tt, h)
Serial-head (ends i) evs s h = (tt, h)
Serial-head (fails i) evs s h = absurd h

written-cons :
    (ev : Event) (evs : List Event) → written (ev ∷ evs) ≡ written (ev ∷ []) ++ written evs
written-cons (writes m) evs = refl
written-cons starts evs = refl
written-cons (sends i k) evs = refl
written-cons (ends i) evs = refl
written-cons (fails i) evs = refl

-- If no write is started before the last one is over, and none fails, the socket takes the
-- messages whole, in the order in which they were written, however the sends are cut.
pub run-stream :
    (evs : List Event) (s : Writer)
    → IsSingle s.in_flight
    → Serial evs s
    → stream (run evs s) ≡ stream s ++ concat (written evs)
unfolding run
run-stream [] s one serial = sym (append-nil (stream s))
run-stream (ev ∷ evs) s one serial =
    let (now, later) = Serial-head ev evs s serial in
    let (one', same) = step-stream ev s one now in
    run-stream evs (step ev s) one' later
    ∙ rw (same, written-cons ev evs)
        (append_assoc (stream s) (concat (written (ev ∷ []))) (concat (written evs))
          ∙ ap (λ xs. stream s ++ xs) (sym (concat-append (written (ev ∷ [])) (written evs))))

-- Nothing keeps a second write from being started while the first is under way. Then the socket may
-- take the second message in the middle of the first.
pub run-interleaved :
    (x y : ℕ) (xs ys : List ℕ)
    → (evs : List Event) × (written evs ≡ (x ∷ xs) ∷ (y ∷ ys) ∷ [])
      × ((run evs init).socket ≡ x ∷ ((y ∷ ys) ++ xs))
      × ((run evs init).in_flight ≡ [])
unfolding run step over_at
run-interleaved x y xs ys =
    (evs, refl, rw (take_all ys, take_all xs), rw (drop_all xs, drop_all ys))
  where
    evs : List Event
    evs =
        writes (x ∷ xs)
        ∷ writes (y ∷ ys)
        ∷ starts
        ∷ starts
        ∷ sends 0 1
        ∷ sends 1 (suc (length ys))
        ∷ sends 0 (length xs)
        ∷ ends 0
        ∷ ends 0
        ∷ []
