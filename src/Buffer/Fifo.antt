-- ===== src/Buffer/Fifo.antt =====
-- The order of an OFPBuffer, and what it does when it has been emptied.
use euthenia.Prelude.{
  suc, ◌≡◌, refl, sym, ap, ◌∙◌, false, Option, none, some, List, [], ◌∷◌, ◌++◌, map, append_assoc,
  append-nil, length, replicate, fault, out_of_bounds, After, After->>=, After-map, After-if,
  Result, fault, ◌>>=◌, true, ok, Bool-cases, inl, inr,
}
use mathlib.Core.List.{cons≢nil}
use mathlib.Core.Bool.{false≢true}
use euthenia.Dispatcher.{Message}
use euthenia.Buffer.{
  OfpBuffer, new_buffer, push_back, front_and_pop, get_front, Call, pushes, gets, given, run,
}

-- The messages that the calls push.
abbrev pub pushed : List Call → List Message
pushed [] = []
pushed (pushes m ∷ calls) = m ∷ pushed calls
pushed (gets ∷ calls) = pushed calls

front_and_pop-split :
    (ms : List Message) (b : OfpBuffer)
    → After (λ (r : Option Message × OfpBuffer). given r.0 r.1.buffer ≡ ms) (front_and_pop ms b)
unfolding front_and_pop
front_and_pop-split [] b = tt
front_and_pop-split (m ∷ ms) b = refl

get_front-split :
    (b : OfpBuffer)
    → After (λ (r : Option Message × OfpBuffer). given r.0 r.1.buffer ≡ b.buffer) (get_front b)
unfolding get_front
get_front-split b =
    After-if (λ (r : Option Message × OfpBuffer). given r.0 r.1.buffer ≡ b.buffer) b.is_empty _ _
      (λ _. refl) (λ _. front_and_pop-split b.buffer b)

given_append : (r : Option Message) (xs ys : List Message) → given r xs ++ ys ≡ given r (xs ++ ys)
given_append none xs ys = refl
given_append (some m) xs ys = refl

-- Whatever calls the threads make, and in whatever order: as long as none of them is undefined, messages
-- are handed out in the order in which they were pushed, each once, and the rest is in the buffer.
run-pushed :
    (calls : List Call) (b : OfpBuffer)
    → After
        (λ (r : List Message × OfpBuffer). r.0 ++ r.1.buffer ≡ b.buffer ++ pushed calls)
        (run calls b)
unfolding run
run-pushed [] b = sym (append-nil b.buffer)
run-pushed (pushes m ∷ calls) b =
    After-map _ _ (run calls (push_back m b)) (run-pushed calls (push_back m b))
      λ r h. h ∙ unfold push_back in append_assoc b.buffer (m ∷ []) (pushed calls)
run-pushed (gets ∷ calls) b =
    After->>= (λ (r : Option Message × OfpBuffer). given r.0 r.1.buffer ≡ b.buffer) _ (get_front b)
      _ (get_front-split b)
      λ r h.
        After->>= (λ (s : List Message × OfpBuffer). s.0 ++ s.1.buffer ≡ r.1.buffer ++ pushed calls)
          _ (run calls r.1) _ (run-pushed calls r.1)
          λ s hs.
            given_append r.0 s.0 s.1.buffer
            ∙ ap (given r.0) hs
            ∙ sym (given_append r.0 r.1.buffer (pushed calls))
            ∙ ap (λ xs. xs ++ pushed calls) h

drain-fault :
    (ms : List Message)
    → run (replicate (suc (length ms)) gets) (record { is_empty = false; buffer = ms })
      ≡ fault out_of_bounds
unfolding run get_front front_and_pop
drain-fault [] = refl
drain-fault (m ∷ ms) = rw (drain-fault ms) refl

run-pushes :
    (ms : List Message) (calls : List Call) (b : OfpBuffer)
    → b.is_empty ≡ false
    → run (map pushes ms ++ calls) b
      ≡ run calls (record { is_empty = false; buffer = b.buffer ++ ms })
unfolding run push_back
run-pushes [] calls b used = rw (append-nil b.buffer, sym used) refl
run-pushes (m ∷ ms) calls b used =
    run-pushes ms calls (push_back m b) refl
    ∙ ap (λ xs. run calls (record { is_empty = false; buffer = xs }))
        (append_assoc b.buffer (m ∷ []) ms)

-- `is_empty_` is never set again: once a message has been pushed, a call of `getFront` on the emptied queue does
-- not wait for the next message but takes the front of an empty queue.
pub run-emptied :
    (m : Message) (ms : List Message)
    → run (map pushes (m ∷ ms) ++ replicate (suc (length (m ∷ ms))) gets) new_buffer
      ≡ fault out_of_bounds
unfolding new_buffer
run-emptied m ms = pushed_all ∙ drain-fault (m ∷ ms)
  where
    pushed_all :
        run (map pushes (m ∷ ms) ++ replicate (suc (length (m ∷ ms))) gets) new_buffer
        ≡ run
            (replicate (suc (length (m ∷ ms))) gets)
            (record { is_empty = false; buffer = m ∷ ms })
    pushed_all =
        unfold run push_back in
        run-pushes ms (replicate (suc (length (m ∷ ms))) gets) (push_back m new_buffer) refl

abbrev put_first :
    Message → Option (List Message × List Message) → Option (List Message × List Message)
put_first m none = none
put_first m (some r) = some (m ∷ r.0, r.1)

-- A queue that is only asked when something is in it: the messages handed out, and the rest.
unfoldable pub fifo : List Call → List Message → Option (List Message × List Message)
fifo [] q = some ([], q)
fifo (pushes m ∷ calls) q = fifo calls (q ++ m ∷ [])
fifo (gets ∷ calls) [] = none
fifo (gets ∷ calls) (m ∷ q) = put_first m (fifo calls q)

-- `is_empty_` is set only before the first message.
abbrev pub IsMarked : OfpBuffer → Type 0
IsMarked b = b.is_empty ≡ true → b.buffer ≡ []

get_front-head :
    (b : OfpBuffer) (m : Message) (q : List Message)
    → IsMarked b
    → b.buffer ≡ m ∷ q
    → get_front b ≡ ok (some m, record b { buffer = q })
unfolding get_front front_and_pop
get_front-head b m q marked held = elim (Bool-cases b.is_empty) [
  | inl e ↦ absurd (cons≢nil (sym held ∙ marked e))
  | inr e ↦ rw (e, held) refl
]

-- A run that ends as the queue says.
abbrev pub Follows :
    Option (List Message × List Message) → Result (List Message × OfpBuffer) → Type 0
Follows none r = Unit
Follows (some f) (ok r) = (r.0 ≡ f.0) × (r.1.buffer ≡ f.1)
Follows (some f) (fault e) = ⊥

Follows-put_first :
    (m : Message) (f : Option (List Message × List Message)) (r : Result (List Message × OfpBuffer))
    → Follows f r
    → Follows (put_first m f) (r >>= λ s. ok (m ∷ s.0, s.1))
Follows-put_first m none r h = tt
Follows-put_first m (some f) (ok r) h = (ap (◌∷◌ m) h.0, h.1)
Follows-put_first m (some f) (fault e) h = h

gets-Follows :
    (calls : List Call) (b : OfpBuffer) (q : List Message)
    → IsMarked b
    → b.buffer ≡ q
    → ((b' : OfpBuffer) → IsMarked b' → Follows (fifo calls b'.buffer) (run calls b'))
    → Follows (fifo (gets ∷ calls) q) (run (gets ∷ calls) b)
unfolding run fifo
gets-Follows calls b [] marked held next = tt
gets-Follows calls b (m ∷ q) marked held next = rw (get_front-head b m q marked held) (
    Follows-put_first m (fifo calls q) (run calls (record b { buffer = q }))
      (next (record b { buffer = q }) λ e. absurd (cons≢nil (sym held ∙ marked e))))

-- As long as a buffer is only asked when something is in it, it is a queue: no call waits or is undefined, what
-- is handed out is what a queue hands out, and the same messages are left.
pub run-fifo :
    (calls : List Call) (b : OfpBuffer) → IsMarked b → Follows (fifo calls b.buffer) (run calls b)
unfolding run fifo push_back
run-fifo [] b marked = (refl, refl)
run-fifo (pushes m ∷ calls) b marked = run-fifo calls (push_back m b) (λ e. absurd (false≢true e))
run-fifo (gets ∷ calls) b marked =
    gets-Follows calls b b.buffer marked refl (λ b' marked'. run-fifo calls b' marked')
