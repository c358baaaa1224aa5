-- ===== src/Buffer/Waiting.antt =====
-- OFPBuffer.h between threads: those that call `getFront` take the lock, look, and sleep on `empty_` while they
-- see `is_empty_`.
use euthenia.Prelude.{
  ◌+◌, Result, Fault, fault, length-append, ℕ, zero, suc, ◌≤◌, ◌≡◌, refl, sym, ap, ◌∙◌, true, false,
  Bool, none, some, List, [], ◌∷◌, ◌++◌, length, append_assoc, append-nil, ◌⊎◌, inl, inr, ok, arith,
}
use euthenia.Dispatcher.{Message}
use euthenia.Buffer.{OfpBuffer, new_buffer, push_back, get_front, front_and_pop}

-- The threads in `empty_.wait`, those in `getFront` that are to look at `is_empty_`, and those in `pushBack` that have
-- given the lock back and not yet notified; what has been pushed and what has been handed out so far.
pub record Shared : Type 0 where
  pub buffer : OfpBuffer
  pub asleep : ℕ
  pub awake : ℕ
  pub notifying : ℕ
  pub pushed : List Message
  pub taken : List Message

abbrev pub unshared : Shared
unshared = record {
  buffer = new_buffer;
  asleep = 0;
  awake = 0;
  notifying = 0;
  pushed = [];
  taken = [];
}

-- `pushBack` up to the end of the lock's scope.
unfoldable pub push_locked : Message → Shared → Shared
unfolding push_back
push_locked m s = record s {
  buffer = push_back m s.buffer;
  notifying = suc s.notifying;
  pushed = s.pushed ++ m ∷ [];
}

-- `empty_.notify_one()`, for the number of threads that sleep.
unfoldable pub notify_one : (asleep : ℕ) → Shared → Shared
notify_one zero s = s
notify_one (suc n) s = record s { asleep = n; awake = suc s.awake }

-- A thread pushes and gives the lock back, notifies, calls `getFront`, looks and sleeps, looks and takes, or wakes
-- without cause. `breaks` is a thread that takes the front of an empty queue: nothing is known after it.
pub data Step : Shared → Result Shared → Type 0 where
  pushes : (s : Shared) (m : Message) → Step s (ok (push_locked m s))
  notifies :
      (s : Shared) (n : ℕ)
      → s.notifying ≡ suc n
      → Step s (ok (notify_one s.asleep (record s { notifying = n })))
  calls : (s : Shared) → Step s (ok (record s { awake = suc s.awake }))
  sleeps :
      (s : Shared) (n : ℕ) (b : OfpBuffer)
      → s.awake ≡ suc n
      → get_front s.buffer ≡ ok (none, b)
      → Step s (ok (record s { buffer = b; awake = n; asleep = suc s.asleep }))
  takes :
      (s : Shared) (n : ℕ) (m : Message) (b : OfpBuffer)
      → s.awake ≡ suc n
      → get_front s.buffer ≡ ok (some m, b)
      → Step s (ok (record s { buffer = b; awake = n; taken = s.taken ++ m ∷ [] }))
  wakes :
      (s : Shared) (n : ℕ)
      → s.asleep ≡ suc n
      → Step s (ok (record s { asleep = n; awake = suc s.awake }))
  breaks :
      (s : Shared) (n : ℕ) (f : Fault)
      → s.awake ≡ suc n
      → get_front s.buffer ≡ fault f
      → Step s (fault f)

pub data Reachable : Shared → Type 0 where
  begins : Reachable unshared
  goes : (s t : Shared) → Reachable s → Step s (ok t) → Reachable t

-- Where `is_empty_` is set there is no message; no message is lost; and as long as a thread sleeps, there is for
-- each message one awake or one that is about to notify.
record Sound (s : Shared) : Type 0 where
  empty : (s.buffer.is_empty ≡ false) ⊎ (s.buffer.buffer ≡ [])
  kept : s.taken ++ s.buffer.buffer ≡ s.pushed
  served : (s.asleep ≡ 0) ⊎ (length s.buffer.buffer ≤ s.awake + s.notifying)

-- What `getFront` has seen, when it goes on waiting and when it returns.
saw_none :
    (e : Bool) (ms : List Message) (b : OfpBuffer)
    → get_front (record { is_empty = e; buffer = ms }) ≡ ok (none, b)
    → (e ≡ true) × (b.buffer ≡ ms) × (b.is_empty ≡ true)
unfolding get_front front_and_pop
saw_none true ms b h = (refl, ground (arith, h), ground (arith, h))
saw_none false [] b h = absurd (ground (arith, h))
saw_none false (m ∷ ms) b h = absurd (ground (arith, h))

saw_some :
    (e : Bool) (ms : List Message) (m : Message) (b : OfpBuffer)
    → get_front (record { is_empty = e; buffer = ms }) ≡ ok (some m, b)
    → (b.is_empty ≡ false) × (ms ≡ m ∷ b.buffer)
unfolding get_front front_and_pop
saw_some true ms m b h = absurd (ground (arith, h))
saw_some false [] m b h = absurd (ground (arith, h))
saw_some false (m' ∷ ms) m b h = (ground (arith, h), ground (arith, h))

saw_fault :
    (e : Bool) (ms : List Message) (f : Fault)
    → get_front (record { is_empty = e; buffer = ms }) ≡ fault f
    → (e ≡ false) × (ms ≡ [])
unfolding get_front front_and_pop
saw_fault true ms f h = absurd (ground (arith, h))
saw_fault false [] f h = (refl, refl)
saw_fault false (m ∷ ms) f h = absurd (ground (arith, h))

notified-Sound :
    (asleep n : ℕ) (s : Shared)
    → s.asleep ≡ asleep
    → s.notifying ≡ suc n
    → Sound s
    → Sound (notify_one asleep (record s { notifying = n }))
unfolding notify_one
notified-Sound zero n s none_asleep owed h = record {
  empty = h.empty;
  kept = h.kept;
  served = inl none_asleep;
}
notified-Sound (suc k) n s some_asleep owed h = record {
  empty = h.empty;
  kept = h.kept;
  served = inr (elim h.served [
    | inl none_asleep ↦ absurd (omega (arith, none_asleep, some_asleep))
    | inr enough ↦ omega (arith, enough, owed)
  ]);
}

step-Sound : {s t : Shared} → Step s (ok t) → Sound s → Sound t
step-Sound (pushes s m) h =
    unfold push_locked push_back in
    record {
      empty = inl refl;
      kept = sym (append_assoc s.taken s.buffer.buffer (m ∷ [])) ∙ ap (λ ms. ms ++ m ∷ []) h.kept;
      served = elim h.served [
        | inl none_asleep ↦ inl none_asleep
        | inr enough ↦ inr (omega (arith, enough, length-append s.buffer.buffer (m ∷ [])))
      ];
    }
step-Sound (notifies s n owed) h = notified-Sound s.asleep n s refl owed h
step-Sound (calls s) h = record {
  empty = h.empty;
  kept = h.kept;
  served = elim h.served [ inl none_asleep ↦ inl none_asleep | inr enough ↦ inr (omega arith) ];
}
step-Sound (sleeps s n b busy looked) h =
    let seen = saw_none s.buffer.is_empty s.buffer.buffer b looked in
    let nothing : s.buffer.buffer ≡ [] = ground (arith, seen.0, h.empty) in
    record {
      empty = inr (seen.1 ∙ nothing);
      kept = ap (λ ms. s.taken ++ ms) seen.1 ∙ h.kept;
      served = inr (rw (seen.1, nothing) (omega arith));
    }
step-Sound (takes s n m b busy looked) h =
    let seen = saw_some s.buffer.is_empty s.buffer.buffer m b looked in
    record {
      empty = inl seen.0;
      kept =
          append_assoc s.taken (m ∷ []) b.buffer ∙ ap (λ ms. s.taken ++ ms) (sym seen.1) ∙ h.kept;
      served = elim h.served [
        | inl none_asleep ↦ inl none_asleep
        | inr enough ↦ inr (omega (arith, busy, rw seen.1 at enough))
      ];
    }
step-Sound (wakes s n some_asleep) h = record {
  empty = h.empty;
  kept = h.kept;
  served = inr (elim h.served [
    | inl none_asleep ↦ absurd (omega (arith, none_asleep, some_asleep))
    | inr enough ↦ omega arith
  ]);
}

Reachable-Sound : {s : Shared} → Reachable s → Sound s
unfolding new_buffer
Reachable-Sound begins = record { empty = inr refl; kept = refl; served = inl refl }
Reachable-Sound (goes s t before step) = step-Sound step (Reachable-Sound before)

broken-empty :
    {s : Shared} {f : Fault}
    → Sound s
    → Step s (fault f)
    → (s.buffer.buffer ≡ []) × (s.taken ≡ s.pushed)
broken-empty h (breaks s n f busy looked) =
    let seen = saw_fault s.buffer.is_empty s.buffer.buffer f looked in
    (seen.1, sym (append-nil s.taken) ∙ ap (λ ms. s.taken ++ ms) (sym seen.1) ∙ h.kept)

-- Whatever the threads do, up to a take from an empty queue: messages are handed out in the order in which they were
-- pushed, each once, and no wake-up is lost: as long as a thread sleeps, there is for each message in the buffer a
-- thread awake or one that has pushed and is about to notify.
pub Reachable-served :
    (s : Shared)
    → Reachable s
    → (s.taken ++ s.buffer.buffer ≡ s.pushed)
      × ((s.asleep ≡ 0) ⊎ (length s.buffer.buffer ≤ s.awake + s.notifying))
Reachable-served s reached = let sound = Reachable-Sound reached in (sound.kept, sound.served)

-- And a step that is undefined finds every message that has been pushed handed out.
pub Reachable-breaks :
    (s : Shared) (f : Fault)
    → Reachable s
    → Step s (fault f)
    → (s.buffer.buffer ≡ []) × (s.taken ≡ s.pushed)
Reachable-breaks s f reached step = broken-empty (Reachable-Sound reached) step
