-- ===== src/Session/Framing.antt =====
-- The stream of a connection falls into the messages that the peer sent.
use mathlib.Core.Path.{fun_ext}
use euthenia.Prelude.{
  ℕ, zero, suc, ◌+◌, ◌*◌, ◌≤◌, ◌<◌, ◌≡◌, refl, sym, ap, ◌∙◌, false, List, [], ◌∷◌, ◌++◌,
  append_assoc, append-nil, Result, ok, ◌>>=◌, >>=_assoc, length, take, drop, take-append,
  take-append-drop, length-take, length-append, All, concat, arith,
}
use euthenia.Machine.Memory.{Memory, write, read-write, read-write_below, read-add}
use euthenia.Machine.Memory
use euthenia.Machine.Endian.{Endian}
use euthenia.Openflow.Header.{
  header_size, header_length, type_field, length_field, IsFrame, header_length-read, IsFrame-lt,
}
use euthenia.Dispatcher.{Message, Dispatcher}
use euthenia.Dispatcher.Routing.{target, on_message-target}
use euthenia.Session
use euthenia.Session.Rounds.{pump_round, header_round, body_round, after_header}
use euthenia.Session.{
  Reader, Pending, idle, header, body, max_length, target_of, count_of, body_length, pass_on,
  handle_read_header, handle_read, handle, complete, pump,
}

-- `data_` after a message `h ++ b` with the header `h` has been read into it.
abbrev pub absorb : Memory → List ℕ → List ℕ → Memory
absorb m h b = write (write m 0 h) header_size b

header_read :
    (m : Memory) (h : List ℕ) → length h ≡ header_size → Memory.read (write m 0 h) 0 header_size ≡ h
header_read m h eight = rw eight at (read-write m 0 h)

absorb_held :
    (m : Memory) (h b : List ℕ)
    → length h ≡ header_size
    → Memory.read (absorb m h b) 0 (length (h ++ b)) ≡ h ++ b
absorb_held m h b eight =
    let low : Memory.read (absorb m h b) 0 header_size ≡ h =
      read-write_below (write m 0 h) 0 header_size header_size b (omega arith)
      ∙ header_read m h eight in
    rw (length-append h b, eight)
      (read-add (absorb m h b) 0 header_size (length b)
        ∙ rw (low, read-write (write m 0 h) header_size b))

body_length-frame :
    (e : Endian) (m : Memory) (h b : List ℕ)
    → length h ≡ header_size
    → IsFrame (h ++ b)
    → body_length e (write m 0 h) ≡ length b
unfolding body_length
body_length-frame e m h b eight frame =
    omega (arith, whole, frame.counted, IsFrame-lt (h ++ b) frame, length-append h b, eight)
  where
    held : Memory.read (write m 0 h) 0 header_size ≡ take header_size (h ++ b)
    held = header_read m h eight ∙ sym (rw eight at (take-append h b))

    whole : header_length e (write m 0 h) ≡ length_field (h ++ b)
    whole = header_length-read e (write m 0 h) (h ++ b) frame.bytes held frame.has_header

module _ {W : Type 0} (e : Endian) (d : Dispatcher W) where
  -- A message that lies in `data_` goes to its callback, and the next header is asked for.
  pub pass_on-target :
      (m : Memory) (p : Pending) (w : W) (f : List ℕ)
      → IsFrame f
      → Memory.read m 0 (length f) ≡ f
      → pass_on e d (record { buffer = m; pending = p }) w
        ≡ (target d (type_field f) f w >>= λ w'. ok (record { buffer = m; pending = header }, w'))
  unfolding pass_on Session.read
  pass_on-target m p w f frame held = rw (on_message-target e d m f w frame held)

  bare_frame :
      (k : ℕ) (m : Memory) (w : W) (h rest : List ℕ)
      → length h ≡ header_size
      → IsFrame (h ++ [])
      → pump e d (suc k) (record { buffer = m; pending = header }) w (h ++ rest) ≡ (
          target d (type_field h) h w >>= λ w'.
          pump e d k (record { buffer = write m 0 h; pending = header }) w' rest)
  bare_frame k m w h rest eight frame =
      pump_round e d k (record { buffer = m; pending = header }) w h rest eight
      ∙ rw completed (>>=_assoc (target d (type_field h) h w) _ _)
    where
      held : Memory.read (write m 0 h) 0 (length h) ≡ h
      held = read-write m 0 h

      completed : complete e d false h (record { buffer = m; pending = header }) w ≡ (
          target d (type_field h) h w >>= λ w'.
          ok (record { buffer = write m 0 h; pending = header }, w'))
      completed =
          header_round e d m w h eight
          ∙ after_header e d (write m 0 h) w 0 (body_length-frame e m h [] eight frame)
          ∙ pass_on-target (write m 0 h) idle w h (rw (append-nil h) at frame) held

  long_frame :
      (k : ℕ) (m : Memory) (w : W) (h : List ℕ) (x : ℕ) (b rest : List ℕ)
      → length h ≡ header_size
      → IsFrame (h ++ x ∷ b)
      → pump e d (suc (suc k)) (record { buffer = m; pending = header }) w (h ++ ((x ∷ b) ++ rest))
        ≡ (target d (type_field (h ++ x ∷ b)) (h ++ x ∷ b) w >>= λ w'.
            pump e d k (record { buffer = absorb m h (x ∷ b); pending = header }) w' rest)
  long_frame k m w h x b rest eight frame =
      pump_round e d (suc k) (record { buffer = m; pending = header }) w h ((x ∷ b) ++ rest) eight
      ∙ rw opened (
          pump_round e d k (record { buffer = write m 0 h; pending = body (suc (length b)) }) w
            (x ∷ b) rest refl
          ∙ rw completed (>>=_assoc (target d (type_field (h ++ x ∷ b)) (h ++ x ∷ b) w) _ _))
    where
      opened :
          complete e d false h (record { buffer = m; pending = header }) w
          ≡ ok (record { buffer = write m 0 h; pending = body (suc (length b)) }, w)
      opened =
          header_round e d m w h eight
          ∙ after_header e d (write m 0 h) w (suc (length b))
              (body_length-frame e m h (x ∷ b) eight frame)
          ∙ ground arith

      fits : header_size + length (x ∷ b) ≤ max_length
      fits = omega (arith, IsFrame-lt (h ++ x ∷ b) frame, length-append h (x ∷ b), eight)

      completed :
          complete e d false
            (x ∷ b)
            (record { buffer = write m 0 h; pending = body (suc (length b)) })
            w
          ≡ (target d (type_field (h ++ x ∷ b)) (h ++ x ∷ b) w >>= λ w'.
              ok (record { buffer = absorb m h (x ∷ b); pending = header }, w'))
      completed =
          body_round e d (write m 0 h) w (suc (length b)) (x ∷ b) fits
          ∙ pass_on-target (absorb m h (x ∷ b)) idle w (h ++ x ∷ b) frame
              (absorb_held m h (x ∷ b) eight)

  -- With fewer bytes than a header the reader waits.
  waits :
      (k : ℕ) (m : Memory) (w : W) (rest : List ℕ)
      → length rest < header_size
      → pump e d (suc k) (record { buffer = m; pending = header }) w rest
        ≡ ok (record { buffer = m; pending = header }, w, rest)
  unfolding pump
  waits k m w rest short = ground arith

  split_frame :
      (fuel : ℕ) (m : Memory) (w : W) (h b rest : List ℕ)
      → length h ≡ header_size
      → IsFrame (h ++ b)
      → (k : ℕ) × (fuel ≤ k)
        × (pump e d (suc (suc fuel)) (record { buffer = m; pending = header }) w ((h ++ b) ++ rest)
            ≡ (target d (type_field (h ++ b)) (h ++ b) w >>= λ w'.
                pump e d k (record { buffer = absorb m h b; pending = header }) w' rest))
  unfolding write
  split_frame fuel m w h [] rest eight frame =
      (suc fuel, omega arith, rw (append-nil h) (bare_frame (suc fuel) m w h rest eight frame))
  split_frame fuel m w h (x ∷ b) rest eight frame = (
    fuel,
    omega arith,
    rw (append_assoc h (x ∷ b) rest) (long_frame fuel m w h x b rest eight frame),
  )

  one_frame :
      (fuel : ℕ) (m : Memory) (w : W) (f rest : List ℕ)
      → IsFrame f
      → (k : ℕ) × (fuel ≤ k)
        × (pump e d (suc (suc fuel)) (record { buffer = m; pending = header }) w (f ++ rest) ≡ (
            target d (type_field f) f w >>= λ w'.
            pump e d k
              (record {
                buffer = absorb m (take header_size f) (drop header_size f);
                pending = header;
              })
              w'
              rest))
  one_frame fuel m w f rest frame = rw (take-append-drop header_size f) at (
      split_frame fuel m w (take header_size f) (drop header_size f) rest
        (omega (arith, length-take header_size f, frame.has_header))
        (rw (take-append-drop header_size f) frame))

-- `data_` after the messages have been read into it one by one.
abbrev pub absorb_all : Memory → List Message → Memory
absorb_all m [] = m
absorb_all m (f ∷ fs) = absorb_all (absorb m (take header_size f) (drop header_size f)) fs

-- Each message to its callback, in order.
abbrev pub deliver : {W : Type 0} → Dispatcher W → List Message → W → Result W
deliver d [] w = ok w
deliver d (f ∷ fs) w = target d (type_field f) f w >>= deliver d fs

module _ {W : Type 0} (e : Endian) (d : Dispatcher W) where
  -- On a stream of whole messages, and then fewer bytes than a header, the session hands every
  -- message to its callback, once, whole and in order, whatever `data_` held before; then it waits for the next header.
  pub pump-frames :
      (fuel : ℕ) (m : Memory) (w : W) (fs : List Message) (rest : List ℕ)
      → All IsFrame fs
      → length rest < header_size
      → 2 * length fs < fuel
      → pump e d fuel (record { buffer = m; pending = header }) w (concat fs ++ rest) ≡ (
          deliver d fs w >>= λ w'.
          ok (record { buffer = absorb_all m fs; pending = header }, w', rest))
  pump-frames zero m w fs rest frames short h = absurd (omega arith)
  pump-frames (suc fuel) m w [] rest frames short h = waits e d fuel m w rest short
  pump-frames (suc zero) m w (f ∷ fs) rest frames short h = absurd (omega arith)
  pump-frames (suc (suc fuel)) m w (f ∷ fs) rest frames short h =
      let (k, enough, first) = one_frame e d fuel m w f (concat fs ++ rest) frames.0 in
      let m' = absorb m (take header_size f) (drop header_size f) in
      rw (append_assoc f (concat fs) rest) (
        first
        ∙ ap (λ c. target d (type_field f) f w >>= c)
            (fun_ext λ w'. pump-frames k m' w' fs rest frames.1 short (omega arith))
        ∙ sym (>>=_assoc (target d (type_field f) f w) (deliver d fs) _))
