-- ===== src/Session/Errors.antt =====
-- Reads that end with an error, such as the end of the stream. `handle_read_header` does not look at
-- its error code, so it takes the message that `data_` still holds for a new one.
use mathlib.Core.Path.{fun_ext}
use euthenia.Prelude.{
  ◌≤◌, ◌+◌, ◌^◌, false, ltb, List, ℕ, zero, suc, ◌-◌, ◌<◌, ◌≡◌, refl, sym, ap, ◌∙◌, true, [], arith,
  if◌then◌else◌, ◌==◌, Result, ok, ◌>>=◌, >>=_assoc, length, replicate,
}
use euthenia.Machine.Memory.{Memory, write}
use euthenia.Machine.Memory
use euthenia.Machine.Endian.{Endian}
use euthenia.Openflow.Header.{
  header_size, type_field, IsFrame, IsFrame-lt, header_length, header_length-read, header_held,
}
use euthenia.Dispatcher.{Message, Dispatcher}
use euthenia.Dispatcher.Routing.{target}
use euthenia.Session.Framing.{deliver, pass_on-target}
use euthenia.Session.{
  Reader, idle, header, body, max_length, body_length, pass_on, handle_read_header, handle_read,
  handle, complete,
}

body_length-held :
    (e : Endian) (m : Memory) (f : Message)
    → IsFrame f
    → Memory.read m 0 (length f) ≡ f
    → body_length e m ≡ length f - header_size
unfolding body_length
body_length-held e m f frame held = omega (
  arith,
  header_length-read e m f frame.bytes (header_held m f frame.has_header held) frame.has_header,
  frame.counted,
  frame.has_header,
  IsFrame-lt f frame,
)

module _ {W : Type 0} (e : Endian) (d : Dispatcher W) where
  -- `n` reads in a row end with an error before a byte has come.
  unfoldable pub fails : ℕ → Reader → W → Result (Reader × W)
  fails zero r w = ok (r, w)
  fails (suc n) r w = complete e d true [] r w >>= λ s. fails n s.0 s.1

  -- The handler takes the bytes that came, over those that `data_` held, for a header.
  header_error :
      (m : Memory) (w : W) (bs : List ℕ)
      → length bs ≤ header_size
      → complete e d true bs (record { buffer = m; pending = header }) w ≡ (
          if body_length e (write m 0 bs) == 0
          then pass_on e d (record { buffer = write m 0 bs; pending = idle }) w
          else ok
              (record { buffer = write m 0 bs; pending = body (body_length e (write m 0 bs)) }, w))
  unfolding complete handle handle_read_header
  header_error m w bs few =
      let fits : ltb max_length (0 + length bs) ≡ false = ground arith in rw fits refl

  bare_fails :
      (m : Memory) (w : W) (bs : List ℕ) (f : Message)
      → length bs ≤ header_size
      → IsFrame f
      → length f ≡ header_size
      → Memory.read (write m 0 bs) 0 (length f) ≡ f
      → complete e d true bs (record { buffer = m; pending = header }) w ≡ (
          target d (type_field f) f w >>= λ w'.
          ok (record { buffer = write m 0 bs; pending = header }, w'))
  bare_fails m w bs f few frame eight held =
      let empty : body_length e (write m 0 bs) ≡ 0 =
        omega (arith, eight, body_length-held e (write m 0 bs) f frame held) in
      header_error m w bs few ∙ rw empty (pass_on-target e d (write m 0 bs) idle w f frame held)

  repeats :
      (n : ℕ) (m : Memory) (w : W) (f : Message)
      → IsFrame f
      → length f ≡ header_size
      → Memory.read m 0 (length f) ≡ f
      → fails n (record { buffer = m; pending = header }) w
        ≡ (deliver d (replicate n f) w >>= λ w'. ok (record { buffer = m; pending = header }, w'))
  unfolding fails
  repeats zero m w f frame eight held = refl
  repeats (suc n) m w f frame eight held =
      let first : complete e d true [] (record { buffer = m; pending = header }) w ≡ (
          target d (type_field f) f w >>= λ w'. ok (record { buffer = m; pending = header }, w')) =
        unfold write in bare_fails m w [] f (omega arith) frame eight held in
      ap (λ c. c >>= λ s. fails n s.0 s.1) first
      ∙ >>=_assoc (target d (type_field f) f w) _ _
      ∙ ap (λ c. target d (type_field f) f w >>= c)
          (fun_ext λ w'. repeats n m w' f frame eight held)
      ∙ sym (>>=_assoc (target d (type_field f) f w) (deliver d (replicate n f)) _)

  -- When the read of a header ends with an error, after any number of its bytes, and `data_` then holds a bare header,
  -- partly of those bytes and partly of an earlier message, that is handed to its callback as a message, and a header
  -- is asked for again; and every further error that comes before a byte hands it on once more, without end.
  pub fails-bare :
      (n : ℕ) (m : Memory) (w : W) (bs : List ℕ) (f : Message)
      → length bs ≤ header_size
      → IsFrame f
      → length f ≡ header_size
      → Memory.read (write m 0 bs) 0 (length f) ≡ f
      → (complete e d true bs (record { buffer = m; pending = header }) w >>= λ s. fails n s.0 s.1)
        ≡ (deliver d (replicate (suc n) f) w >>= λ w'.
            ok (record { buffer = write m 0 bs; pending = header }, w'))
  fails-bare n m w bs f few frame eight held =
      ap (λ c. c >>= λ s. fails n s.0 s.1) (bare_fails m w bs f few frame eight held)
      ∙ >>=_assoc (target d (type_field f) f w) _ _
      ∙ ap (λ c. target d (type_field f) f w >>= c)
          (fun_ext λ w'. repeats n (write m 0 bs) w' f frame eight held)
      ∙ sym (>>=_assoc (target d (type_field f) f w) (deliver d (replicate n f)) _)

  body_fails :
      (m : Memory) (w : W) (k : ℕ) (bs : List ℕ)
      → header_size + length bs ≤ max_length
      → complete e d true bs (record { buffer = m; pending = body k }) w
        ≡ ok (record { buffer = write m header_size bs; pending = idle }, w)
  unfolding complete handle handle_read
  body_fails m w k bs room =
      let fits : ltb max_length (header_size + length bs) ≡ false = ground arith in rw fits refl

  fails-idle :
      (n : ℕ) (m : Memory) (w : W)
      → fails n (record { buffer = m; pending = idle }) w
        ≡ ok (record { buffer = m; pending = idle }, w)
  unfolding fails complete handle write
  fails-idle zero m w = refl
  fails-idle (suc n) m w = fails-idle n m w

  -- When the read of a header ends with an error, after any number of its bytes, and the length field that `data_` then
  -- holds has 16 bits and is not that of a bare header, the error costs one more read, of a body. An error on that,
  -- after any number of bytes that fit in `data_`, is seen: no message is handed on, and the session reads no more.
  pub fails-long :
      (n : ℕ) (m : Memory) (w : W) (bs more : List ℕ)
      → length bs ≤ header_size
      → header_length e (write m 0 bs) < 2 ^ 16
      → ¬ header_length e (write m 0 bs) ≡ header_size
      → header_size + length more ≤ max_length
      → (complete e d true bs (record { buffer = m; pending = header }) w >>= λ s.
          complete e d true more s.0 s.1 >>= λ t. fails n t.0 t.1)
        ≡ ok (record { buffer = write (write m 0 bs) header_size more; pending = idle }, w)
  fails-long n m w bs more few small longer room =
      ap (λ c. c >>= λ s. complete e d true more s.0 s.1 >>= λ t. fails n t.0 t.1) opened
      ∙ ap (λ c. c >>= λ t. fails n t.0 t.1)
          (body_fails (write m 0 bs) w (body_length e (write m 0 bs)) more room)
      ∙ fails-idle n (write (write m 0 bs) header_size more) w
    where
      asks : (body_length e (write m 0 bs) == 0) ≡ false
      asks = unfold body_length in ground arith

      opened :
          complete e d true bs (record { buffer = m; pending = header }) w
          ≡ ok (record { buffer = write m 0 bs; pending = body (body_length e (write m 0 bs)) }, w)
      opened = rw asks at (header_error m w bs few)
