-- ===== src/Session/Piecewise.antt =====
-- One completed read at a time: what `data_` and the outstanding read say of the bytes received so far.
use euthenia.Prelude.{
  ℕ, zero, suc, ◌+◌, ◌≤◌, ◌≡◌, refl, sym, ap, ◌∙◌, false, List, [], ◌∷◌, ◌++◌, append_assoc,
  append-nil, Result, ok, ◌>>=◌, length, take-append, length-append, All, All-append, concat,
  concat-append, arith, ◌==◌, if◌then◌else◌, ◌-◌,
}
use euthenia.Machine.Memory.{Memory, write, read-write, read-write_below, read-add}
use euthenia.Machine.Memory
use euthenia.Machine.Endian.{Endian, IsByte}
use euthenia.Openflow.Header.{
  header_size, header_length, type_field, length_field, IsFrame, header_length-read,
  length_field-lt, length_field-append,
}
use euthenia.Dispatcher.{Message, Dispatcher}
use euthenia.Dispatcher.Routing.{target}
use euthenia.Session.{Reader, Pending, idle, header, body, body_length, pass_on, complete}
use euthenia.Session.Rounds.{header_round, body_round, after_header}
use euthenia.Session.Framing.{pass_on-target}

-- What has come of a message that is not whole: nothing, or its header, which is then in `data_`.
pub data Holds (part : List ℕ) (r : Reader) : Type 0 where
  at_header : part ≡ [] → r.pending ≡ header → Holds part r
  at_body :
      (n : ℕ)
      → r.pending ≡ body (suc n)
      → length part ≡ header_size
      → All IsByte part
      → Memory.read r.buffer 0 header_size ≡ part
      → length_field part ≡ header_size + suc n
      → Holds part r

-- A read completes with all the bytes it asked for; a header counts at least itself.
abbrev pub AsksFor : Pending → List ℕ → Type 0
AsksFor idle bytes = ⊥
AsksFor header bytes =
    All IsByte bytes × (length bytes ≡ header_size) × (header_size ≤ length_field bytes)
AsksFor (body n) bytes = All IsByte bytes × (length bytes ≡ n)

-- What a read that completes does: the message goes on, or is whole and goes to its callback.
pub data Outcome {W : Type 0} (d : Dispatcher W) (all : List ℕ) (w : W) (done : Result (Reader × W))
    : Type 0 where
  partly : (r : Reader) → Holds all r → done ≡ ok (r, w) → Outcome d all w done
  wholly :
      (r : Reader)
      → IsFrame all
      → Holds [] r
      → done ≡ (target d (type_field all) all w >>= λ w'. ok (r, w'))
      → Outcome d all w done

body_held :
    (m : Memory) (h b : List ℕ)
    → length h ≡ header_size
    → Memory.read m 0 header_size ≡ h
    → Memory.read (write m header_size b) 0 (length (h ++ b)) ≡ h ++ b
body_held m h b eight held =
    rw (length-append h b, eight)
      (read-add (write m header_size b) 0 header_size (length b)
        ∙ rw
            (
              read-write_below m 0 header_size header_size b (omega arith),
              held,
              read-write m header_size b,
            )
            refl)

module _ {W : Type 0} (e : Endian) (d : Dispatcher W) where
  header_case :
      (m : Memory) (w : W) (h : List ℕ) (k : ℕ)
      → All IsByte h
      → length h ≡ header_size
      → length_field h ≡ header_size + k
      → Outcome d h w (complete e d false h (record { buffer = m; pending = header }) w)
  unfolding body_length
  header_case m w h k bytes eight counted = go k counted opened
    where
      held : Memory.read (write m 0 h) 0 header_size ≡ h
      held = rw eight at (read-write m 0 h)

      counts : header_length e (write m 0 h) ≡ length_field h
      counts =
          header_length-read e (write m 0 h) h bytes
            (held ∙ sym (rw (append-nil h, eight) at (take-append h []))) (omega (arith, eight))

      opened : complete e d false h (record { buffer = m; pending = header }) w ≡ (
          if k == 0
          then pass_on e d (record { buffer = write m 0 h; pending = idle }) w
          else ok (record { buffer = write m 0 h; pending = body k }, w))
      opened =
          header_round e d m w h eight
          ∙ after_header e d (write m 0 h) w k
              (omega (arith, counts, counted, length_field-lt h bytes))

      go :
          (k : ℕ)
          → length_field h ≡ header_size + k
          → complete e d false h (record { buffer = m; pending = header }) w ≡ (
              if k == 0
              then pass_on e d (record { buffer = write m 0 h; pending = idle }) w
              else ok (record { buffer = write m 0 h; pending = body k }, w))
          → Outcome d h w (complete e d false h (record { buffer = m; pending = header }) w)
      go zero counted opened =
          let frame : IsFrame h = record {
            bytes = bytes;
            has_header = omega (arith, eight);
            counted = omega (arith, counted, eight);
          } in
          wholly (record { buffer = write m 0 h; pending = header }) frame (at_header refl refl)
            (opened ∙ pass_on-target e d (write m 0 h) idle w h frame (read-write m 0 h))
      go (suc n) counted opened =
          partly (record { buffer = write m 0 h; pending = body (suc n) })
            (at_body n refl eight bytes held counted) (opened ∙ ground arith)

  body_completes :
      (m : Memory) (w : W) (n : ℕ) (h b : List ℕ)
      → length h ≡ header_size
      → All IsByte h
      → Memory.read m 0 header_size ≡ h
      → length_field h ≡ header_size + suc n
      → AsksFor (body (suc n)) b
      → Outcome d
          (h ++ b)
          w
          (complete e d false b (record { buffer = m; pending = body (suc n) }) w)
  body_completes m w n h b eight hb held counted (bb, size) =
      wholly (record { buffer = write m header_size b; pending = header }) frame
        (at_header refl refl)
        (body_round e d m w (suc n) b (omega (arith, length_field-lt h hb, counted, size))
          ∙ pass_on-target e d (write m header_size b) idle w (h ++ b) frame
              (body_held m h b eight held))
    where
      frame : IsFrame (h ++ b)
      frame = record {
        bytes = All-append IsByte h b hb bb;
        has_header = omega (arith, length-append h b, eight);
        counted =
            omega (arith, length_field-append h b eight, counted, length-append h b, eight, size);
      }

  -- Every read that completes as asked moves a message on, or ends it.
  complete-Outcome :
      (part bytes : List ℕ) (r : Reader) (w : W)
      → Holds part r
      → AsksFor r.pending bytes
      → Outcome d (part ++ bytes) w (complete e d false bytes r w)
  complete-Outcome part bytes r w (at_header none here) asked =
      let asked' : AsksFor header bytes = rw here at asked in
      rw (none, here)
        (header_case r.buffer w bytes (length_field bytes - header_size) asked'.0 asked'.1
          (omega (arith, asked'.2)))
  complete-Outcome part bytes r w (at_body n here eight hb held counted) asked =
      let asked' : AsksFor (body (suc n)) bytes = rw here at asked in
      rw here (body_completes r.buffer w n part bytes eight hb held counted asked')

-- The bytes received so far are these whole messages, and what `data_` holds of the next.
pub record Received (rx : List ℕ) (whole : List Message) (r : Reader) : Type 0 where
  pub part : List ℕ
  pub split : rx ≡ concat whole ++ part
  pub frames : All IsFrame whole
  pub holds : Holds part r

pub Received-start : (m : Memory) → Received [] [] (record { buffer = m; pending = header })
Received-start m = record { part = []; split = refl; frames = tt; holds = at_header refl refl }

-- What a read that completes does to a session: it waits for more, or passes a message on.
pub data Moved {W : Type 0} (d : Dispatcher W) (rx : List ℕ) (whole : List Message) (w : W)
    (done : Result (Reader × W)) : Type 0 where
  waits : (r : Reader) → done ≡ ok (r, w) → Received rx whole r → Moved d rx whole w done
  passes :
      (r : Reader) (f : Message)
      → done ≡ (target d (type_field f) f w >>= λ w'. ok (r, w'))
      → Received rx (whole ++ f ∷ []) r
      → Moved d rx whole w done

module _ {W : Type 0} (e : Endian) (d : Dispatcher W) where
  pub complete-Moved :
      (rx : List ℕ) (whole : List Message) (bytes : List ℕ) (r : Reader) (w : W)
      → Received rx whole r
      → AsksFor r.pending bytes
      → Moved d (rx ++ bytes) whole w (complete e d false bytes r w)
  complete-Moved rx whole bytes r w h asked =
      go (complete-Outcome e d h.part bytes r w h.holds asked)
    where
      longer : rx ++ bytes ≡ concat whole ++ (h.part ++ bytes)
      longer = ap (λ xs. xs ++ bytes) h.split ∙ append_assoc (concat whole) h.part bytes

      go :
          Outcome d (h.part ++ bytes) w (complete e d false bytes r w)
          → Moved d (rx ++ bytes) whole w (complete e d false bytes r w)
      go (partly r' holds runs) =
          waits r' runs
            (record { part = h.part ++ bytes; split = longer; frames = h.frames; holds = holds })
      go (wholly r' frame holds runs) = passes r' (h.part ++ bytes) runs (record {
        part = [];
        split =
            longer
            ∙ sym (
                append-nil (concat (whole ++ (h.part ++ bytes) ∷ []))
                ∙ concat-append whole ((h.part ++ bytes) ∷ [])
                ∙ ap (λ xs. concat whole ++ xs) (append-nil (h.part ++ bytes)));
        frames = All-append IsFrame whole ((h.part ++ bytes) ∷ []) h.frames (frame, tt);
        holds = holds;
      })
