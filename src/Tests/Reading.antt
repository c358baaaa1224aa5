-- ===== src/Tests/Reading.antt =====
-- A session's reading side at concrete streams.
use euthenia.Prelude.{
  true, ◌+◌, ◌≤◌, ◌<◌, ◌≡◌, refl, [], ◌∷◌, ◌++◌, ltb, if◌then◌else◌, ok, fault, out_of_bounds,
  ◌>>=◌, arith, length, concat, replicate,
}
use euthenia.Machine.Memory.{read}
use euthenia.Machine.Memory
use euthenia.Machine.Endian.{little, big, hton, load_word}
use euthenia.Openflow.Header.{header_size, header_length}
use euthenia.Machine.Memory.{write}
use euthenia.Session.{idle, header, body, max_length, body_length, pump, complete}
use euthenia.Session.Framing.{deliver, absorb_all, pump-frames}
use euthenia.Session.Bounds.{body_fits, short_header}
use euthenia.Session.Errors.{fails, fails-bare, fails-long}
use euthenia.Tests.Inputs.{
  hello, packet, short, hello-IsFrame, packet-IsFrame, stale, holding, collecting,
}

-- Two messages and the start of a third, in any pieces.
pump-frames_example :
    pump little collecting 5
      (record { buffer = stale; pending = header })
      []
      (concat (hello ∷ packet ∷ []) ++ 4 ∷ 0 ∷ [])
    ≡ (deliver collecting (hello ∷ packet ∷ []) [] >>= λ log. ok (
      record { buffer = absorb_all stale (hello ∷ packet ∷ []); pending = header },
      log,
      4 ∷ 0 ∷ [],
    ))
pump-frames_example =
    pump-frames little collecting 5 stale [] (hello ∷ packet ∷ []) (4 ∷ 0 ∷ [])
      (hello-IsFrame, (packet-IsFrame, tt)) (omega arith) (omega arith)

collected : deliver collecting (hello ∷ packet ∷ []) [] ≡ ok (packet ∷ hello ∷ [])
unfolding euthenia.Dispatcher.dispatch euthenia.Dispatcher.find
collected = refl

packet_length : header_length little (holding packet) ≡ 10
unfolding header_length holding read load_word hton
packet_length = refl

body_fits_example :
    (header_size ≤ header_length little (holding packet)
      → header_size + body_length little (holding packet) ≤ max_length)
    × (header_length little (holding packet) < header_size
        → max_length < header_size + body_length little (holding packet))
body_fits_example = body_fits little (holding packet) (omega (arith, packet_length))

short_length : header_length little (write stale 0 short) ≡ 4
unfolding header_length write read load_word hton
short_length = refl

short_header_example :
    pump little collecting 2 (record { buffer = stale; pending = header }) [] (short ++ packet) ≡ (
      if ltb max_length (header_size + length packet)
      then fault out_of_bounds
      else ok (
        record {
          buffer = write stale 0 short;
          pending = body (body_length little (write stale 0 short));
        },
        [],
        packet,
      ))
short_header_example =
    short_header little collecting 0 stale [] short packet refl (omega (arith, short_length))
      (omega arith)

hello_held : read (holding hello) 0 (length hello) ≡ hello
unfolding read holding
hello_held = refl

packet_held : read (holding packet) 0 (length packet) ≡ packet
unfolding read holding
packet_held = refl

-- Three bytes of a new header have come, over a bare header.
fails-bare_example :
    (complete big collecting true
        (4 ∷ 0 ∷ 0 ∷ [])
        (record { buffer = holding hello; pending = header })
        []
      >>= λ s. fails big collecting 2 s.0 s.1)
    ≡ (deliver collecting (replicate 3 hello) [] >>= λ log.
        ok (record { buffer = write (holding hello) 0 (4 ∷ 0 ∷ 0 ∷ []); pending = header }, log))
fails-bare_example =
    fails-bare big collecting 2 (holding hello) [] (4 ∷ 0 ∷ 0 ∷ []) hello (omega arith)
      hello-IsFrame refl (unfold write Memory.read holding in refl)

-- Over a message of ten bytes none have come, and then one.
fails-long_example :
    (complete little collecting true [] (record { buffer = holding packet; pending = header }) []
      >>= λ s. complete little collecting true (7 ∷ []) s.0 s.1 >>= λ t.
          fails little collecting 2 t.0 t.1)
    ≡ ok (
      record { buffer = write (write (holding packet) 0 []) header_size (7 ∷ []); pending = idle },
      [],
    )
unfolding hton load_word Memory.read write holding header_length
fails-long_example =
    fails-long little collecting 2 (holding packet) [] [] (7 ∷ []) (omega arith) (omega arith)
      (omega arith) (omega arith)

-- The beginning of a new header over that message makes a bare header of the two, which is handed on.
spliced :
    (complete little collecting true
        (4 ∷ 0 ∷ 0 ∷ 8 ∷ [])
        (record { buffer = holding packet; pending = header })
        []
      >>= λ s. ok s.1)
    ≡ ok ((4 ∷ 0 ∷ 0 ∷ 8 ∷ 0 ∷ 0 ∷ 0 ∷ 2 ∷ []) ∷ [])
unfolding complete holding write Memory.read hton load_word
spliced = refl
