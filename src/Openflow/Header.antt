-- ===== src/Openflow/Header.antt =====
-- `struct ofp_header` of openflow.h, read through a cast of a byte buffer as Session.cpp and
-- Dispatcher.h do, and the messages on the wire.
use euthenia.Prelude.{
  ℕ, ◌^◌, ◌≤◌, ◌<◌, ◌≡◌, refl, sym, ap, ◌∙◌, List, [], ◌∷◌, ◌++◌, some, arith, length, take, drop,
  All,
}
use euthenia.Machine.Memory.{Memory, read, take-read}
use euthenia.Machine.Endian.{Endian, IsByte, load_word, hton, from_be, hton-load_word}
use euthenia.Openflow.Layout.{size_of, offset_of}
use euthenia.Openflow.Structs.Ports.{ofp_header}

-- sizeof(ofp_header)
abbrev pub header_size : ℕ
header_size = 8

-- `header->type` of the structure at the start of the buffer
unfoldable pub header_type : Memory → ℕ
header_type m = m 1

-- `ntohs(header->length)`
unfoldable pub header_length : Endian → Memory → ℕ
header_length e m = hton e 2 (load_word e (read m 2 2))

-- The places that the two reads above use are those of the structure's layout.
header_layout :
    (size_of ofp_header ≡ header_size)
    × (offset_of ofp_header "type" ≡ some 1)
    × (offset_of ofp_header "length" ≡ some 2)
unfolding size_of offset_of
header_layout = (refl, refl, refl)

-- The number in the length field of a message on the wire.
abbrev pub length_field : List ℕ → ℕ
length_field bs = from_be (take 2 (drop 2 bs))

abbrev pub type_field : List ℕ → ℕ
type_field (v ∷ t ∷ bs) = t
type_field _ = 0

-- One whole message: a header, and as many bytes as its length field counts.
pub record IsFrame (bs : List ℕ) : Type 0 where
  pub bytes : All IsByte bs
  pub has_header : header_size ≤ length bs
  pub counted : length_field bs ≡ length bs

pub header_length-read :
    (e : Endian) (m : Memory) (bs : List ℕ)
    → All IsByte bs
    → read m 0 header_size ≡ take header_size bs
    → header_size ≤ length bs
    → header_length e m ≡ length_field bs
unfolding header_length read
header_length-read e m (b0 ∷ b1 ∷ b2 ∷ b3 ∷ rest) h r l =
    let field : List ℕ = b2 ∷ b3 ∷ [] in
    let seen : read m 2 2 ≡ field = ap (λ (xs : List ℕ). take 2 (drop 2 xs)) r in
    rw seen (hton-load_word e field (h.1.1.0, (h.1.1.1.0, tt)))
header_length-read e m bs h r l = absurd (omega arith)

-- A buffer that holds a message from its start on holds the header of the message.
pub header_held :
    (m : Memory) (bs : List ℕ)
    → header_size ≤ length bs
    → read m 0 (length bs) ≡ bs
    → read m 0 header_size ≡ take header_size bs
header_held m bs h held = sym (take-read m 0 header_size (length bs) h) ∙ ap (take header_size) held

pub header_type-read :
    (m : Memory) (bs : List ℕ)
    → header_size ≤ length bs
    → read m 0 (length bs) ≡ bs
    → header_type m ≡ type_field bs
unfolding header_type read
header_type-read m (b0 ∷ b1 ∷ rest) h held = ap (λ (xs : List ℕ). type_field xs) held
header_type-read m bs h held = absurd (omega arith)

-- The length field has 16 bits.
pub length_field-lt : (bs : List ℕ) → All IsByte bs → length_field bs < 2 ^ 16
unfolding from_be
length_field-lt [] h = omega arith
length_field-lt (b0 ∷ []) h = omega arith
length_field-lt (b0 ∷ b1 ∷ []) h = omega arith
length_field-lt (b0 ∷ b1 ∷ b2 ∷ []) h = let (_, (_, (h2, _))) = h in omega arith
length_field-lt (b0 ∷ b1 ∷ b2 ∷ b3 ∷ rest) h = let (_, (_, (h2, (h3, _)))) = h in omega arith

pub IsFrame-lt : (bs : List ℕ) → IsFrame bs → length bs < 2 ^ 16
IsFrame-lt bs frame = omega (arith, frame.counted, length_field-lt bs frame.bytes)

-- The field is the header's own.
pub length_field-append :
    (h b : List ℕ) → length h ≡ header_size → length_field (h ++ b) ≡ length_field h
length_field-append (b0 ∷ b1 ∷ b2 ∷ b3 ∷ rest) b eight = refl
length_field-append [] b eight = absurd (omega (arith, eight))
length_field-append (b0 ∷ []) b eight = absurd (omega (arith, eight))
length_field-append (b0 ∷ b1 ∷ []) b eight = absurd (omega (arith, eight))
length_field-append (b0 ∷ b1 ∷ b2 ∷ []) b eight = absurd (omega (arith, eight))
