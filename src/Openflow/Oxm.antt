-- ===== src/Openflow/Oxm.antt =====
-- openflow.h: the headers of the fields of a match, and the macros that make and read them.
pub mod Parts
pub mod Constants
use euthenia.Prelude.{
  ℕ, Bool, true, ◌+◌, ◌-◌, ◌*◌, ◌/◌, ◌%◌, ◌^◌, ltb, not, ◌&&◌, if◌then◌else◌, Option, none, some,
}
use euthenia.Machine.Bits.{bit_or, bit_and}

-- A value of int or of uint32_t is its 32 binary digits. A shift to the left of an int drops what runs
-- out, which the compilers of the repository do where the standard left it open.
abbrev pub shift_left : ℕ → ℕ → ℕ
shift_left a k = a * 2 ^ k % 2 ^ 32

-- An int is filled with its sign, a uint32_t with zeros.
abbrev pub shift_right : (signed : Bool) → ℕ → ℕ → ℕ
shift_right signed a k =
    if signed && not (ltb a (2 ^ 31)) then a / 2 ^ k + (2 ^ 32 - 2 ^ (32 - k)) else a / 2 ^ k

-- OXM_HEADER__
unfoldable pub oxm_header_of : (class field hasmask length : ℕ) → ℕ
oxm_header_of class field hasmask length =
    bit_or 32
      (bit_or 32 (bit_or 32 (shift_left class 16) (shift_left field 9)) (shift_left hasmask 8))
      length

unfoldable pub oxm_header : (class field length : ℕ) → ℕ
oxm_header class field length = oxm_header_of class field 0 length

unfoldable pub oxm_header_w : (class field length : ℕ) → ℕ
oxm_header_w class field length = oxm_header_of class field 1 (length * 2 % 2 ^ 32)

unfoldable pub oxm_length : (header : ℕ) → ℕ
oxm_length header = bit_and 32 header 0xff

module _ (signed : Bool) where
  unfoldable pub oxm_class : (header : ℕ) → ℕ
  oxm_class header = shift_right signed header 16

  unfoldable pub oxm_field : (header : ℕ) → ℕ
  oxm_field header = bit_and 32 (shift_right signed header 9) 0x7f

  unfoldable pub oxm_type : (header : ℕ) → ℕ
  oxm_type header = bit_and 32 (shift_right signed header 9) 0x7fffff

  unfoldable pub oxm_hasmask : (header : ℕ) → ℕ
  oxm_hasmask header = bit_and 32 (shift_right signed header 8) 1

  unfoldable pub oxm_make_wild_header : (header : ℕ) → ℕ
  oxm_make_wild_header header =
      oxm_header_w (oxm_class header) (oxm_field header) (oxm_length header)
