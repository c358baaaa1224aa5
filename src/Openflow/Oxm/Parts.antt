-- ===== src/Openflow/Oxm/Parts.antt =====
-- openflow.h: what the reading macros make of a header, and OXM_MAKE_WILD_HEADER of a plain one.
use euthenia.Prelude.{
  ℕ, Bool, ◌+◌, ◌-◌, ◌*◌, ◌%◌, ◌^◌, ◌<◌, ltb, ◌≡◌, refl, arith, if◌then◌else◌, ◌&&◌, not,
}
use euthenia.Machine.Bits.{bit_or, or-fields, and-mask}
use euthenia.Openflow.Oxm.{
  shift_left, shift_right, oxm_header_of, oxm_header_w, oxm_class, oxm_field, oxm_type, oxm_hasmask,
  oxm_length, oxm_make_wild_header,
}

-- The header as a number.
abbrev packed : (class field hasmask length : ℕ) → ℕ
packed c f m l = c * 2 ^ 16 + f * 2 ^ 9 + m * 2 ^ 8 + l

-- What OXM_CLASS gives for the class: an int has its sign.
abbrev pub class_read : (signed : Bool) → ℕ → ℕ
class_read signed class =
    if signed && not (ltb class (2 ^ 15)) then class + (2 ^ 32 - 2 ^ 16) else class

-- A class may be negative, as OXM_CLASS gives it.
packed_lem :
    (c f m l : ℕ)
    → f < 2 ^ 7
    → m < 2
    → l < 2 ^ 8
    → oxm_header_of c f m l ≡ packed (c % 2 ^ 16) f m l
unfolding oxm_header_of
packed_lem c f m l f_fits m_fits l_fits =
    let c_shifts : shift_left c 16 ≡ c % 2 ^ 16 * 2 ^ 16 = omega arith in
    let f_shifts : shift_left f 9 ≡ f * 2 ^ 9 = omega arith in
    let m_shifts : shift_left m 8 ≡ m * 2 ^ 8 = omega arith in
    let class : bit_or 32 (c % 2 ^ 16 * 2 ^ 16) (f * 2 ^ 9) ≡ (c % 2 ^ 16 * 2 ^ 7 + f) * 2 ^ 9 =
      omega (
        arith,
        or-fields 32 16 (c % 2 ^ 16) (f * 2 ^ 9) (omega arith) (omega arith) (omega arith),
      ) in
    let field : bit_or 32 ((c % 2 ^ 16 * 2 ^ 7 + f) * 2 ^ 9) (m * 2 ^ 8)
        ≡ (c % 2 ^ 16 * 2 ^ 8 + f * 2 + m) * 2 ^ 8 =
      omega (
        arith,
        or-fields 32 9 (c % 2 ^ 16 * 2 ^ 7 + f) (m * 2 ^ 8) (omega arith) (omega arith)
            (omega arith),
      ) in
    let length : bit_or 32 ((c % 2 ^ 16 * 2 ^ 8 + f * 2 + m) * 2 ^ 8) l
        ≡ packed (c % 2 ^ 16) f m l =
      omega (
        arith,
        or-fields 32 8 (c % 2 ^ 16 * 2 ^ 8 + f * 2 + m) l (omega arith) (omega arith) l_fits,
      ) in
    rw c_shifts (rw f_shifts (rw m_shifts (rw class (rw field length))))

-- What a shift to the right by `k` leaves, with the sign of an int in front.
abbrev filled : (signed : Bool) (class k rest : ℕ) → ℕ
filled signed c k rest =
    (if signed && not (ltb c (2 ^ 15)) then 2 ^ 32 - 2 ^ (32 - k) else 0) + rest

module _ (signed : Bool) (c f m l : ℕ) (c_fits : c < 2 ^ 16) (f_fits : f < 2 ^ 7) (m_fits : m < 2)
    (l_fits : l < 2 ^ 8) where
  class_shift : shift_right signed (packed c f m l) 16 ≡ class_read signed c
  class_shift = ground arith

  field_shift : shift_right signed (packed c f m l) 9 ≡ filled signed c 9 (c * 2 ^ 7 + f)
  field_shift = ground arith

  hasmask_shift : shift_right signed (packed c f m l) 8 ≡ filled signed c 8 (c * 2 ^ 8 + f * 2 + m)
  hasmask_shift = ground arith

  field_read : oxm_field signed (packed c f m l) ≡ f
  unfolding oxm_field
  field_read =
      let q = if signed && not (ltb c (2 ^ 15)) then c + (2 ^ 25 - 2 ^ 16) else c in
      let shift : shift_right signed (packed c f m l) 9 ≡ q * 2 ^ 7 + f =
        ground (arith, field_shift) in
      rw shift (and-mask 32 7 q f (omega arith) f_fits)

  type_read : oxm_type signed (packed c f m l) ≡ c * 2 ^ 7 + f
  unfolding oxm_type
  type_read =
      let q = if signed && not (ltb c (2 ^ 15)) then 2 ^ 9 - 1 else 0 in
      let shift : shift_right signed (packed c f m l) 9 ≡ q * 2 ^ 23 + (c * 2 ^ 7 + f) =
        ground (arith, field_shift) in
      rw shift (and-mask 32 23 q (c * 2 ^ 7 + f) (omega arith) (omega arith))

  hasmask_read : oxm_hasmask signed (packed c f m l) ≡ m
  unfolding oxm_hasmask
  hasmask_read =
      let q =
        if signed && not (ltb c (2 ^ 15))
        then c * 2 ^ 7 + f + (2 ^ 31 - 2 ^ 23)
        else c * 2 ^ 7 + f in
      let shift : shift_right signed (packed c f m l) 8 ≡ q * 2 ^ 1 + m =
        ground (arith, hasmask_shift) in
      rw shift (and-mask 32 1 q m (omega arith) m_fits)

  length_read : oxm_length (packed c f m l) ≡ l
  unfolding oxm_length
  length_read =
      let parts : packed c f m l ≡ (c * 2 ^ 8 + f * 2 + m) * 2 ^ 8 + l = omega arith in
      rw parts (and-mask 32 8 (c * 2 ^ 8 + f * 2 + m) l (omega arith) l_fits)

  wild_made : oxm_make_wild_header signed (packed c f m l) ≡ oxm_header_w c f l
  unfolding oxm_make_wild_header oxm_class oxm_header_w oxm_header_of
  wild_made =
      let signless : shift_left (class_read signed c) 16 ≡ shift_left c 16 = ground arith in
      rw class_shift (rw field_read (rw length_read (rw signless refl)))

  -- A header made of a class, a field, a mask bit and a length that fit their places gives them back, as an int and
  -- as a uint32_t, except that of an int OXM_CLASS takes the sign along; and OXM_MAKE_WILD_HEADER makes of it what
  -- OXM_HEADER_W makes of its class, its field and its length, in spite of the sign.
  pub oxm_header-parts :
      (oxm_class signed (oxm_header_of c f m l) ≡ class_read signed c)
      × (oxm_field signed (oxm_header_of c f m l) ≡ f)
      × (oxm_type signed (oxm_header_of c f m l) ≡ c * 2 ^ 7 + f)
      × (oxm_hasmask signed (oxm_header_of c f m l) ≡ m)
      × (oxm_length (oxm_header_of c f m l) ≡ l)
      × (oxm_make_wild_header signed (oxm_header_of c f m l) ≡ oxm_header_w c f l)
  unfolding oxm_class
  oxm_header-parts =
      let made : oxm_header_of c f m l ≡ packed c f m l =
        omega (arith, packed_lem c f m l f_fits m_fits l_fits) in
      rw made (class_shift, field_read, type_read, hasmask_read, length_read, wild_made)
