-- ===== src/Openflow/Fields.antt =====
-- Assignments through a pointer to a structure of openflow.h: `p->name = v`, where `p` points `base`
-- bytes into a buffer.
use Prim.Native.String.{String}
use text.Mathlib.Text.{◌==◌}
use mathlib.Core.Path.{fun_ext}
use euthenia.Prelude.{ℕ, ◌+◌, ◌≡◌, ap, Option, none, some, List, [], ◌∷◌, if◌then◌else◌}
use euthenia.Machine.Memory.{Memory, write}
use euthenia.Machine.Endian.{Endian, store_word, hton, be, store_word-hton}
use euthenia.Openflow.Layout.{CType, Members, struct, end, member, align_of, size_of, round_up}

-- The offset of a member, and the size of what is stored there: of one element, if it is an array.
pub record Place : Type 0 where
  pub offset : ℕ
  pub width : ℕ

unfoldable pub element_size : CType → ℕ
unfolding size_of
element_size (CType.array t n) = size_of t
element_size t = size_of t

unfoldable pub place_from : Members → ℕ → String → Option Place
unfolding size_of align_of element_size
place_from end off x = none
place_from (member name t ms) off x =
    let at = round_up off (align_of t) in
    let rest = place_from ms (at + size_of t) x in
    if name == x then some (record { offset = at; width = element_size t }) else rest

unfoldable pub place_of : CType → String → Option Place
unfolding place_from
place_of (struct ms) x = place_from ms 0 x
place_of t x = none

-- Bytes written at a place; there is none for a name that is no member.
unfoldable pub put : Option Place → ℕ → (ℕ → List ℕ) → Memory → Memory
unfolding write
put none base bytes m = m
put (some p) base bytes m = write m (base + p.offset) (bytes p.width)

-- `p->name = v`
unfoldable pub set_host : Endian → CType → ℕ → String → ℕ → Memory → Memory
unfolding place_of put store_word
set_host e t base name v = put (place_of t name) base (λ n. store_word e n v)

-- `p->name = htons(v)`, `htonl(v)` or `htobe64(v)`
unfoldable pub set_net : Endian → CType → ℕ → String → ℕ → Memory → Memory
unfolding place_of put store_word hton
set_net e t base name v = put (place_of t name) base (λ n. store_word e n (hton e n v))

-- `p->name[i] = v`, for an array of bytes
unfoldable pub set_byte : CType → ℕ → String → ℕ → ℕ → Memory → Memory
unfolding place_of put
set_byte t base name i v = put (place_of t name) (base + i) (λ n. v ∷ [])

-- A number in network order at a member.
unfoldable pub set_be : CType → ℕ → String → ℕ → Memory → Memory
unfolding place_of put be
set_be t base name v = put (place_of t name) base (λ n. be n v)

-- After the conversion to network order the bytes do not depend on the host.
pub set_net-be :
    (e : Endian) (t : CType) (base : ℕ) (name : String) (v : ℕ) (m : Memory)
    → set_net e t base name v m ≡ set_be t base name v m
unfolding set_net set_be
set_net-be e t base name v m =
    ap (λ bytes. put (place_of t name) base bytes m) (fun_ext λ n. store_word-hton e n v)
