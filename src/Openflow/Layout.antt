-- ===== src/Openflow/Layout.antt =====
-- How a C compiler lays a structure out: each member at the next offset that its alignment allows,
-- and the whole rounded up to the widest alignment. openflow.h relies on this rule, since none of
-- its structures is declared packed.
use Prim.Native.Nat.{max}
use Prim.Native.String.{String}
use text.Mathlib.Text.{◌==◌}
use euthenia.Prelude.{ℕ, ◌+◌, ◌-◌, ◌*◌, ◌/◌, Option, none, some, if◌then◌else◌}

-- `uint8` stands for `char` too.
mutual
  pub data CType : Type 0 where
    uint8 uint16 uint32 uint64 : CType
    array : CType → ℕ → CType
    struct : Members → CType

  pub data Members : Type 0 where
    end : Members
    member : String → CType → Members → Members

infixr 5 ◌⨾◌
abbrev pub ◌⨾◌ : String × CType → Members → Members
(name, type) ⨾ rest = member name type rest

unfoldable mutual
  pub align_of : CType → ℕ
  align_of uint8 = 1
  align_of uint16 = 2
  align_of uint32 = 4
  align_of uint64 = 8
  align_of (array t n) = align_of t
  align_of (struct ms) = align_members ms

  pub align_members : Members → ℕ
  align_members end = 1
  align_members (member name t ms) = max (align_of t) (align_members ms)

-- The first multiple of `a` from `n` on.
abbrev pub round_up : ℕ → ℕ → ℕ
round_up n a = (n + (a - 1)) / a * a

unfoldable mutual
  unfolding align_of align_members

  -- `sizeof`
  pub size_of : CType → ℕ
  size_of uint8 = 1
  size_of uint16 = 2
  size_of uint32 = 4
  size_of uint64 = 8
  size_of (array t n) = size_of t * n
  size_of (struct ms) = round_up (end_from ms 0) (align_members ms)

  -- Where the members end if the first is placed from `off` on.
  pub end_from : Members → ℕ → ℕ
  end_from end off = off
  end_from (member name t ms) off = end_from ms (round_up off (align_of t) + size_of t)

-- The members' sizes alone, at every depth: the size on the wire, where nothing is padded.
unfoldable mutual
  pub wire_size : CType → ℕ
  wire_size uint8 = 1
  wire_size uint16 = 2
  wire_size uint32 = 4
  wire_size uint64 = 8
  wire_size (array t n) = wire_size t * n
  wire_size (struct ms) = wire_members ms

  pub wire_members : Members → ℕ
  wire_members end = 0
  wire_members (member name t ms) = wire_size t + wire_members ms

-- `offsetof`, for a member whose predecessors end at `off`.
unfoldable pub offset_from : Members → ℕ → String → Option ℕ
unfolding size_of align_of
offset_from end off x = none
offset_from (member name t ms) off x =
    let at = round_up off (align_of t) in
    let rest = offset_from ms (at + size_of t) x in if name == x then some at else rest

unfoldable pub offset_of : CType → String → Option ℕ
unfolding offset_from
offset_of (struct ms) x = offset_from ms 0 x
offset_of t x = none

-- `sizeof` a member.
unfoldable pub size_in : Members → String → Option ℕ
unfolding size_of
size_in end x = none
size_in (member name t ms) x =
    let rest = size_in ms x in if name == x then some (size_of t) else rest

unfoldable pub member_size : CType → String → Option ℕ
unfolding size_in
member_size (struct ms) x = size_in ms x
member_size t x = none
