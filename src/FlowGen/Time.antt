-- ===== src/FlowGen/Time.antt =====
-- FlowGen.cpp: arithmetic on `timespec`. The fields are `long`; their sums and differences are taken
-- to fit. Where the code goes through narrower types that is written out, and the overflow of an
-- `int` product is a fault.
pub mod Subtract
pub mod Add
pub mod Overflow
use euthenia.Prelude.{
  ℕ, ◌+◌, ◌-◌, ◌*◌, ◌/◌, ◌%◌, ◌^◌, ◌<◌, ◌≤◌, Bool, true, false, ltb, leb, ◌&&◌, if◌then◌else◌,
  Result, ok, fault, signed_overflow, ◌>>=◌,
}
use euthenia.Prelude.Int.{
  ℤ, pos, negsuc, pos_part, neg_part, sub_ℕ, ◌+ℤ◌, ◌-ℤ◌, ◌≤ℤ◌, ◌<ℤ◌, ltb_ℤ, scale,
}

pub record Timespec : Type 0 where
  pub tv_sec : ℤ
  pub tv_nsec : ℤ

-- `const long nsec`, and the literal 1000000000
abbrev pub nsec : ℕ
nsec = 1000000000

-- A `long` that is not negative, converted to `int`.
abbrev pub to_int : ℕ → ℤ
to_int n = if ltb (n % 2 ^ 32) (2 ^ 31) then pos (n % 2 ^ 32) else negsuc (2 ^ 32 - n % 2 ^ 32 - 1)

-- `1000000000 * k`, a product of two `int`s.
unfoldable pub int_nanos : ℤ → Result ℤ
int_nanos k =
    if ltb (nsec * (pos_part k + neg_part k)) (2 ^ 31)
    then ok (scale nsec k)
    else fault signed_overflow

-- The first `if`: x's nanoseconds are fewer, so seconds are moved from y's nanoseconds.
unfoldable pub borrow : Timespec → Timespec → Result Timespec
unfolding int_nanos
borrow x y =
    let k = to_int (pos_part (y.tv_nsec -ℤ x.tv_nsec) / nsec + 1) in
    let moved =
      int_nanos k >>= λ d. ok (record y { tv_nsec = y.tv_nsec -ℤ d; tv_sec = y.tv_sec +ℤ k }) in
    if ltb_ℤ x.tv_nsec y.tv_nsec then moved else ok y

-- The second `if`: they are more by over a second, so seconds are moved to y's nanoseconds.
unfoldable pub carry : Timespec → Timespec → Result Timespec
unfolding int_nanos
carry x y =
    let k = to_int (pos_part (x.tv_nsec -ℤ y.tv_nsec) / nsec) in
    let moved =
      int_nanos k >>= λ d. ok (record y { tv_nsec = y.tv_nsec +ℤ d; tv_sec = y.tv_sec -ℤ k }) in
    if ltb_ℤ (pos nsec) (x.tv_nsec -ℤ y.tv_nsec) then moved else ok y

-- What `timeval_subtract` leaves in `*result` and in `*y`, and whether it returns 1.
pub record Difference : Type 0 where
  pub result : Timespec
  pub y_after : Timespec
  pub negative : Bool

unfoldable pub timeval_subtract : Timespec → Timespec → Result Difference
unfolding borrow carry
timeval_subtract x y = borrow x y >>= λ y1. carry x y1 >>= λ y2. ok (record {
  result = record { tv_sec = x.tv_sec -ℤ y2.tv_sec; tv_nsec = x.tv_nsec -ℤ y2.tv_nsec };
  y_after = y2;
  negative = ltb_ℤ x.tv_sec y2.tv_sec;
})

-- A `long` converted to `uint32_t`.
abbrev pub to_u32 : ℤ → ℕ
to_u32 a = (pos_part a + (2 ^ 32 - neg_part a % 2 ^ 32)) % 2 ^ 32

unfoldable pub timespec_add : Timespec → Timespec → Timespec
timespec_add x y =
    let sub = to_u32 (x.tv_nsec +ℤ y.tv_nsec) in
    if leb nsec sub
    then record { tv_sec = x.tv_sec +ℤ y.tv_sec +ℤ pos 1; tv_nsec = pos ((sub + nsec) % 2 ^ 32) }
    else record { tv_sec = x.tv_sec +ℤ y.tv_sec +ℤ pos 0; tv_nsec = pos sub }

-- The whole time in nanoseconds.
unfoldable pub nanos : Timespec → ℤ
nanos t = scale nsec t.tv_sec +ℤ t.tv_nsec

-- The nanoseconds are a fraction of a second, as the system gives them.
abbrev pub IsNormal : Timespec → Type 0
IsNormal t = (pos 0 ≤ℤ t.tv_nsec) × (t.tv_nsec <ℤ pos nsec)
