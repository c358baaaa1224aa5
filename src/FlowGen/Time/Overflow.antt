-- ===== src/FlowGen/Time/Overflow.antt =====
-- What becomes of a deadline that `timespec_add` moves past a second: `timespec_add` and
-- `timeval_subtract` of FlowGen.cpp, as `a_burst` calls them one after the other.
use euthenia.Prelude.{
  ℕ, ◌+◌, ◌*◌, ◌/◌, ◌%◌, ◌^◌, ◌<◌, ◌≤◌, ◌≡◌, refl, ltb, fault, signed_overflow, arith, true, false,
}
use euthenia.Prelude.Int.{
  ℤ, pos, pos_part, ◌+ℤ◌, ◌-ℤ◌, ltb_ℤ, -ℤ_parts, +ℤ_parts, parts_apart, ≤→ltb_ℤ,
}
use euthenia.FlowGen.Time.{
  Timespec, nsec, int_nanos, borrow, carry, timeval_subtract, timespec_add, IsNormal, to_int,
  to_u32,
}

abbrev pub at_time : ℤ → ℕ → Timespec
at_time sec n = record { tv_sec = sec; tv_nsec = pos n }

-- An addition that reaches a second of nanoseconds, and fits in `uint32_t`.
timespec_add-over :
    (sec : ℤ) (a b : ℕ)
    → nsec ≤ a + b
    → a + b + nsec < 2 ^ 32
    → timespec_add (at_time sec a) (at_time (pos 0) b)
      ≡ at_time (sec +ℤ pos 0 +ℤ pos 1) (a + b + nsec)
unfolding timespec_add
timespec_add-over sec a b over fits =
    let word : to_u32 (pos a +ℤ pos b) ≡ a + b =
      omega (arith, +ℤ_parts (pos a) (pos b), parts_apart (pos a +ℤ pos b)) in
    let sum : (a + b + nsec) % 2 ^ 32 ≡ a + b + nsec = omega arith in rw (word, sum) (ground arith)

-- Three seconds of nanoseconds, or four, are no product of `int`s.
int_nanos-fault :
    (d : ℕ) → 3 * nsec ≤ d → d < 2 ^ 32 → int_nanos (to_int (d / nsec)) ≡ fault signed_overflow
unfolding int_nanos
int_nanos-fault d many fits =
    let small : ltb (d / nsec % 2 ^ 32) (2 ^ 31) ≡ true = ground arith in rw small (ground arith)

-- Over four seconds of nanoseconds are too many for the subtraction of a normal time.
timeval_subtract-fault :
    (sec : ℤ) (c : ℕ) (y : Timespec)
    → IsNormal y
    → 4 * nsec ≤ c
    → c < 2 ^ 32
    → timeval_subtract (at_time sec c) y ≡ fault signed_overflow
unfolding timeval_subtract borrow carry
timeval_subtract-fault sec c y ny many fits =
    let parts = -ℤ_parts (pos c) y.tv_nsec in
    let apart = parts_apart (pos c -ℤ y.tv_nsec) in
    let first : ltb_ℤ (pos c) y.tv_nsec ≡ false = ≤→ltb_ℤ (pos c) y.tv_nsec (omega arith) in
    let second : ltb_ℤ (pos nsec) (pos c -ℤ y.tv_nsec) ≡ true = ground (arith, parts, apart) in
    let product =
      int_nanos-fault (pos_part (pos c -ℤ y.tv_nsec)) (omega (arith, parts, apart))
        (omega (arith, parts, apart)) in
    rw (first, second, product) refl

-- A deadline that one addition carries past a second is, after two more, subtracted with the
-- overflow of a signed number, whatever the normal time: so at every rate from eleven packets per second on,
-- whose period is below 98 milliseconds.
pub deadline_overflow :
    (sec : ℤ) (a period : ℕ) (now : Timespec)
    → a < nsec
    → nsec ≤ a + period
    → period < 98000000
    → IsNormal now
    → (let add = λ (t : Timespec). timespec_add t (at_time (pos 0) period) in
        timeval_subtract (add (add (add (at_time sec a)))) now ≡ fault signed_overflow)
deadline_overflow sec a period now normal over short ny =
    let once = timespec_add-over sec a period over (omega arith) in
    let twice =
      timespec_add-over (sec +ℤ pos 0 +ℤ pos 1) (a + period + nsec) period (omega arith)
        (omega arith) in
    let thrice =
      timespec_add-over (sec +ℤ pos 0 +ℤ pos 1 +ℤ pos 0 +ℤ pos 1)
        (a + period + nsec + period + nsec) period (omega arith) (omega arith) in
    rw (once, twice, thrice)
      (timeval_subtract-fault _ (a + period + nsec + period + nsec + period + nsec) now ny
        (omega arith) (omega arith))
