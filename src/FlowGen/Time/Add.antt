-- ===== src/FlowGen/Time/Add.antt =====
-- `timespec_add` on times as the system gives them.
use euthenia.Prelude.{◌+◌, ◌*◌, ◌%◌, ◌^◌, ◌<◌, ◌≤◌, ◌≡◌, arith}
use euthenia.Prelude.Int.{
  pos, pos_part, neg_part, ◌+ℤ◌, ◌≤ℤ◌, ◌<ℤ◌, int_laws, parts_apart, +ℤ_parts,
}
use euthenia.FlowGen.Time.{Timespec, nsec, timespec_add, nanos, IsNormal, to_u32}

-- The sum of two normal fields fits in `uint32_t`.
to_u32-sum :
    (x y : Timespec)
    → IsNormal x
    → IsNormal y
    → to_u32 (x.tv_nsec +ℤ y.tv_nsec) ≡ pos_part (x.tv_nsec +ℤ y.tv_nsec)
to_u32-sum x y nx ny =
    omega (arith, +ℤ_parts x.tv_nsec y.tv_nsec, parts_apart (x.tv_nsec +ℤ y.tv_nsec))

-- A normal sum, and one that has a second in its nanoseconds.
add_plain :
    (x y : Timespec)
    → IsNormal x
    → IsNormal y
    → pos_part (x.tv_nsec +ℤ y.tv_nsec) < nsec
    → timespec_add x y ≡ record {
      tv_sec = x.tv_sec +ℤ y.tv_sec +ℤ pos 0;
      tv_nsec = pos (pos_part (x.tv_nsec +ℤ y.tv_nsec));
    }
unfolding timespec_add
add_plain x y nx ny less = rw (to_u32-sum x y nx ny) (ground arith)

add_carry :
    (x y : Timespec)
    → IsNormal x
    → IsNormal y
    → nsec ≤ pos_part (x.tv_nsec +ℤ y.tv_nsec)
    → timespec_add x y ≡ record {
      tv_sec = x.tv_sec +ℤ y.tv_sec +ℤ pos 1;
      tv_nsec = pos (pos_part (x.tv_nsec +ℤ y.tv_nsec) + nsec);
    }
unfolding timespec_add
add_carry x y nx ny more =
    let fits : (pos_part (x.tv_nsec +ℤ y.tv_nsec) + nsec) % 2 ^ 32
        ≡ pos_part (x.tv_nsec +ℤ y.tv_nsec) + nsec =
      omega (arith, +ℤ_parts x.tv_nsec y.tv_nsec, parts_apart (x.tv_nsec +ℤ y.tv_nsec)) in
    rw (to_u32-sum x y nx ny, fits) (ground arith)

-- Below a second of nanoseconds in all the sum is exact and normal. From a second on the code adds
-- a second to the nanoseconds where it should take one away: the result is two seconds late, and not normal.
pub timespec_add_lem :
    (x y : Timespec)
    → IsNormal x
    → IsNormal y
    → (x.tv_nsec +ℤ y.tv_nsec <ℤ pos nsec
        → (nanos (timespec_add x y) ≡ nanos x +ℤ nanos y) × IsNormal (timespec_add x y))
      × (pos nsec ≤ℤ x.tv_nsec +ℤ y.tv_nsec
          → (nanos (timespec_add x y) ≡ nanos x +ℤ nanos y +ℤ pos (2 * nsec))
            × ¬ IsNormal (timespec_add x y))
timespec_add_lem x y nx ny = (plain, carried)
  where
    not_negative : neg_part (x.tv_nsec +ℤ y.tv_nsec) ≡ 0
    not_negative = omega (arith, +ℤ_parts x.tv_nsec y.tv_nsec, parts_apart (x.tv_nsec +ℤ y.tv_nsec))

    plain :
        x.tv_nsec +ℤ y.tv_nsec <ℤ pos nsec
        → (nanos (timespec_add x y) ≡ nanos x +ℤ nanos y) × IsNormal (timespec_add x y)
    plain h =
        let less : pos_part (x.tv_nsec +ℤ y.tv_nsec) < nsec = omega (arith, not_negative) in
        rw (add_plain x y nx ny less)
          (unfold nanos in omega (int_laws, not_negative), (omega arith, omega arith))

    carried :
        pos nsec ≤ℤ x.tv_nsec +ℤ y.tv_nsec
        → (nanos (timespec_add x y) ≡ nanos x +ℤ nanos y +ℤ pos (2 * nsec))
          × ¬ IsNormal (timespec_add x y)
    carried h =
        let more : nsec ≤ pos_part (x.tv_nsec +ℤ y.tv_nsec) = omega (arith, not_negative) in
        rw (add_carry x y nx ny more)
          (unfold nanos in omega (int_laws, not_negative), λ normal. omega (arith, normal.1))
