-- ===== src/FlowGen/Time/Subtract.antt =====
-- `timeval_subtract` on times as the system gives them, and on a subtrahend that an earlier call has
-- changed.
use euthenia.Prelude.{
  ◌⊎◌, ◌||◌, ◌&&◌, not, ◌+◌, ◌/◌, ◌≡◌, refl, sym, ◌∙◌, ap, >>=_assoc, true, false, if◌then◌else◌,
  ok, ◌>>=◌, Bool-cases, inl, inr, arith,
}
use euthenia.Prelude.Int.{
  ℤ, pos, negsuc, pos_part, neg_part, ◌+ℤ◌, ◌-ℤ◌, ◌≤ℤ◌, ◌<ℤ◌, ltb_ℤ, scale, int_laws, -ℤ_parts,
  parts_apart, ltb_ℤ→<, ltb_ℤ→≤, ≤→ltb_ℤ,
}
use euthenia.FlowGen.Time.{
  Timespec, nsec, int_nanos, borrow, carry, Difference, timeval_subtract, nanos, IsNormal,
}

-- A second is moved between the fields.
abbrev later_sec : Timespec → Timespec
later_sec y = record { tv_nsec = y.tv_nsec -ℤ pos nsec; tv_sec = y.tv_sec +ℤ pos 1 }

abbrev earlier_sec : Timespec → Timespec
earlier_sec y = record { tv_nsec = y.tv_nsec +ℤ pos nsec; tv_sec = y.tv_sec -ℤ pos 1 }

-- Between minus and plus one second of nanoseconds, the ends excluded.
abbrev pub IsNear : Timespec → Type 0
IsNear y = (negsuc 999999999 <ℤ y.tv_nsec) × (y.tv_nsec <ℤ pos nsec)

borrow_lem :
    (x y : Timespec)
    → IsNormal x
    → IsNear y
    → borrow x y ≡ ok (if ltb_ℤ x.tv_nsec y.tv_nsec then later_sec y else y)
unfolding borrow int_nanos scale
borrow_lem x y nx ny = elim (Bool-cases (ltb_ℤ x.tv_nsec y.tv_nsec)) [
  | inl e ↦
      let one : pos_part (y.tv_nsec -ℤ x.tv_nsec) / nsec + 1 ≡ 1 = omega (
        arith,
        -ℤ_parts y.tv_nsec x.tv_nsec,
        parts_apart (y.tv_nsec -ℤ x.tv_nsec),
        ltb_ℤ→< x.tv_nsec y.tv_nsec e,
      ) in
      rw (e, one) refl
  | inr e ↦ rw e refl
]

carry_lem :
    (x y : Timespec)
    → IsNormal x
    → IsNear y
    → carry x y ≡ ok (if ltb_ℤ (pos nsec) (x.tv_nsec -ℤ y.tv_nsec) then earlier_sec y else y)
unfolding carry int_nanos scale
carry_lem x y nx ny = elim (Bool-cases (ltb_ℤ (pos nsec) (x.tv_nsec -ℤ y.tv_nsec))) [
  | inl e ↦
      let one : pos_part (x.tv_nsec -ℤ y.tv_nsec) / nsec ≡ 1 = omega (
        arith,
        -ℤ_parts x.tv_nsec y.tv_nsec,
        parts_apart (x.tv_nsec -ℤ y.tv_nsec),
        ltb_ℤ→< (pos nsec) (x.tv_nsec -ℤ y.tv_nsec) e,
      ) in
      rw (e, one) refl
  | inr e ↦ rw e refl
]

later_sec-nanos : (y : Timespec) → nanos (later_sec y) ≡ nanos y
unfolding nanos
later_sec-nanos y = omega int_laws

earlier_sec-nanos : (y : Timespec) → nanos (earlier_sec y) ≡ nanos y
unfolding nanos
earlier_sec-nanos y = omega int_laws

-- The subtrahend as the two steps leave it: the same time, with nanoseconds up to a second below those of x.
pub record IsAligned (x y y' : Timespec) : Type 0 where
  pub same : nanos y' ≡ nanos y
  pub near : IsNear y'
  pub below : y'.tv_nsec ≤ℤ x.tv_nsec
  pub within : x.tv_nsec ≤ℤ y'.tv_nsec +ℤ pos nsec
  pub strict : (y.tv_nsec <ℤ pos 0) ⊎ (x.tv_nsec <ℤ y'.tv_nsec +ℤ pos nsec)
  pub apart : (pos 0 ≤ℤ y.tv_nsec) ⊎ (y'.tv_nsec <ℤ x.tv_nsec)

-- The three ways through the two steps.
data Steps (x y : Timespec) : Type 0 where
  moved_on : x.tv_nsec <ℤ y.tv_nsec → (borrow x y >>= carry x) ≡ ok (later_sec y) → Steps x y
  moved_back :
      pos nsec <ℤ x.tv_nsec -ℤ y.tv_nsec → (borrow x y >>= carry x) ≡ ok (earlier_sec y) → Steps x y
  kept :
      y.tv_nsec ≤ℤ x.tv_nsec
      → x.tv_nsec -ℤ y.tv_nsec ≤ℤ pos nsec
      → (borrow x y >>= carry x) ≡ ok y
      → Steps x y

steps : (x y : Timespec) → IsNormal x → IsNear y → Steps x y
steps x y nx ny = elim (Bool-cases (ltb_ℤ x.tv_nsec y.tv_nsec)) [
  | inl e ↦
      let less = ltb_ℤ→< x.tv_nsec y.tv_nsec e in
      let near : IsNear (later_sec y) = omega int_laws in
      let fits : ltb_ℤ (pos nsec) (x.tv_nsec -ℤ (y.tv_nsec -ℤ pos nsec)) ≡ false =
        ≤→ltb_ℤ (pos nsec) (x.tv_nsec -ℤ (y.tv_nsec -ℤ pos nsec)) (omega int_laws) in
      moved_on less (rw (borrow_lem x y nx ny, e, carry_lem x (later_sec y) nx near, fits))
  | inr e ↦ elim (Bool-cases (ltb_ℤ (pos nsec) (x.tv_nsec -ℤ y.tv_nsec))) [
    | inl e' ↦
        moved_back (ltb_ℤ→< (pos nsec) (x.tv_nsec -ℤ y.tv_nsec) e')
          (rw (borrow_lem x y nx ny, e, carry_lem x y nx ny, e'))
    | inr e' ↦
        kept (ltb_ℤ→≤ x.tv_nsec y.tv_nsec e) (ltb_ℤ→≤ (pos nsec) (x.tv_nsec -ℤ y.tv_nsec) e')
          (rw (borrow_lem x y nx ny, e, carry_lem x y nx ny, e'))
  ]
]

aligned :
    (x y : Timespec)
    → IsNormal x
    → IsNear y
    → (y2 : Timespec) × ((borrow x y >>= carry x) ≡ ok y2) × IsAligned x y y2
aligned x y nx ny = go (steps x y nx ny)
  where
    go : Steps x y → (y2 : Timespec) × ((borrow x y >>= carry x) ≡ ok y2) × IsAligned x y y2
    go (moved_on less e) = (
      later_sec y,
      e,
      record {
        same = later_sec-nanos y;
        near = omega int_laws;
        below = omega int_laws;
        within = omega int_laws;
        strict = inr (omega int_laws);
        apart = inl (omega int_laws);
      },
    )
    go (moved_back more e) = (
      earlier_sec y,
      e,
      record {
        same = earlier_sec-nanos y;
        near = omega int_laws;
        below = omega int_laws;
        within = omega int_laws;
        strict = inr (omega int_laws);
        apart = inr (omega int_laws);
      },
    )
    go (kept le fits e) = (
      y,
      e,
      record {
        same = refl;
        near = ny;
        below = le;
        within = omega int_laws;
        strict = elim (Bool-cases (ltb_ℤ y.tv_nsec (pos 0))) [
          | inl neg ↦ inl (ltb_ℤ→< y.tv_nsec (pos 0) neg)
          | inr up ↦ inr (omega (int_laws, ltb_ℤ→≤ y.tv_nsec (pos 0) up))
        ];
        apart = elim (Bool-cases (ltb_ℤ y.tv_nsec (pos 0))) [
          | inl neg ↦ inr (omega (int_laws, ltb_ℤ→< y.tv_nsec (pos 0) neg))
          | inr up ↦ inl (ltb_ℤ→≤ y.tv_nsec (pos 0) up)
        ];
      },
    )

-- What a caller may rely on.
pub record IsDifference (x y : Timespec) (d : Difference) : Type 0 where
  pub exact : nanos d.result ≡ nanos x -ℤ nanos y
  pub y_same : nanos d.y_after ≡ nanos y
  pub y_near : IsNear d.y_after
  pub low : pos 0 ≤ℤ d.result.tv_nsec
  pub high : d.result.tv_nsec ≤ℤ pos nsec
  pub returned :
      d.negative
      ≡ (ltb_ℤ (nanos x) (nanos y) || (ltb_ℤ y.tv_nsec (pos 0) && not (ltb_ℤ (nanos y) (nanos x))))

abbrev difference : Timespec → Timespec → Difference
difference x y2 = record {
  result = record { tv_sec = x.tv_sec -ℤ y2.tv_sec; tv_nsec = x.tv_nsec -ℤ y2.tv_nsec };
  y_after = y2;
  negative = ltb_ℤ x.tv_sec y2.tv_sec;
}

<→ltb_ℤ : (a b : ℤ) → a <ℤ b → ltb_ℤ a b ≡ true
<→ltb_ℤ a b h = ground (arith, h)

-- How the whole times compare, by the seconds after the two steps.
module _ (x y y2 : Timespec) (a : IsAligned x y y2) where
  up : pos_part (nanos y2) ≡ pos_part (nanos y)
  up = ap pos_part a.same

  down : neg_part (nanos y2) ≡ neg_part (nanos y)
  down = ap neg_part a.same

  at_most : x.tv_sec <ℤ y2.tv_sec → nanos x ≤ℤ nanos y
  unfolding nanos
  at_most h = omega (int_laws, up, down, a.within, h)

  less : x.tv_sec <ℤ y2.tv_sec → x.tv_nsec <ℤ y2.tv_nsec +ℤ pos nsec → nanos x <ℤ nanos y
  unfolding nanos
  less h s = omega (int_laws, up, down, s, h)

  at_least : y2.tv_sec ≤ℤ x.tv_sec → nanos y ≤ℤ nanos x
  unfolding nanos
  at_least h = omega (int_laws, up, down, a.below, h)

  more : y2.tv_sec ≤ℤ x.tv_sec → y2.tv_nsec <ℤ x.tv_nsec → nanos y <ℤ nanos x
  unfolding nanos
  more h s = omega (int_laws, up, down, s, h)

  -- The value returned.
  tells :
      ltb_ℤ x.tv_sec y2.tv_sec
      ≡ (ltb_ℤ (nanos x) (nanos y) || (ltb_ℤ y.tv_nsec (pos 0) && not (ltb_ℤ (nanos y) (nanos x))))
  tells = elim (Bool-cases (ltb_ℤ x.tv_sec y2.tv_sec)) [
    | inl e ↦
        let h = ltb_ℤ→< x.tv_sec y2.tv_sec e in
        let unless = ≤→ltb_ℤ (nanos y) (nanos x) (at_most h) in
        elim a.strict [
          | inl neg ↦ ground (arith, e, unless, <→ltb_ℤ y.tv_nsec (pos 0) neg)
          | inr s ↦ rw (e, <→ltb_ℤ (nanos x) (nanos y) (less h s)) refl
        ]
    | inr e ↦
        let h = ltb_ℤ→≤ x.tv_sec y2.tv_sec e in
        let unless = ≤→ltb_ℤ (nanos x) (nanos y) (at_least h) in
        elim a.apart [
          | inl fine ↦ rw (e, unless, ≤→ltb_ℤ y.tv_nsec (pos 0) fine) refl
          | inr s ↦ ground (arith, e, unless, <→ltb_ℤ (nanos y) (nanos x) (more h s))
        ]
  ]

difference-IsDifference :
    (x y y2 : Timespec) → IsNormal x → IsAligned x y y2 → IsDifference x y (difference x y2)
unfolding nanos
difference-IsDifference x y y2 nx a = record {
  exact = omega (int_laws, up x y y2 a, down x y y2 a);
  y_same = a.same;
  y_near = a.near;
  low = omega (int_laws, a.below);
  high = omega (int_laws, a.within);
  returned = tells x y y2 a;
}

-- For a normal x, and a y with less than a second of nanoseconds up or down, `timeval_subtract` runs
-- without overflow. `*result` is the exact difference, with 0 to 10^9 nanoseconds; `*y` is rewritten, but stands for
-- the same time, and can be passed again. The value returned is 1 exactly if the difference is negative, or zero for a
-- y with negative nanoseconds, such as an earlier call may leave.
pub timeval_subtract_lem :
    (x y : Timespec)
    → IsNormal x
    → IsNear y
    → (d : Difference) × (timeval_subtract x y ≡ ok d) × IsDifference x y d
unfolding timeval_subtract
timeval_subtract_lem x y nx ny =
    let (y2, e, a) = aligned x y nx ny in
    (
      difference x y2,
      sym (>>=_assoc (borrow x y) (carry x) (λ y2. ok (difference x y2)))
          ∙ ap (λ c. c >>= λ y2. ok (difference x y2)) e,
      difference-IsDifference x y y2 nx a,
    )
