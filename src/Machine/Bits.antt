-- ===== src/Machine/Bits.antt =====
-- `|` and `&` of machine words of a given width, digit by digit, with what they are on disjoint fields and
-- on a mask of low digits. Nothing here models code of the repository by itself.
use euthenia.Prelude.{
  ℕ, zero, suc, ◌+◌, ◌*◌, ◌/◌, ◌%◌, ◌^◌, ◌-◌, ◌≤◌, ◌<◌, min, ◌≡◌, refl, ap, arith,
}
use Prim.Native.Nat.{max}
use native.Mathlib.Nat.{pow-suc}

unfoldable pub bit_or : (width : ℕ) → ℕ → ℕ → ℕ
bit_or zero a b = 0
bit_or (suc w) a b = 2 * bit_or w (a / 2) (b / 2) + max (a % 2) (b % 2)

unfoldable pub bit_and : (width : ℕ) → ℕ → ℕ → ℕ
bit_and zero a b = 0
bit_and (suc w) a b = 2 * bit_and w (a / 2) (b / 2) + min (a % 2) (b % 2)

half_shifted : (q k : ℕ) → q * 2 ^ suc k ≡ 2 * (q * 2 ^ k)
half_shifted q k = omega (arith, ap (λ (n : ℕ). q * n) (pow-suc 2 k))

or-zero : (w a : ℕ) → a < 2 ^ w → bit_or w a 0 ≡ a
unfolding bit_or
or-zero zero a fits = omega arith
or-zero (suc w) a fits = ground (arith, or-zero w (a / 2) (omega (arith, pow-suc 2 w)))

-- A field above digit `k` and one below it.
pub or-fields :
    (w k q r : ℕ) → k ≤ w → q * 2 ^ k < 2 ^ w → r < 2 ^ k → bit_or w (q * 2 ^ k) r ≡ q * 2 ^ k + r
unfolding bit_or
or-fields zero zero q r k≤w high low = omega arith
or-fields (suc w) zero q r k≤w high low = ground (arith, or-zero (suc w) q (omega arith))
or-fields zero (suc k) q r k≤w high low = absurd (omega arith)
or-fields (suc w) (suc k) q r k≤w high low = ground (
  arith,
  half_shifted q k,
  or-fields w k q (r / 2) (omega arith) (omega (arith, half_shifted q k, pow-suc 2 w))
      (omega (arith, pow-suc 2 k)),
)

and-none : (w a : ℕ) → bit_and w a 0 ≡ 0
unfolding bit_and
and-none zero a = refl
and-none (suc w) a = ground (arith, and-none w (a / 2))

-- The `k` low digits.
pub and-mask : (w k q r : ℕ) → k ≤ w → r < 2 ^ k → bit_and w (q * 2 ^ k + r) (2 ^ k - 1) ≡ r
unfolding bit_and
and-mask w zero q r k≤w low = rw and-none (omega arith)
and-mask zero (suc k) q r k≤w low = absurd (omega arith)
and-mask (suc w) (suc k) q r k≤w low = ground (
  arith,
  half_shifted q k,
  pow-suc 2 k,
  and-mask w k q (r / 2) (omega arith) (omega (arith, pow-suc 2 k)),
)
