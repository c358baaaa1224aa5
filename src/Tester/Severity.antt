-- ===== src/Tester/Severity.antt =====
-- UnitTest_PacketInTester.cpp: what of the log is kept, by the arguments of the command line.
use euthenia.Prelude.{
  ap, ◌∙◌, Option, ℕ, suc, ◌^◌, ◌<◌, ◌≡◌, refl, true, Bool, List, [], ◌∷◌, ◌++◌, ltb, leb,
  if◌then◌else◌, arith, Result, ok, fault, signed_overflow, ◌>>=◌, some,
}
use euthenia.Prelude.Int.{ℤ}
use euthenia.Numerals.{positive}
use euthenia.Numerals.Decimal.{print, Stops, atoi-print}
use euthenia.Tester.Main.{boost_log_init, filter_from, log_filter}

abbrev begun : (level : ℕ) → Option ℤ → Result Bool
begun level number = filter_from number >>= λ logs. ok (logs level)

begun-positive :
    (level n : ℕ)
    → begun level (positive (some n))
      ≡ (if ltb n (2 ^ 31) then ok (leb n level) else fault signed_overflow)
unfolding filter_from boost_log_init positive
begun-positive level n = ground arith

-- Without a severity everything is logged, and with a severity as the last argument too. With a decimal number and a
-- further argument the log begins at that level if the number is an int, and nothing is promised if it is not.
pub log_filter-print :
    (level : ℕ) (text : List ℕ) (count n : ℕ) (rest more : List ℕ) (others : List (List ℕ))
    → n < 10 ^ suc count
    → Stops rest
    → ((log_filter [] >>= λ logs. ok (logs level)) ≡ ok true)
      × ((log_filter (text ∷ []) >>= λ logs. ok (logs level)) ≡ ok true)
      × ((log_filter ((print (suc count) n ++ rest) ∷ more ∷ others) >>= λ logs. ok (logs level))
          ≡ (if ltb n (2 ^ 31) then ok (leb n level) else fault signed_overflow))
unfolding log_filter
log_filter-print level text count n rest more others small stops =
    (refl, refl, ap (begun level) (atoi-print count n rest small stops) ∙ begun-positive level n)
