-- ===== src/Proxy/Severity.antt =====
-- eproxy.cpp: what of the log is kept, by the argument of the command line.
use euthenia.Prelude.{
  ℕ, suc, ◌^◌, ◌<◌, ◌≡◌, true, Bool, some, none, List, ◌∷◌, ◌++◌, ltb, leb, if◌then◌else◌, arith,
}
use euthenia.Machine.Endian.{Endian}
use euthenia.Machine.Memory.{Memory}
use euthenia.Numerals.{positive, negative}
use euthenia.Numerals.Decimal.{print, Stops, stoi-print}
use euthenia.Proxy.{Outside, severity_of, boost_log_init, main}

module _ (e : Endian) (heap : Memory) (ovs_assist : Bool) (o : Outside) (level : ℕ) where
  logs_by_default : (main e heap ovs_assist none o).0 level ≡ leb 2 level
  unfolding main boost_log_init severity_of
  logs_by_default = ground arith

  -- Without an argument the log begins at level 2. With a decimal number as argument, whatever but a digit follows
  -- it, it begins at that level, or at 2 if the number is no int; with a minus before the number
  -- everything is logged, or what is from 2 on if the number is no int.
  pub main-logs :
      (count n : ℕ) (rest : List ℕ)
      → n < 10 ^ suc count
      → Stops rest
      → ((main e heap ovs_assist none o).0 level ≡ leb 2 level)
        × ((main e heap ovs_assist (some (print (suc count) n ++ rest)) o).0 level
            ≡ leb (if ltb n (2 ^ 31) then n else 2) level)
        × ((main e heap ovs_assist (some (45 ∷ (print (suc count) n ++ rest))) o).0 level
            ≡ (if leb n (2 ^ 31) then true else leb 2 level))
  unfolding main boost_log_init severity_of positive negative
  main-logs count n rest small stops =
      let read = stoi-print count n rest small stops in
      (logs_by_default, rw read.0 (ground arith), rw read.1 (ground arith))
