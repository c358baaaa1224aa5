-- ===== src/Machine/Memory.antt =====
-- A buffer of bytes as a function from the offset. A `char` array that nothing has written yet, or
-- that holds an earlier message, is an arbitrary such function.
use euthenia.Prelude.{
  ℕ, zero, suc, ◌+◌, ◌≤◌, ◌<◌, ◌≡◌, refl, ap, ◌∙◌, List, [], ◌∷◌, ◌++◌, ◌==◌, if◌then◌else◌, arith,
  length, take,
}

abbrev pub Memory : Type 0
Memory = ℕ → ℕ

abbrev pub store : Memory → ℕ → ℕ → Memory
store m off b i = if i == off then b else m i

-- `memcpy` of the bytes to `off`.
unfoldable pub write : Memory → ℕ → List ℕ → Memory
write m off [] = m
write m off (b ∷ bs) = write (store m off b) (suc off) bs

unfoldable pub read : Memory → ℕ → ℕ → List ℕ
read m off zero = []
read m off (suc n) = m off ∷ read m (suc off) n

pub length-read : (m : Memory) (off n : ℕ) → length (read m off n) ≡ n
unfolding read
length-read m off zero = refl
length-read m off (suc n) = ap suc (length-read m (suc off) n)

write_below : (m : Memory) (off : ℕ) (bs : List ℕ) (i : ℕ) → i < off → write m off bs i ≡ m i
unfolding write
write_below m off [] i h = refl
write_below m off (b ∷ bs) i h =
    write_below (store m off b) (suc off) bs i (omega arith) ∙ ground arith

pub read-write_below :
    (m : Memory) (at n off : ℕ) (bs : List ℕ)
    → at + n ≤ off
    → read (write m off bs) at n ≡ read m at n
unfolding read
read-write_below m at zero off bs h = refl
read-write_below m at (suc n) off bs h = ground (
  arith,
  write_below m off bs at (omega arith),
  read-write_below m (suc at) n off bs (omega arith),
)

-- What was written is read back.
pub read-write : (m : Memory) (off : ℕ) (bs : List ℕ) → read (write m off bs) off (length bs) ≡ bs
unfolding read write
read-write m off [] = refl
read-write m off (b ∷ bs) = ground (
  arith,
  write_below (store m off b) (suc off) bs off (omega arith),
  read-write (store m off b) (suc off) bs,
)

pub read-add : (m : Memory) (off a b : ℕ) → read m off (a + b) ≡ read m off a ++ read m (off + a) b
unfolding read
read-add m off zero b = ground arith
read-add m off (suc a) b =
    let shift : suc a + b ≡ suc (a + b) = omega arith in
    let place : off + suc a ≡ suc off + a = omega arith in
    rw (shift, place) (ap (◌∷◌ (m off)) (read-add m (suc off) a b))

pub take-read : (m : Memory) (off k n : ℕ) → k ≤ n → take k (read m off n) ≡ read m off k
unfolding read
take-read m off zero n h = refl
take-read m off (suc k) zero h = absurd (omega arith)
take-read m off (suc k) (suc n) h = ap (◌∷◌ (m off)) (take-read m (suc off) k n (omega arith))
