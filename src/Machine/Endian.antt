-- ===== src/Machine/Endian.antt =====
-- Byte orders: the bytes of a word as the host stores them, and `htons`, `htonl`, `htobe64` and
-- their inverses, which are one function of the word's width in bytes.
use native.Mathlib.Nat.{
  pow-suc, div-add-mod', mod-lt, mod-eq_of_lt, add-mul-mod_self_right, one-le-pow,
}
use mathlib.Core.List.{reverse, reverse-cons, reverse-reverse}
use euthenia.Prelude.{
  ℕ, zero, suc, ◌+◌, ◌*◌, ◌/◌, ◌%◌, ◌^◌, ◌<◌, ◌≡◌, refl, sym, ap, ◌∙◌, List, [], ◌∷◌, arith, length,
  length-append, All, All-append,
}

abbrev pub IsByte : ℕ → Type 0
IsByte b = b < 256

-- The byte order of the host.
pub data Endian : Type 0 where
  little : Endian
  big : Endian

-- The `n` low bytes of `v`, lowest first.
unfoldable pub le : ℕ → ℕ → List ℕ
le zero v = []
le (suc n) v = v % 256 ∷ le n (v / 256)

unfoldable pub from_le : List ℕ → ℕ
from_le [] = 0
from_le (b ∷ bs) = b + 256 * from_le bs

-- Highest first: the order of the network.
unfoldable pub be : ℕ → ℕ → List ℕ
unfolding le
be n v = reverse (le n v)

unfoldable pub from_be : List ℕ → ℕ
unfolding from_le
from_be bs = from_le (reverse bs)

-- How the host stores a word of `n` bytes, and reads one.
unfoldable pub store_word : Endian → ℕ → ℕ → List ℕ
unfolding le be
store_word little n v = le n v
store_word big n v = be n v

unfoldable pub load_word : Endian → List ℕ → ℕ
unfolding from_le from_be
load_word little bs = from_le bs
load_word big bs = from_be bs

-- `htons`, `htonl` and `htobe64` at 2, 4 and 8 bytes; `ntohs` and `ntohl` are the same functions.
unfoldable pub hton : Endian → ℕ → ℕ → ℕ
unfolding from_le be
hton little n v = from_le (be n v)
hton big n v = v % 256 ^ n

length-le : (n v : ℕ) → length (le n v) ≡ n
unfolding le
length-le zero v = refl
length-le (suc n) v = ap suc (length-le n (v / 256))

length-reverse : (bs : List ℕ) → length (reverse bs) ≡ length bs
length-reverse [] = refl
length-reverse (b ∷ bs) =
    rw (reverse-cons b bs) (omega (arith, length-append (reverse bs) (b ∷ []), length-reverse bs))

All-reverse : (bs : List ℕ) → All IsByte bs → All IsByte (reverse bs)
All-reverse [] h = tt
All-reverse (b ∷ bs) h =
    rw (reverse-cons b bs) (All-append IsByte (reverse bs) (b ∷ []) (All-reverse bs h.1) (h.0, tt))

length-be : (n v : ℕ) → length (be n v) ≡ n
unfolding be
length-be n v = length-reverse (le n v) ∙ length-le n v

le-IsByte : (n v : ℕ) → All IsByte (le n v)
unfolding le
le-IsByte zero v = tt
le-IsByte (suc n) v = (omega arith, le-IsByte n (v / 256))

be-IsByte : (n v : ℕ) → All IsByte (be n v)
unfolding be
be-IsByte n v = All-reverse (le n v) (le-IsByte n v)

le-from_le : (bs : List ℕ) → All IsByte bs → le (length bs) (from_le bs) ≡ bs
unfolding le from_le
le-from_le [] h = refl
le-from_le (b ∷ bs) h = ground (arith, le-from_le bs h.1)

from_le-lt : (bs : List ℕ) → All IsByte bs → from_le bs < 256 ^ length bs
unfolding from_le
from_le-lt [] h = omega arith
from_le-lt (b ∷ bs) h = omega (arith, from_le-lt bs h.1, pow-suc 256 (length bs))

from_le-le : (n v : ℕ) → v < 256 ^ n → from_le (le n v) ≡ v
unfolding le from_le
from_le-le zero v h = omega arith
from_le-le (suc n) v h = omega (arith, from_le-le n (v / 256) (omega (arith, pow-suc 256 n)))

pow_pos : (n : ℕ) → 0 < 256 ^ n
pow_pos n = one-le-pow n 256 (omega arith)

-- The last byte and the rest of `v`, cut off at `n + 1` bytes.
cut_fields :
    (n v : ℕ) → (v % 256 ^ suc n % 256 ≡ v % 256) × (v % 256 ^ suc n / 256 ≡ v / 256 % 256 ^ n)
cut_fields n v = rw (pow-suc 256 n) (omega (arith, parts), quotient)
  where
    p : ℕ
    p = 256 ^ n

    r : ℕ
    r = v % (p * 256)

    parts : v ≡ v / (p * 256) * p * 256 + r
    parts = omega (arith, div-add-mod' v (p * 256))

    small : r / 256 < p
    small = omega (arith, mod-lt v {m = p * 256} (omega (arith, pow_pos n)))

    quotient : r / 256 ≡ v / 256 % p
    quotient =
        let e : v / 256 ≡ r / 256 + v / (p * 256) * p = omega (arith, parts) in
        rw (e, add-mul-mod_self_right (r / 256) (v / (p * 256)) p) (sym (mod-eq_of_lt small))

le-mod : (n v : ℕ) → le n (v % 256 ^ n) ≡ le n v
unfolding le
le-mod zero v = refl
le-mod (suc n) v = ground (arith, cut_fields n v, le-mod n (v / 256))

-- Bytes read and written again in network order.
pub be-from_be : (bs : List ℕ) → All IsByte bs → be (length bs) (from_be bs) ≡ bs
unfolding be from_be
be-from_be bs h =
    ap reverse (rw (length-reverse bs) at (le-from_le (reverse bs) (All-reverse bs h)))
    ∙ reverse-reverse bs

-- A field filled by `hton` lies in memory in network order, whatever the host's own order.
pub store_word-hton : (e : Endian) (n v : ℕ) → store_word e n (hton e n v) ≡ be n v
unfolding store_word hton be
store_word-hton little n v = rw (length-be n v) at (le-from_le (be n v) (be-IsByte n v))
store_word-hton big n v = ap reverse (le-mod n v)

-- `ntoh` of a field is the number that its bytes spell in network order.
pub hton-load_word :
    (e : Endian) (bs : List ℕ) → All IsByte bs → hton e (length bs) (load_word e bs) ≡ from_be bs
unfolding load_word hton be from_be
hton-load_word little bs h = ap (λ (l : List ℕ). from_le (reverse l)) (le-from_le bs h)
hton-load_word big bs h =
    mod-eq_of_lt (rw (length-reverse bs) at (from_le-lt (reverse bs) (All-reverse bs h)))

-- The number below `256 ^ n` that `be n` writes is read back.
pub from_be-be : (n v : ℕ) → v < 256 ^ n → from_be (be n v) ≡ v
unfolding from_be be
from_be-be n v h = rw (reverse-reverse (le n v)) (from_le-le n v h)
