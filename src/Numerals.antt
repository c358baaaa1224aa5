-- ===== src/Numerals.antt =====
-- Numbers in text, as `std::stoi` and `atoi` of the language's library read them in eproxy.cpp and
-- UnitTest_PacketInTester.cpp. Text is a list of ASCII codes.
pub mod Decimal
use euthenia.Prelude.{
  ℕ, ◌+◌, ◌-◌, ◌*◌, ◌^◌, Bool, true, false, Option, none, some, List, [], ◌∷◌, ◌==◌, leb, ltb, ◌&&◌,
  ◌||◌, if◌then◌else◌,
}
use euthenia.Prelude.Int.{ℤ, pos, negsuc}

abbrev pub is_digit : ℕ → Bool
is_digit c = leb 48 c && leb c 57

abbrev pub is_space : ℕ → Bool
is_space c = (leb 9 c && leb c 13) || c == 32

unfoldable pub skip_spaces : List ℕ → List ℕ
skip_spaces [] = []
skip_spaces (c ∷ cs) = if is_space c then skip_spaces cs else c ∷ cs

-- What the digits at the start add to `acc`.
unfoldable pub digits_from : (acc : ℕ) → List ℕ → ℕ
digits_from acc [] = acc
digits_from acc (c ∷ cs) =
    let more = digits_from (10 * acc + (c - 48)) cs in if is_digit c then more else acc

-- A number that is there.
unfoldable pub magnitude : List ℕ → Option ℕ
unfolding digits_from
magnitude [] = none
magnitude (c ∷ cs) = if is_digit c then some (digits_from 0 (c ∷ cs)) else none

-- In the range of `int`, else `out_of_range`.
unfoldable pub positive : Option ℕ → Option ℤ
positive none = none
positive (some n) = if ltb n (2 ^ 31) then some (pos n) else none

unfoldable pub negative : Option ℕ → Option ℤ
negative none = none
negative (some n) =
    if n == 0 then some (pos 0) else if leb n (2 ^ 31) then some (negsuc (n - 1)) else none

unfoldable pub signed : List ℕ → Option ℤ
unfolding magnitude positive negative
signed [] = none
signed (c ∷ cs) =
    if c == 45
    then negative (magnitude cs)
    else if c == 43
    then positive (magnitude cs)
    else positive (magnitude (c ∷ cs))

-- `none` is an exception: there is no number, or it is no `int`. What follows the number is not looked at.
unfoldable pub stoi : List ℕ → Option ℤ
unfolding skip_spaces signed
stoi text = signed (skip_spaces text)

-- After the sign there is a digit.
abbrev begins_digit : List ℕ → Bool
begins_digit [] = false
begins_digit (c ∷ cs) = is_digit c

abbrev past_sign : List ℕ → List ℕ
past_sign [] = []
past_sign (c ∷ cs) = if c == 45 || c == 43 then cs else c ∷ cs

-- `atoi` gives 0 where there is no number; `none` is a number that is no `int`, for which nothing is promised.
unfoldable pub atoi : List ℕ → Option ℤ
unfolding stoi
atoi text = if begins_digit (past_sign (skip_spaces text)) then stoi text else some (pos 0)
