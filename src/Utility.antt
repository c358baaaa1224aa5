-- ===== src/Utility.antt =====
-- utility.cpp: the dump of bytes for the log. Strings are lists of ASCII codes.
pub mod Hex
use euthenia.Prelude.{ℕ, ◌+◌, ◌/◌, ◌%◌, List, [], ◌∷◌, ◌++◌, ltb, if◌then◌else◌}
use euthenia.Machine.Memory.{Memory, read}

-- A digit as `std::hex` writes it.
abbrev pub digit : ℕ → ℕ
digit d = if ltb d 10 then 48 + d else 87 + d

-- A number below 256 as `ss << std::hex` writes it, without leading zeros.
unfoldable pub hex : ℕ → List ℕ
hex b = if ltb b 16 then digit b ∷ [] else digit (b / 16) ∷ digit (b % 16) ∷ []

-- The body of the loop for each byte, the cast to `unsigned char` first.
unfoldable pub hex_bytes : List ℕ → List ℕ
unfolding hex
hex_bytes [] = []
hex_bytes (b ∷ bs) = hex (b % 256) ++ 32 ∷ hex_bytes bs

unfoldable pub to_hex_string : (bytes : Memory) (length : ℕ) → List ℕ
unfolding hex_bytes read
to_hex_string bytes length = hex_bytes (read bytes 0 length)
