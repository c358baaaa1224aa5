-- ===== src/Utility/Hex.antt =====
-- The dump of utility.cpp loses nothing.
use euthenia.Prelude.{
  ℕ, ◌+◌, ◌-◌, ◌*◌, ◌/◌, ◌%◌, ◌<◌, ◌≡◌, refl, ap, ◌∙◌, false, List, [], ◌∷◌, ◌++◌, ltb, ◌==◌,
  if◌then◌else◌, arith, All, Bool-cases, inl, inr,
}
use euthenia.Machine.Memory.{Memory, read}
use euthenia.Machine.Endian.{IsByte}
use euthenia.Utility.{digit, hex, hex_bytes, to_hex_string}

-- What a digit is worth.
abbrev pub worth : ℕ → ℕ
worth c = if ltb c 58 then c - 48 else c - 87

-- The numbers of a text, each with a space after it; `n` is what the digits so far are worth.
unfoldable pub parse : (n : ℕ) → List ℕ → List ℕ
parse n [] = []
parse n (c ∷ cs) =
    let next = parse 0 cs in
    let more = parse (16 * n + worth c) cs in if c == 32 then n ∷ next else more

parse-digit : (n d : ℕ) (cs : List ℕ) → d < 16 → parse n (digit d ∷ cs) ≡ parse (16 * n + d) cs
unfolding parse
parse-digit n d cs h =
    let value : worth (digit d) ≡ d = ground arith in
    let no_space : (digit d == 32) ≡ false = ground arith in rw (no_space, value) refl

parse-hex : (b : ℕ) (cs : List ℕ) → b < 256 → parse 0 (hex b ++ 32 ∷ cs) ≡ b ∷ parse 0 cs
unfolding hex
parse-hex b cs h = elim (Bool-cases (ltb b 16)) [
  | inl e ↦
      let alone : 16 * 0 + b ≡ b = omega arith in
      rw e (parse-digit 0 b (32 ∷ cs) (ground (arith, e)) ∙ rw alone (unfold parse in refl))
  | inr e ↦
      let spelt : 16 * (16 * 0 + b / 16) + b % 16 ≡ b = omega arith in
      rw
        (
          e,
          parse-digit 0 (b / 16) (digit (b % 16) ∷ 32 ∷ cs) (omega arith),
          parse-digit (16 * 0 + b / 16) (b % 16) (32 ∷ cs) (omega arith),
          spelt,
        )
        (unfold parse in refl)
]

hex_bytes-parse : (bs : List ℕ) → All IsByte bs → parse 0 (hex_bytes bs) ≡ bs
unfolding hex_bytes
hex_bytes-parse [] h = unfold parse in refl
hex_bytes-parse (b ∷ bs) h =
    let byte : b % 256 ≡ b = omega (arith, h.0) in
    rw byte (parse-hex b (hex_bytes bs) h.0 ∙ ap (◌∷◌ b) (hex_bytes-parse bs h.1))

-- The bytes can be read back from their dump.
pub to_hex_string-parse :
    (bytes : Memory) (length : ℕ)
    → All IsByte (read bytes 0 length)
    → parse 0 (to_hex_string bytes length) ≡ read bytes 0 length
unfolding to_hex_string
to_hex_string-parse bytes length h = hex_bytes-parse (read bytes 0 length) h
