-- ===== src/Numerals/Decimal.antt =====
-- Decimal numbers are read back.
use euthenia.Prelude.{
  ℕ, zero, suc, ◌+◌, ◌*◌, ◌/◌, ◌%◌, ◌^◌, ◌<◌, ◌≤◌, ◌≡◌, refl, ap, ◌∙◌, false, some, List, [], ◌∷◌,
  ◌++◌, append_assoc, ltb, if◌then◌else◌, arith, ◌⊎◌, inl, inr, Bool-cases,
}
use native.Mathlib.Nat.{pow-suc}
use euthenia.Numerals.{
  is_digit, skip_spaces, digits_from, magnitude, positive, negative, signed, stoi, atoi,
}

abbrev pub IsDigit : ℕ → Type 0
IsDigit c = (48 ≤ c) × (c ≤ 57)

-- The digits of `n`, of which there are at most `count`.
unfoldable pub print : (count n : ℕ) → List ℕ
print zero n = []
print (suc count) n =
    let head = print count (n / 10) in
    if ltb n 10 then (48 + n) ∷ [] else head ++ (48 + n % 10) ∷ []

-- The text goes on with no digit.
abbrev pub Stops : List ℕ → Type 0
Stops [] = Unit
Stops (c ∷ cs) = is_digit c ≡ false

digits_from-stop : (acc : ℕ) (rest : List ℕ) → Stops rest → digits_from acc rest ≡ acc
unfolding digits_from
digits_from-stop acc [] h = refl
digits_from-stop acc (c ∷ cs) h = rw h refl

digits_from-one :
    (acc d : ℕ) (rest : List ℕ)
    → d < 10
    → digits_from acc ((48 + d) ∷ rest) ≡ digits_from (10 * acc + d) rest
unfolding digits_from
digits_from-one acc d rest h = ground arith

print-digits :
    (count n : ℕ) (rest : List ℕ)
    → n < 10 ^ count
    → digits_from 0 (print count n ++ rest) ≡ digits_from n rest
unfolding print
print-digits zero n rest small = let none_left : n ≡ 0 = omega (arith, small) in rw none_left refl
print-digits (suc count) n rest small = elim (Bool-cases (ltb n 10)) [
  | inl one ↦
      let value : 10 * 0 + n ≡ n = omega arith in
      rw one (digits_from-one 0 n rest (ground (arith, one)) ∙ ap (λ k. digits_from k rest) value)
  | inr more ↦
      let value : 10 * (n / 10) + n % 10 ≡ n = omega arith in
      rw (more, append_assoc (print count (n / 10)) ((48 + n % 10) ∷ []) rest)
        (print-digits count (n / 10) ((48 + n % 10) ∷ rest) (omega (arith, small, pow-suc 10 count))
          ∙ digits_from-one (n / 10) (n % 10) rest (omega arith)
          ∙ ap (λ k. digits_from k rest) value)
]

-- What is printed begins with a digit.
data Begins (text : List ℕ) : Type 0 where
  begins : (c : ℕ) (cs : List ℕ) → IsDigit c → text ≡ c ∷ cs → Begins text

Begins-append : (xs ys : List ℕ) (c : ℕ) → IsDigit c → Begins xs ⊎ (xs ≡ []) → Begins (xs ++ c ∷ ys)
Begins-append xs ys c h (inl (begins d ds hd e)) = begins d (ds ++ c ∷ ys) hd (rw e refl)
Begins-append xs ys c h (inr e) = begins c ys h (rw e refl)

print-Begins : (count n : ℕ) → Begins (print count n) ⊎ (print count n ≡ [])
unfolding print
print-Begins zero n = inr refl
print-Begins (suc count) n = elim (Bool-cases (ltb n 10)) [
  | inl one ↦ inl (begins (48 + n) [] (ground (arith, one)) (rw one refl))
  | inr more ↦ inl (
      rw more (
        Begins-append (print count (n / 10)) [] (48 + n % 10) (omega arith, omega arith)
          (print-Begins count (n / 10))))
]

print-suc-Begins : (count n : ℕ) → Begins (print (suc count) n)
unfolding print
print-suc-Begins count n = elim (Bool-cases (ltb n 10)) [
  | inl one ↦ begins (48 + n) [] (ground (arith, one)) (rw one refl)
  | inr more ↦ rw more (
      Begins-append (print count (n / 10)) [] (48 + n % 10) (omega arith, omega arith)
        (print-Begins count (n / 10)))
]

-- A text that begins with a digit has a number, and neither space nor sign.
magnitude_lem : (text : List ℕ) → Begins text → magnitude text ≡ some (digits_from 0 text)
unfolding magnitude
magnitude_lem text (begins c cs h e) = rw e (ground (arith, h))

stoi-signed : (text : List ℕ) → Begins text → stoi text ≡ positive (magnitude text)
unfolding stoi skip_spaces signed
stoi-signed text (begins c cs h e) = rw e (ground (arith, h))

goes_on : (xs ys : List ℕ) → Begins xs → Begins (xs ++ ys)
goes_on xs ys (begins c cs h e) = begins c (cs ++ ys) h (rw e refl)

minus : (text : List ℕ) → stoi (45 ∷ text) ≡ negative (magnitude text)
unfolding stoi skip_spaces signed
minus text = refl

atoi-stoi : (text : List ℕ) → Begins text → atoi text ≡ stoi text
unfolding atoi skip_spaces
atoi-stoi text (begins c cs h e) = rw e (ground (arith, h))

-- A printed number, with anything but a digit after it, is read back; with a minus before it, as its negative.
-- A number that is no `int` is refused.
pub stoi-print :
    (count n : ℕ) (rest : List ℕ)
    → n < 10 ^ suc count
    → Stops rest
    → (stoi (print (suc count) n ++ rest) ≡ positive (some n))
      × (stoi (45 ∷ (print (suc count) n ++ rest)) ≡ negative (some n))
stoi-print count n rest small stops = (
  stoi-signed (print (suc count) n ++ rest) starts ∙ ap positive number,
  minus (print (suc count) n ++ rest) ∙ ap negative number,
)
  where
    starts : Begins (print (suc count) n ++ rest)
    starts = goes_on (print (suc count) n) rest (print-suc-Begins count n)

    number : magnitude (print (suc count) n ++ rest) ≡ some n
    number =
        magnitude_lem (print (suc count) n ++ rest) starts
        ∙ ap some (print-digits (suc count) n rest small ∙ digits_from-stop n rest stops)

-- `atoi` reads what is printed, with anything but a digit after it, too.
pub atoi-print :
    (count n : ℕ) (rest : List ℕ)
    → n < 10 ^ suc count
    → Stops rest
    → atoi (print (suc count) n ++ rest) ≡ positive (some n)
atoi-print count n rest small stops =
    atoi-stoi (print (suc count) n ++ rest)
      (goes_on (print (suc count) n) rest (print-suc-Begins count n))
    ∙ (stoi-print count n rest small stops).0
