-- ===== src/Openflow/Enums/Stored.antt =====
-- The values of the enumerations are told apart, and none is cut where a message carries it.
use euthenia.Prelude.{
  ℕ, ◌*◌, ◌^◌, ◌≡◌, refl, Bool, true, false, not, ◌&&◌, if◌then◌else◌, ltb, ◌==◌, Option, none,
  some, List, [], ◌∷◌,
}
use Prim.Native.String.{String}
use euthenia.Openflow.Enums.{OfpEnum, enumerators, bytes_for}
use euthenia.Openflow.Enums

unfoldable among : ℕ → List (String × ℕ) → Bool
among v [] = false
among v ((name, value) ∷ rest) = if v == value then true else among v rest

-- No value twice.
unfoldable pub told_apart : List (String × ℕ) → Bool
unfolding among
told_apart [] = true
told_apart ((name, value) ∷ rest) = not (among value rest) && told_apart rest

-- Every value in so many bytes.
unfoldable pub stored : List (String × ℕ) → Option ℕ → Bool
stored values none = false
stored [] (some bytes) = true
stored ((name, value) ∷ rest) (some bytes) = ltb value (2 ^ (8 * bytes)) && stored rest (some bytes)

-- No two enumerators of an enumeration have the same value, and every value fits the member of the message that
-- carries it.
pub enumerators-stored :
    (x : OfpEnum)
    → (told_apart (enumerators x) ≡ true) × (stored (enumerators x) (bytes_for x) ≡ true)
unfolding told_apart stored enumerators bytes_for
enumerators-stored Enums.port_no = (refl, refl)
enumerators-stored _ = (refl, refl)
