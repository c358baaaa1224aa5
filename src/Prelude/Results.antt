-- ===== src/Prelude/Results.antt =====
-- Runs of the program that end normally, and those that do not.
use mathlib.Core.Path.{◌≡◌, refl}
use mathlib.Core.Bool.{Bool, true, false}
use euthenia.Prelude.Tests.{if◌then◌else◌}

-- What stops a run: a call of an empty `std::function` (which throws), or an access outside an
-- array, the overflow of a signed number, or a division by zero (all undefined behaviour), or
-- `std::terminate`.
pub data Fault : Type 0 where
  bad_function_call : Fault
  out_of_bounds : Fault
  signed_overflow : Fault
  division_by_zero : Fault
  terminate : Fault

pub data Result {ℓ} (A : Type ℓ) : Type ℓ where
  ok : A → Result A
  fault : Fault → Result A

infixl 5 ◌>>=◌
abbrev pub ◌>>=◌ {ℓ κ} : {A : Type ℓ} {B : Type κ} → Result A → (A → Result B) → Result B
ok a >>= f = f a
fault e >>= f = fault e

pub >>=_assoc {ℓ} :
    {A B C : Type ℓ} (m : Result A) (f : A → Result B) (g : B → Result C)
    → (m >>= f >>= g) ≡ (m >>= λ a. f a >>= g)
>>=_assoc (ok a) f g = refl
>>=_assoc (fault e) f g = refl

pub >>=-ok {ℓ} : {A : Type ℓ} (m : Result A) → (m >>= ok) ≡ m
>>=-ok (ok a) = refl
>>=-ok (fault e) = refl

-- What holds of the result of a run that ends normally.
abbrev pub After {ℓ} : {A : Type ℓ} → (A → Type 0) → Result A → Type 0
After P (ok a) = P a
After P (fault e) = Unit

pub After->>= {ℓ ℓ'} :
    {A : Type ℓ} {B : Type ℓ'} (P : A → Type 0) (Q : B → Type 0) (m : Result A) (f : A → Result B)
    → After P m
    → ((a : A) → P a → After Q (f a))
    → After Q (m >>= f)
After->>= P Q (ok a) f h next = next a h
After->>= P Q (fault e) f h next = tt

pub After-any {ℓ} : {A : Type ℓ} (m : Result A) → After (λ (a : A). Unit) m
After-any (ok a) = tt
After-any (fault e) = tt

-- A step of which nothing need be known.
pub After-next {ℓ ℓ'} :
    {A : Type ℓ} {B : Type ℓ'} (Q : B → Type 0) (m : Result A) (f : A → Result B)
    → ((a : A) → After Q (f a))
    → After Q (m >>= f)
After-next Q m f next = After->>= (λ _. Unit) Q m f (After-any m) λ a _. next a

pub After-if {ℓ} :
    {A : Type ℓ} (P : A → Type 0) (b : Bool) (x y : Result A)
    → (b ≡ true → After P x)
    → (b ≡ false → After P y)
    → After P (if b then x else y)
After-if P true x y hx hy = hx refl
After-if P false x y hx hy = hy refl

pub After-map {ℓ} :
    {A : Type ℓ} (P Q : A → Type 0) (m : Result A) → After P m → ((a : A) → P a → Q a) → After Q m
After-map P Q (ok a) h f = f a h
After-map P Q (fault e) h f = tt

pub After-both {ℓ} :
    {A : Type ℓ} (P Q : A → Type 0) (m : Result A)
    → After P m
    → After Q m
    → After (λ (a : A). P a × Q a) m
After-both P Q (ok a) hp hq = (hp, hq)
After-both P Q (fault e) hp hq = tt

-- The run ends normally, and this holds of its result.
abbrev pub Returns {ℓ} : {A : Type ℓ} → (A → Type 0) → Result A → Type 0
Returns P (ok a) = P a
Returns P (fault e) = ⊥

pub Returns->>= {ℓ ℓ'} :
    {A : Type ℓ} {B : Type ℓ'} (P : A → Type 0) (Q : B → Type 0) (m : Result A) (f : A → Result B)
    → Returns P m
    → ((a : A) → P a → Returns Q (f a))
    → Returns Q (m >>= f)
Returns->>= P Q (ok a) f h next = next a h
Returns->>= P Q (fault e) f h next = absurd h

pub Returns-After {ℓ ℓ'} :
    {A : Type ℓ} {B : Type ℓ'} (P Q : A → Type 0) (R : B → Type 0) (m : Result A) (f : A → Result B)
    → Returns P m
    → After Q m
    → ((a : A) → P a → Q a → Returns R (f a))
    → Returns R (m >>= f)
Returns-After P Q R (ok a) f hp hq next = next a hp hq
Returns-After P Q R (fault e) f hp hq next = absurd hp

pub Returns-if {ℓ} :
    {A : Type ℓ} (P : A → Type 0) (b : Bool) (x y : Result A)
    → (b ≡ true → Returns P x)
    → (b ≡ false → Returns P y)
    → Returns P (if b then x else y)
Returns-if P true x y hx hy = hx refl
Returns-if P false x y hx hy = hy refl

pub Returns-result {ℓ} :
    {A : Type ℓ} (P : A → Type 0) (m : Result A) → Returns P m → (a : A) × (m ≡ ok a) × P a
Returns-result P (ok a) h = (a, refl, h)
Returns-result P (fault e) h = absurd h
