-- ===== src/Prelude/Lists.antt =====
-- Lists measured and indexed by native numbers, under the antt libraries' names.
use Prim.Native.Nat.{ℕ, zero, suc, ◌+◌, ◌-◌, ◌<◌, min}
use mathlib.Core.Path.{◌≡◌, refl, sym, ap}
use mathlib.Core.List.{List, [], ◌∷◌, ◌++◌, map, append_assoc}
use native.Mathlib.Omega.{arith}

module _ {ℓ} {A : Type ℓ} where
  abbrev pub length : List A → ℕ
  length [] = 0
  length (x ∷ xs) = suc (length xs)

  abbrev pub get_or : List A → ℕ → A → A
  get_or [] i d = d
  get_or (x ∷ xs) zero d = x
  get_or (x ∷ xs) (suc i) d = get_or xs i d

  abbrev pub take : ℕ → List A → List A
  take zero xs = []
  take (suc n) [] = []
  take (suc n) (x ∷ xs) = x ∷ take n xs

  abbrev pub drop : ℕ → List A → List A
  drop zero xs = xs
  drop (suc n) [] = []
  drop (suc n) (x ∷ xs) = drop n xs

  abbrev pub replicate : ℕ → A → List A
  replicate zero a = []
  replicate (suc n) a = a ∷ replicate n a

  -- `xs[i] = f(xs[i])`; out of range nothing changes.
  abbrev pub modify : List A → ℕ → (A → A) → List A
  modify [] i f = []
  modify (x ∷ xs) zero f = f x ∷ xs
  modify (x ∷ xs) (suc i) f = x ∷ modify xs i f

  -- All the lists, one after the other.
  abbrev pub concat : List (List A) → List A
  concat [] = []
  concat (xs ∷ xss) = xs ++ concat xss

  pub length-append : (xs ys : List A) → length (xs ++ ys) ≡ length xs + length ys
  length-append [] ys = omega arith
  length-append (x ∷ xs) ys = omega (arith, length-append xs ys)

module _ {ℓ} {A : Type ℓ} where
  pub take-append : (xs ys : List A) → take (length xs) (xs ++ ys) ≡ xs
  take-append [] ys = refl
  take-append (x ∷ xs) ys = ap (◌∷◌ x) (take-append xs ys)

  pub drop-append : (xs ys : List A) → drop (length xs) (xs ++ ys) ≡ ys
  drop-append [] ys = refl
  drop-append (x ∷ xs) ys = drop-append xs ys

  pub take_all : (xs : List A) → take (length xs) xs ≡ xs
  take_all [] = refl
  take_all (x ∷ xs) = ap (◌∷◌ x) (take_all xs)

  pub drop_all : (xs : List A) → drop (length xs) xs ≡ []
  drop_all [] = refl
  drop_all (x ∷ xs) = drop_all xs

  pub take-append-drop : (n : ℕ) (xs : List A) → take n xs ++ drop n xs ≡ xs
  take-append-drop zero xs = refl
  take-append-drop (suc n) [] = refl
  take-append-drop (suc n) (x ∷ xs) = ap (◌∷◌ x) (take-append-drop n xs)

  pub length-take : (n : ℕ) (xs : List A) → length (take n xs) ≡ min n (length xs)
  length-take zero xs = omega arith
  length-take (suc n) [] = omega arith
  length-take (suc n) (x ∷ xs) = omega (arith, length-take n xs)

  length-drop : (n : ℕ) (xs : List A) → length (drop n xs) ≡ length xs - n
  length-drop zero xs = omega arith
  length-drop (suc n) [] = omega arith
  length-drop (suc n) (x ∷ xs) = omega (arith, length-drop n xs)

  pub concat-append : (xs ys : List (List A)) → concat (xs ++ ys) ≡ concat xs ++ concat ys
  concat-append [] ys = refl
  concat-append (x ∷ xs) ys =
      rw (concat-append xs ys) (sym (append_assoc x (concat xs) (concat ys)))

-- Every element meets a predicate.
abbrev pub All {ℓ κ} : {A : Type ℓ} → (A → Type κ) → List A → Type κ
All P [] = Unit
All P (x ∷ xs) = P x × All P xs

pub All-append {ℓ κ} :
    {A : Type ℓ} (P : A → Type κ) (xs ys : List A) → All P xs → All P ys → All P (xs ++ ys)
All-append P [] ys hx hy = hy
All-append P (x ∷ xs) ys hx hy = (hx.0, All-append P xs ys hx.1 hy)

pub modify-append {ℓ} :
    {A : Type ℓ} (xs ys : List A) (i : ℕ) (f : A → A)
    → i < length xs
    → modify (xs ++ ys) i f ≡ modify xs i f ++ ys
modify-append [] ys i f h = absurd (omega arith)
modify-append (x ∷ xs) ys zero f h = refl
modify-append (x ∷ xs) ys (suc i) f h = ap (◌∷◌ x) (modify-append xs ys i f (omega arith))

pub length-modify {ℓ} :
    {A : Type ℓ} (xs : List A) (i : ℕ) (f : A → A) → length (modify xs i f) ≡ length xs
length-modify [] i f = refl
length-modify (x ∷ xs) zero f = refl
length-modify (x ∷ xs) (suc i) f = ap suc (length-modify xs i f)

pub All-modify {ℓ} :
    {A : Type ℓ} (P : A → Type 0) (xs : List A) (i : ℕ) (f : A → A)
    → ((x : A) → P x → P (f x))
    → All P xs
    → All P (modify xs i f)
All-modify P [] i f keep h = h
All-modify P (x ∷ xs) zero f keep h = (keep x h.0, h.1)
All-modify P (x ∷ xs) (suc i) f keep h = (h.0, All-modify P xs i f keep h.1)

pub length-replicate {ℓ} : {A : Type ℓ} (n : ℕ) (a : A) → length (replicate n a) ≡ n
length-replicate zero a = refl
length-replicate (suc n) a = ap suc (length-replicate n a)

pub All-replicate {ℓ} : {A : Type ℓ} (P : A → Type 0) (n : ℕ) (a : A) → P a → All P (replicate n a)
All-replicate P zero a h = tt
All-replicate P (suc n) a h = (h, All-replicate P n a h)

pub All-map {ℓ} :
    {A : Type ℓ} (P Q : A → Type 0) (xs : List A) → ((x : A) → P x → Q x) → All P xs → All Q xs
All-map P Q [] f h = tt
All-map P Q (x ∷ xs) f h = (f x h.0, All-map P Q xs f h.1)

pub replicate_snoc {ℓ} :
    {A : Type ℓ} (n : ℕ) (a : A) → replicate n a ++ a ∷ [] ≡ replicate (suc n) a
replicate_snoc zero a = refl
replicate_snoc (suc n) a = ap (◌∷◌ a) (replicate_snoc n a)

pub map-replicate {ℓ ℓ'} :
    {A : Type ℓ} {B : Type ℓ'} (f : A → B) (n : ℕ) (a : A)
    → map f (replicate n a) ≡ replicate n (f a)
map-replicate f zero a = refl
map-replicate f (suc n) a = ap (◌∷◌ (f a)) (map-replicate f n a)

pub map-modify {ℓ ℓ'} :
    {A : Type ℓ} {B : Type ℓ'} (f : A → B) (g : A → A) (h : B → B)
    → ((x : A) → f (g x) ≡ h (f x))
    → (xs : List A) (i : ℕ) → map f (modify xs i g) ≡ modify (map f xs) i h
map-modify f g h e [] i = refl
map-modify f g h e (x ∷ xs) zero = ap (λ y. y ∷ map f xs) (e x)
map-modify f g h e (x ∷ xs) (suc i) = ap (◌∷◌ (f x)) (map-modify f g h e xs i)

pub modify_middle {ℓ} :
    {A : Type ℓ} (xs : List A) (y : A) (zs : List A) (i : ℕ) (f : A → A)
    → length xs ≡ i
    → modify (xs ++ y ∷ zs) i f ≡ xs ++ f y ∷ zs
modify_middle [] y zs zero f h = refl
modify_middle [] y zs (suc i) f h = absurd (omega (arith, h))
modify_middle (x ∷ xs) y zs zero f h = absurd (omega (arith, h))
modify_middle (x ∷ xs) y zs (suc i) f h = ap (◌∷◌ x) (modify_middle xs y zs i f (omega (arith, h)))
