-- ===== src/Base/Lists.antt =====
-- Membership, order and distinctness of lists, as tests.
use Prim.Native.Nat.{ℕ, zero, suc, ◌≤◌, ◌<◌}
use mathlib.Core.Path.{◌≡◌, refl, ◌∙◌, ap}
use mathlib.Core.Logic.{◌≢◌}
use mathlib.Core.Bool.{Bool, false, ◌&&◌, ◌||◌}
use mathlib.Core.Option.{Option, none, some, some-injective}
use mathlib.Core.List.{List, [], ◌∷◌, ◌++◌, reverse, reverse-append}
use native.Mathlib.Omega.{arith}
use im_manager.Base.Equality.{Eq, ◌==◌}

-- len(xs)
abbrev pub length {ℓ} : {A : Type ℓ} → List A → ℕ
length [] = 0
length (x ∷ xs) = suc (length xs)

module _ {ℓ} {A : Type ℓ} ⦃e : Eq A⦄ where
  -- slices.Contains
  unfoldable pub contains : List A → A → Bool
  contains [] a = false
  contains (x ∷ xs) a = a == x || contains xs a

  -- Some occurrence of `a` stands before some occurrence of `b`.
  unfoldable pub precedes : A → A → List A → Bool
  unfolding contains
  precedes a b [] = false
  precedes a b (x ∷ xs) = (a == x && contains xs b) || precedes a b xs

  abbrev pub Distinct : List A → Type 0
  Distinct [] = Unit
  Distinct (x ∷ xs) = (contains xs x ≡ false) × Distinct xs

  pub contains-append :
      (xs ys : List A) (a : A) → contains (xs ++ ys) a ≡ (contains xs a || contains ys a)
  unfolding contains
  contains-append [] ys a = refl
  contains-append (x ∷ xs) ys a = ground (arith, contains-append xs ys a)

  pub contains-reverse : (xs : List A) (a : A) → contains (reverse xs) a ≡ contains xs a
  unfolding contains
  contains-reverse [] a = refl
  contains-reverse (x ∷ xs) a =
      rw (reverse-append (x ∷ []) xs)
        (ground (arith, contains-append (reverse xs) (x ∷ []) a, contains-reverse xs a))

  precedes-snoc :
      (xs : List A) (y a b : A)
      → precedes a b (xs ++ y ∷ []) ≡ (precedes a b xs || (b == y && contains xs a))
  unfolding precedes
  precedes-snoc [] y a b = ground arith
  precedes-snoc (x ∷ xs) y a b =
      ground (arith, precedes-snoc xs y a b, contains-append xs (y ∷ []) b)

  pub precedes-reverse : (xs : List A) (a b : A) → precedes a b (reverse xs) ≡ precedes b a xs
  unfolding precedes
  precedes-reverse [] a b = refl
  precedes-reverse (x ∷ xs) a b = rw (reverse-append (x ∷ []) xs) (
      ground
        (arith, precedes-snoc (reverse xs) x a b, precedes-reverse xs a b, contains-reverse xs a))

  snoc-Distinct :
      (xs : List A) (y : A) → Distinct xs → contains xs y ≡ false → Distinct (xs ++ y ∷ [])
  unfolding contains
  snoc-Distinct [] y d f = ground arith
  snoc-Distinct (x ∷ xs) y d f =
      ground (arith, snoc-Distinct xs y d.1, contains-append xs (y ∷ []) x)

  pub reverse-Distinct : (xs : List A) → Distinct xs → Distinct (reverse xs)
  reverse-Distinct [] d = tt
  reverse-Distinct (x ∷ xs) d =
      rw (reverse-append (x ∷ []) xs)
        (snoc-Distinct (reverse xs) x (reverse-Distinct xs d.1) (contains-reverse xs x ∙ d.0))

-- xs[i], with `none` out of range
unfoldable pub get_elem? {ℓ} : {A : Type ℓ} → List A → ℕ → Option A
get_elem? [] i = none
get_elem? (x ∷ xs) zero = some x
get_elem? (x ∷ xs) (suc i) = get_elem? xs i

-- The list with `f` applied at position `i`.
unfoldable pub modify {ℓ} : {A : Type ℓ} → List A → ℕ → (A → A) → List A
modify [] i f = []
modify (x ∷ xs) zero f = f x ∷ xs
modify (x ∷ xs) (suc i) f = x ∷ modify xs i f

module _ {ℓ} {A : Type ℓ} where
  pub get_elem?-modify_self :
      (xs : List A) (k : ℕ) (f : A → A) {x : A}
      → get_elem? xs k ≡ some x
      → get_elem? (modify xs k f) k ≡ some (f x)
  unfolding get_elem? modify
  get_elem?-modify_self [] k f e = cc
  get_elem?-modify_self (y ∷ xs) zero f {x} e = ap (λ t. some (f t)) (some-injective y x e)
  get_elem?-modify_self (y ∷ xs) (suc k) f e = get_elem?-modify_self xs k f e

  pub get_elem?-modify_ne :
      (xs : List A) (k m : ℕ) (f : A → A) → m ≢ k → get_elem? (modify xs k f) m ≡ get_elem? xs m
  unfolding get_elem? modify
  get_elem?-modify_ne [] k m f n = refl
  get_elem?-modify_ne (x ∷ xs) zero zero f n = absurd (n refl)
  get_elem?-modify_ne (x ∷ xs) zero (suc m) f n = refl
  get_elem?-modify_ne (x ∷ xs) (suc k) zero f n = refl
  get_elem?-modify_ne (x ∷ xs) (suc k) (suc m) f n =
      get_elem?-modify_ne xs k m f (λ e. n (ap suc e))

  pub get_elem?-none :
      (xs : List A) (k m : ℕ) → get_elem? xs k ≡ none → k ≤ m → get_elem? xs m ≡ none
  unfolding get_elem?
  get_elem?-none [] k m e h = refl
  get_elem?-none (x ∷ xs) zero m e h = cc
  get_elem?-none (x ∷ xs) (suc k) zero e h = absurd (omega arith)
  get_elem?-none (x ∷ xs) (suc k) (suc m) e h = get_elem?-none xs k m e (omega arith)

  pub get_elem?-lt-length : (xs : List A) (m : ℕ) {x : A} → get_elem? xs m ≡ some x → m < length xs
  unfolding get_elem?
  get_elem?-lt-length [] m e = cc
  get_elem?-lt-length (y ∷ xs) zero e = omega arith
  get_elem?-lt-length (y ∷ xs) (suc m) e = omega (arith, get_elem?-lt-length xs m e)
