-- ===== src/Action.antt =====
-- Code that acts on the world behind the services: it returns a result, and leaves a new world
-- also when it fails.
use im_manager.Base.{◌≡◌, refl, ◌⊎◌, inl, inr, if◌then◌else◌}
use im_manager.Errdef.{Error, Result, ok, err, is_panic}

abbrev pub Action : Type 0 → Type 0 → Type 0
Action W A = W → Result A × W

abbrev pub pure : {W A : Type 0} → A → Action W A
pure a w = (ok a, w)

-- A computation that does not touch the world.
abbrev pub lift : {W A : Type 0} → Result A → Action W A
lift r w = (r, w)

abbrev pub continued : {W A B : Type 0} → Result A × W → (A → Action W B) → Result B × W
continued (ok a, w) f = f a w
continued (err e, w) f = (err e, w)

infixl 5 ◌>>=◌
abbrev pub ◌>>=◌ : {W A B : Type 0} → Action W A → (A → Action W B) → Action W B
(m >>= f) w = continued (m w) f

infixl 5 ◌>>◌
abbrev pub ◌>>◌ : {W A B : Type 0} → Action W A → Action W B → Action W B
(m >> n) w = continued (m w) (λ _. n)

abbrev pub replaced : {W A : Type 0} → (Error → Error) → Result A × W → Result A × W
replaced g (ok a, w) = (ok a, w)
replaced g (err e, w) = (err (if is_panic e then e else g e), w)

-- `if err != nil { return g(err) }`
abbrev pub on_failure : {W A : Type 0} → Action W A → (Error → Error) → Action W A
on_failure m g w = replaced g (m w)

pub result-cases :
    {W A : Type 0} (r : Result A × W)
    → ((a : A) × (w : W) × (r ≡ (ok a, w))) ⊎ ((e : Error) × (w : W) × (r ≡ (err e, w)))
result-cases (ok a, w) = inl (a, w, refl)
result-cases (err e, w) = inr (e, w, refl)

pub continued-eq-ok :
    {W A B : Type 0} (r : Result A × W) (f : A → Action W B) {b : B} {w' : W}
    → continued r f ≡ (ok b, w')
    → (a : A) × (w : W) × (r ≡ (ok a, w)) × (f a w ≡ (ok b, w'))
continued-eq-ok (ok a, w) f e = (a, w, refl, e)
continued-eq-ok (err x, w) f e = cc

pub replaced-eq-ok :
    {W A : Type 0} (g : Error → Error) (r : Result A × W) {a : A} {w : W}
    → replaced g r ≡ (ok a, w)
    → r ≡ (ok a, w)
replaced-eq-ok g (ok a, w) e = e
replaced-eq-ok g (err x, w) e = cc

-- A computation that does not touch the world leaves it for what follows.
pub lift-eq-ok :
    {W A B : Type 0} (r : Result A) (w : W) (f : A → Action W B) {b : B} {w' : W}
    → continued (r, w) f ≡ (ok b, w')
    → (a : A) × (r ≡ ok a) × (f a w ≡ (ok b, w'))
lift-eq-ok (ok a) w f e = (a, refl, e)
lift-eq-ok (err x) w f e = cc

pub replaced-lift-eq-ok :
    {W A B : Type 0} (g : Error → Error) (r : Result A) (w : W) (f : A → Action W B) {b : B}
    {w' : W}
    → continued (replaced g (r, w)) f ≡ (ok b, w')
    → (a : A) × (r ≡ ok a) × (f a w ≡ (ok b, w'))
replaced-lift-eq-ok g (ok a) w f e = (a, refl, e)
replaced-lift-eq-ok g (err x) w f e = cc
