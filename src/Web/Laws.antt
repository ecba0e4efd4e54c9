-- ===== src/Web/Laws.antt =====
-- What a part of a handler that goes on has done.
use im_manager.Base.{
  ℕ, ◌≡◌, refl, String, Bool, true, false, Option, none, some, not, ◌&&◌, ◌==◌, string_eq,
  Bool-cases, sym, ap, inl, inr,
}
use mathlib.Core.Path.{subst}
use im_manager.Errdef.{Error, Result, ok, err, errorf}
use im_manager.Model.{User}
use im_manager.Web.{
  Request, Outcome, went_on, left_error, aborted, Handling, chained, served, require,
  require_or_abort, get_user_from_context, data_binder, parse_uint_32, get_path_parameter, value_of,
}

module _ {W A B : Type 0} where
  pub chained-eq-went_on :
      (r : Outcome A × W) (f : A → Handling W B) {b : B} {w' : W}
      → chained r f ≡ (went_on b, w')
      → (a : A) × (w : W) × (r ≡ (went_on a, w)) × (f a w ≡ (went_on b, w'))
  chained-eq-went_on (went_on a, w) f e = (a, w, refl, e)
  chained-eq-went_on (left_error x, w) f e = cc
  chained-eq-went_on (aborted s x, w) f e = cc

  pub chained-served-eq-went_on :
      (r : Result A × W) (f : A → Handling W B) {b : B} {w' : W}
      → chained (served r) f ≡ (went_on b, w')
      → (a : A) × (w : W) × (r ≡ (ok a, w)) × (f a w ≡ (went_on b, w'))
  chained-served-eq-went_on (ok a, w) f e = (a, w, refl, e)
  chained-served-eq-went_on (err x, w) f e = cc

  pub chained-check-eq-went_on :
      (r : Result A) (w : W) (f : A → Handling W B) {b : B} {w' : W}
      → chained (served (r, w)) f ≡ (went_on b, w')
      → (a : A) × (r ≡ ok a) × (f a w ≡ (went_on b, w'))
  chained-check-eq-went_on (ok a) w f e = (a, refl, e)
  chained-check-eq-went_on (err x) w f e = cc

module _ {W B : Type 0} (e : Error) (w : W) (f : Unit {0} → Handling W B) {y : B} {w' : W} where
  pub chained-require-eq-went_on :
      (b : Bool)
      → chained (require b e w) f ≡ (went_on y, w')
      → (b ≡ true) × (f tt w ≡ (went_on y, w'))
  chained-require-eq-went_on true h = (refl, h)
  chained-require-eq-went_on false h = cc

  pub chained-require_or_abort-eq-went_on :
      (b : Bool) (s : ℕ)
      → chained (require_or_abort b s e w) f ≡ (went_on y, w')
      → (b ≡ true) × (f tt w ≡ (went_on y, w'))
  chained-require_or_abort-eq-went_on true s h = (refl, h)
  chained-require_or_abort-eq-went_on false s h = cc

pub get_user_from_context-eq-ok :
    {B : Type 0} (r : Request B) (user : User)
    → get_user_from_context r ≡ ok user
    → r.user ≡ some user
unfolding get_user_from_context
get_user_from_context-eq-ok r user e = by_user r.user e
  where
    by_user :
        (o : Option User)
        → elim o [ none ↦ err (errorf "user not found on context") | some u ↦ ok u ] ≡ ok user
        → o ≡ some user
    by_user none e = cc
    by_user (some u) e = cc

-- A handler keeps the world if its first part does, and what follows does whenever that goes on.
pub chained-keeps :
    {W A B : Type 0} (w : W) (r : Outcome A × W) (f : A → Handling W B)
    → r.1 ≡ w
    → ((a : A) → r ≡ (went_on a, w) → (f a w).1 ≡ w)
    → (chained r f).1 ≡ w
chained-keeps w (went_on a, v) f kept rest =
    subst (λ x. (f a x).1 ≡ w) (sym kept) (rest a (ap (λ x. (went_on a, x)) kept))
chained-keeps w (left_error e, v) f kept rest = kept
chained-keeps w (aborted s e, v) f kept rest = kept

pub get_path_parameter-eq-went_on :
    {W B : Type 0} (r : Request B) (name : String) (w w' : W) (id : ℕ)
    → get_path_parameter r name w ≡ (went_on id, w')
    → parse_uint_32 (value_of r.params name) ≡ some id
unfolding get_path_parameter
get_path_parameter-eq-went_on r name w w' id e =
    by_number (parse_uint_32 (value_of r.params name)) (ap (λ p. p.0) e)
  where
    by_number :
        (o : Option ℕ)
        → elim o [ none ↦ aborted 400 (errorf "error parsing %q: %v") | some n ↦ went_on n ]
          ≡ went_on id
        → o ≡ some id
    by_number none e = cc
    by_number (some n) e = cc

pub chained-served-keeps :
    {W A B : Type 0} (w : W) (r : Result A × W) (f : A → Handling W B)
    → r.1 ≡ w
    → ((a : A) → r ≡ (ok a, w) → (f a w).1 ≡ w)
    → (chained (served r) f).1 ≡ w
chained-served-keeps w (ok a, v) f kept rest =
    subst (λ x. (f a x).1 ≡ w) (sym kept) (rest a (ap (λ x. (ok a, x)) kept))
chained-served-keeps w (err e, v) f kept rest = kept

pub chained-check-keeps :
    {W A B : Type 0} (w : W) (r : Result A) (f : A → Handling W B)
    → ((a : A) → r ≡ ok a → (f a w).1 ≡ w)
    → (chained (served (r, w)) f).1 ≡ w
chained-check-keeps w (ok a) f rest = rest a refl
chained-check-keeps w (err e) f rest = refl

module _ {W B : Type 0} (w : W) (e : Error) (f : Unit {0} → Handling W B) where
  pub chained-require-keeps :
      (b : Bool) → (b ≡ true → (f tt w).1 ≡ w) → (chained (require b e w) f).1 ≡ w
  chained-require-keeps true rest = rest refl
  chained-require-keeps false rest = refl

  pub chained-require_or_abort-keeps :
      (b : Bool) (status : ℕ)
      → (b ≡ true → (f tt w).1 ≡ w)
      → (chained (require_or_abort b status e w) f).1 ≡ w
  chained-require_or_abort-keeps true status rest = rest refl
  chained-require_or_abort-keeps false status rest = refl

pub chained-get_path_parameter-keeps :
    {W A B : Type 0} (w : W) (r : Request B) (name : String) (f : ℕ → Handling W A)
    → ((id : ℕ) → get_path_parameter r name w ≡ (went_on id, w) → (f id w).1 ≡ w)
    → (chained (get_path_parameter r name w) f).1 ≡ w
unfolding get_path_parameter
chained-get_path_parameter-keeps w r name f rest =
    chained-keeps w (get_path_parameter r name w) f refl rest

pub data_binder-eq-ok :
    {B : Type 0} (r : Request B) (body : B) → data_binder r ≡ ok body → r.should_bind ≡ ok body
unfolding data_binder
data_binder-eq-ok r body e =
    elim (Bool-cases (
      not (r.content_type == "application/json")
      && not (r.content_type == "multipart/form-data"))) [
        | inl h ↦ absurd (cc (rw (h, data_binder) at e))
        | inr h ↦ rw (h, data_binder) at e
      ]

pub chained-get_path_parameter-eq-went_on :
    {W A B : Type 0} (w : W) (r : Request B) (name : String) (f : ℕ → Handling W A) {a : A} {w' : W}
    → chained (get_path_parameter r name w) f ≡ (went_on a, w')
    → (id : ℕ) × (parse_uint_32 (value_of r.params name) ≡ some id) × (f id w ≡ (went_on a, w'))
unfolding get_path_parameter
chained-get_path_parameter-eq-went_on w r name f {a} {w'} e =
    by_number (parse_uint_32 (value_of r.params name)) e
  where
    outcome : Option ℕ → Outcome ℕ
    outcome o = elim o [ none ↦ aborted 400 (errorf "error parsing %q: %v") | some n ↦ went_on n ]

    by_number :
        (o : Option ℕ)
        → chained (outcome o, w) f ≡ (went_on a, w')
        → (id : ℕ) × (o ≡ some id) × (f id w ≡ (went_on a, w'))
    by_number none e = cc
    by_number (some n) e = (n, refl, e)

pub went_on-injective :
    {W A : Type 0} {a b : A} {w w' : W}
    → ◌≡◌ {A = Outcome A × W} (went_on a, w) (went_on b, w')
    → (a ≡ b) × (w ≡ w')
went_on-injective e = (cc, ap (λ p. p.1) e)
