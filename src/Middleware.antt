-- ===== src/Middleware.antt =====
-- internal/middleware/errorHandler.go and authorization.go: which status a request is answered with.
pub mod Authentication
use mathlib.Core.Path.{sym, subst, ◌∙◌}
use im_manager.Base.{
  ℕ, String, ◌≡◌, refl, ◌↔◌, ◌⊎◌, inl, inr, Bool, true, false, Option, none, some, ◌==◌, nat_eq,
  if◌then◌else◌, arith,
}
use im_manager.Errdef.{
  Kind, plain, panic, forbidden, bad_request, duplicated, unauthorized, not_found, conflict,
  service_unavailable, Error, Result, ok, err, is_forbidden, is_bad_request, is_duplicated,
  is_unauthorized, is_not_found, is_conflict, is_service_unavailable, wrap, Result-cases,
  ok-injective, err-injective,
}
use im_manager.Model.{user_is_administrator, User}

-- The chain of tests in `ErrorHandler`.
unfoldable pub error_status : Error → ℕ
error_status e =
    if is_bad_request e
    then 400
    else if is_forbidden e
    then 403
    else if is_duplicated e
    then 409
    else if is_not_found e
    then 404
    else if is_unauthorized e
    then 401
    else if is_conflict e
    then 409
    else if is_service_unavailable e
    then 503
    else 500

-- `ErrorHandler`: the status of the response, after the handlers have left a status and, perhaps,
-- a last error.
unfoldable pub error_handler : ℕ → Option Error → ℕ
error_handler status none = status
error_handler status (some e) = if status == 200 then error_status e else status

-- What a handler in the chain does: it goes on, or goes on and leaves an error by `c.Error` without
-- `c.Abort`, in which case gin calls the next handler when it returns, or it stops with a status or
-- with an error.
pub data Verdict : Type 0 where
  goes_on : Verdict
  goes_on_after : Error → Verdict
  aborts : ℕ → Verdict
  fails : Error → Verdict

-- The next handler is called.
unfoldable pub is_reached : Verdict → Bool
is_reached goes_on = true
is_reached (goes_on_after e) = true
is_reached (aborts status) = false
is_reached (fails e) = false

-- `RequireAdministrator`, from the user in the context, the lookup of that user and whether an
-- earlier handler left errors. A stop by `c.Abort` keeps the status.
unfoldable pub require_administrator : Result User → (ℕ → Result User) → Bool → Verdict
require_administrator (err e) find_by_id errors = aborts 401
require_administrator (ok u) find_by_id errors = elim (find_by_id u.id) [
  | err e ↦ if is_not_found e then aborts 401 else goes_on_after e
  | ok user ↦
      if user_is_administrator user then (if errors then aborts 200 else goes_on) else aborts 401
]

abbrev of_kind : Kind → String → Error
of_kind k m = record { kind = k; message = m }

abbrev pub Classless : Kind → Type 0
Classless k = (k ≡ plain) ⊎ (k ≡ panic)

status_iff : (k : Kind) (m : String) → (error_status (of_kind k m) ≡ 500) ↔ Classless k
unfolding error_status
status_iff plain m = (λ _. inl refl, λ _. refl)
status_iff panic m = (λ _. inr refl, λ _. refl)
status_iff forbidden m = ground arith
status_iff bad_request m = ground arith
status_iff duplicated m = ground arith
status_iff unauthorized m = ground arith
status_iff not_found m = ground arith
status_iff conflict m = ground arith
status_iff service_unavailable m = ground arith

-- An error is answered with 500 exactly if it has no class, and one that wraps it is answered alike.
pub error_status-plain_iff :
    (e : Error) (m : String)
    → ((error_status e ≡ 500) ↔ Classless e.kind) × (error_status (wrap m e) ≡ error_status e)
unfolding error_status
error_status-plain_iff e m = (status_iff e.kind e.message, refl)

admits : (user : User) (errors : Bool) → Verdict
admits user errors =
    if user_is_administrator user then (if errors then aborts 200 else goes_on) else aborts 401

admits_iff :
    (user : User) (errors : Bool)
    → (is_reached (admits user errors) ≡ true)
      ↔ ((user_is_administrator user ≡ true) × (errors ≡ false))
unfolding admits is_reached
admits_iff user errors = ground arith

missed_iff :
    (e : Error)
    → (is_reached (if is_not_found e then aborts 401 else goes_on_after e) ≡ true)
      ↔ (is_not_found e ≡ false)
unfolding is_reached
missed_iff e = ground arith

-- The lookup of the user finds an administrator, and no earlier handler left an error; or the lookup
-- fails, but not because there is no such user.
abbrev pub LetsThrough : Result User → Bool → Type 0
LetsThrough r errors =
    ((user : User) × (r ≡ ok user) × (user_is_administrator user ≡ true) × (errors ≡ false))
    ⊎ ((e : Error) × (r ≡ err e) × (is_not_found e ≡ false))

pub looked_up_iff :
    (u : User) (find_by_id : ℕ → Result User) (errors : Bool)
    → (is_reached (require_administrator (ok u) find_by_id errors) ≡ true)
      ↔ LetsThrough (find_by_id u.id) errors
unfolding require_administrator admits
looked_up_iff u find_by_id errors = elim (Result-cases (find_by_id u.id)) [
  | inl (user, found) ↦ (
    (λ h.
        let (admin, clean) =
          (admits_iff user errors).0 (rw (found, require_administrator, admits) at h) in
        inl (user, found, admin, clean)),
    λ through. elim through [
      | inl (x, there, admin, clean) ↦
          let same : user ≡ x = ok-injective (sym found ∙ there) in
          rw (found, require_administrator)
            ((admits_iff user errors).1
              (subst (λ z. user_is_administrator z ≡ true) (sym same) admin, clean))
      | inr (e, failed, _) ↦ absurd (cc (found, failed))
    ],
  )
  | inr (e, failed) ↦ (
    (λ h. inr (e, failed, (missed_iff e).0 (rw (failed, require_administrator) at h))),
    λ through. elim through [
      | inl (x, there, _, _) ↦ absurd (cc (failed, there))
      | inr (x, there, other) ↦
          let same : e ≡ x = err-injective (sym failed ∙ there) in
          rw (failed, require_administrator)
            ((missed_iff e).1 (subst (λ z. is_not_found z ≡ false) (sym same) other))
    ],
  )
]

-- After `RequireAdministrator` the next handler is called exactly if there is a user in the context,
-- and the lookup of that user finds an administrator and no earlier handler left an error, or the
-- lookup fails with another error than that there is no such user.
pub require_administrator_iff :
    (context : Result User) (find_by_id : ℕ → Result User) (errors : Bool)
    → (is_reached (require_administrator context find_by_id errors) ≡ true)
      ↔ ((u : User) × (context ≡ ok u) × LetsThrough (find_by_id u.id) errors)
unfolding require_administrator is_reached
require_administrator_iff (err e) find_by_id errors =
    ((λ h. absurd (cc h)), λ (u, there, _). absurd (cc there))
require_administrator_iff (ok u) find_by_id errors = (
  (λ h. (u, refl, (looked_up_iff u find_by_id errors).0 h)),
  λ (x, there, through).
      let same : u ≡ x = ok-injective there in
      (looked_up_iff u find_by_id errors).1
        (subst (λ z. LetsThrough (find_by_id z.id) errors) (sym same) through),
)
