-- ===== src/Middleware/Authentication.antt =====
-- internal/middleware/authentication.go: who a request comes from.
use mathlib.Core.Path.{sym, subst}
use mathlib.Core.Option.{some-injective}
use im_manager.Base.{
  ◌≡◌, refl, ◌↔◌, ◌⊎◌, inl, inr, ℕ, String, Bool, true, false, Option, none, some, if◌then◌else◌,
}
use im_manager.Errdef.{Error, Result, ok, err, errorf, new_unauthorized, is_not_found, ok-injective}
use im_manager.Action.{Action}
use im_manager.Model.{User, user_is_administrator}
use im_manager.Middleware.{
  Verdict, aborts, fails, is_reached, require_administrator, LetsThrough, looked_up_iff,
}

-- The next handler is called with the user in the context, or the chain stops.
pub data Entry : Type 0 where
  enters : User → Entry
  stops : Verdict → Entry

unfoldable pub signed_in : {W : Type 0} → Result User × W → Entry × W
signed_in (ok user, w) = (enters user, w)
signed_in (err e, w) = (stops (aborts 401), w)

-- `BasicAuthentication`, from the name and the password of the header, if it has them.
unfoldable pub basic_authentication :
    {W : Type 0} → (String → String → Action W User) → Option (String × String) → W → Entry × W
basic_authentication sign_in none w = (stops (aborts 401), w)
basic_authentication sign_in (some (username, password)) w = signed_in (sign_in username password w)

-- `parseRequest`, from what the library for tokens makes of the request: an error, or the claim `user`,
-- if there is one, and if it is a user.
unfoldable pub parse_request : Result (Option (Option User)) → Result User
parse_request (err e) = err e
parse_request (ok none) = err (errorf "user not found in claims")
parse_request (ok (some none)) = err (errorf "unable to convert claim to user")
parse_request (ok (some (some user))) = ok user

-- `TokenAuthentication`, where `errors` is whether an earlier handler left one.
unfoldable pub token_authentication : Result (Option (Option User)) → Bool → Entry
token_authentication token errors = elim (parse_request token) [
  | err e ↦ stops (fails (new_unauthorized "token not valid"))
  | ok user ↦ if errors then stops (aborts 200) else enters user
]

-- The chain of a route for administrators.
unfoldable pub administrator_route :
    Result (Option (Option User)) → (ℕ → Result User) → Bool → Verdict
administrator_route token find_by_id errors = elim (token_authentication token errors) [
  | stops v ↦ v
  | enters user ↦ require_administrator (ok user) find_by_id errors
]

-- A route for administrators is reached exactly if the token of the request has a user, no earlier
-- handler left an error, and the lookup of that user finds an administrator, whatever the token says
-- of the user's groups, or fails with another error than that there is no such user.
pub administrator_route_iff :
    (token : Result (Option (Option User))) (find_by_id : ℕ → Result User) (errors : Bool)
    → (is_reached (administrator_route token find_by_id errors) ≡ true) ↔ (
        (u : User) × (token ≡ ok (some (some u)))
        × (errors ≡ false)
        × (((user : User) × (find_by_id u.id ≡ ok user) × (user_is_administrator user ≡ true))
            ⊎ ((e : Error) × (find_by_id u.id ≡ err e) × (is_not_found e ≡ false))))
unfolding administrator_route token_authentication parse_request is_reached
administrator_route_iff (err e) find_by_id errors =
    ((λ h. absurd (cc h)), λ (u, t, _, _). absurd (cc t))
administrator_route_iff (ok none) find_by_id errors =
    ((λ h. absurd (cc h)), λ (u, t, _, _). absurd (cc t))
administrator_route_iff (ok (some none)) find_by_id errors =
    ((λ h. absurd (cc h)), λ (u, t, _, _). absurd (cc t))
administrator_route_iff (ok (some (some u))) find_by_id true =
    ((λ h. absurd (cc h)), λ (x, t, clean, _). absurd (cc clean))
administrator_route_iff (ok (some (some u))) find_by_id false = (
  (λ h. (
    u,
    refl,
    refl,
    elim ((looked_up_iff u find_by_id false).0 h) [
      | inl (user, found, admin, _) ↦ inl (user, found, admin)
      | inr failed ↦ inr failed
    ],
  )),
  λ (x, t, _, through).
      let same : u ≡ x = some-injective u x (some-injective (some u) (some x) (ok-injective t)) in
      let through' : LetsThrough (find_by_id x.id) false = elim through [
        | inl (user, found, admin) ↦ inl (user, found, admin, refl)
        | inr failed ↦ inr failed
      ] in
      (looked_up_iff u find_by_id false).1
        (subst (λ z. LetsThrough (find_by_id z.id) false) (sym same) through'),
)
