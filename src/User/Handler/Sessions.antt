-- ===== src/User/Handler/Sessions.antt =====
-- pkg/user/handler.go: signing in and out, and the tokens that are refreshed.
use im_manager.Base.{
  ℕ, String, Bool, true, false, not, ◌&&◌, Option, none, some, List, [], ◌∷◌, ◌==◌, string_eq,
  if◌then◌else◌,
}
use im_manager.Base.Dict.{get}
use im_manager.Errdef.{
  Error, Result, ok, err, errorf, new_unauthorized, is_not_found, is_unauthorized, is_panic,
  on_error,
}
use im_manager.Model.{User}
use im_manager.User.Repository
use im_manager.User.Repository.{UserTables}
use im_manager.Token.{Tokens, TokenCalls, get_tokens, validate_refresh_token, sign_out}
use im_manager.Web.{
  Request, Outcome, went_on, left_error, aborted, Handling, serve, check, require_or_abort, reply,
  Reply, data_binder, get_user_from_context, ◌>>=◌, ◌>>◌,
}

pub record SignInRequest : Type 0 where
  pub remember_me : Bool

pub record RefreshTokenRequest : Type 0 where
  pub refresh_token : String

-- A cookie of the response, set for a number of seconds or unset, with its path.
pub data Cookie : Type 0 where
  set_cookie : String → String → ℕ → String → Cookie
  unset_cookie : String → String → Cookie

-- The configured expirations.
pub record Expirations : Type 0 where
  pub access_token : ℕ
  pub refresh_token : ℕ
  pub remember_me : ℕ

-- github.com/lestrrat-go/jwx: `validate` is `jwt.Validate`, with nothing for nil, and `claim` the value
-- of the claim `user`, which may be of another type than `User`. `is_eof` compares with `io.EOF`.
pub record Jwt (B : Type 0) : Type 1 where
  pub Token : Type 0
  pub parse_request : Request B → Result Token
  pub validate : Token → Option Error
  pub is_token_expired : Error → Bool
  pub claim : Token → Option (Option User)

-- An expired token passes.
unfoldable pub parse_request : {B : Type 0} → Jwt B → Request B → Result User
parse_request J r = elim (J.parse_request r) [
  | err e ↦ err (errorf "error parsing request: %s")
  | ok token ↦
      if elim (J.validate token) [ none ↦ false | some e ↦ not (J.is_token_expired e) ]
      then err (errorf "error validating token: %s")
      else elim (J.claim token) [
        | none ↦ err (errorf "user not found in claims")
        | some none ↦ err (errorf "unable to convert claim to user")
        | some (some user) ↦ ok user
      ]
]

unfoldable pub set_cookies : Expirations → Tokens → Bool → List Cookie
set_cookies E tokens remember_me =
    set_cookie "accessToken" tokens.access_token E.access_token "/"
    ∷ (if remember_me
        then set_cookie "refreshToken" tokens.refresh_token E.remember_me "/refresh"
          ∷ set_cookie "rememberMe" "true" E.remember_me "/refresh"
          ∷ []
        else set_cookie "refreshToken" tokens.refresh_token E.refresh_token "/refresh" ∷ [])

unfoldable pub unset_cookies : List Cookie
unset_cookies =
    unset_cookie "accessToken" "/"
    ∷ unset_cookie "refreshToken" "/"
    ∷ unset_cookie "rememberMe" "/"
    ∷ []

-- An error of that kind aborts with 401, any other is left.
unfoldable pub or_unauthorized : {W A : Type 0} → (Error → Bool) → Result A × W → Outcome A × W
or_unauthorized kind (ok a, w) = (went_on a, w)
or_unauthorized kind (err e, w) =
    ((if kind e && not (is_panic e) then aborted 401 e else left_error e), w)

-- The cookie, or the field of the body if there is none.
unfoldable pub refresh_token_string : Request RefreshTokenRequest → Result String
refresh_token_string r = elim (get r.cookies "refreshToken") [
  | some cookie ↦ ok cookie
  | none ↦ elim (data_binder r) [ err e ↦ err e | ok request ↦ ok request.refresh_token ]
]

-- `err != nil && err != io.EOF`: an empty body is the zero request.
unfoldable pub sign_in_request : (Error → Bool) → Request SignInRequest → Result SignInRequest
sign_in_request is_eof r = elim (data_binder r) [
  | ok request ↦ ok request
  | err e ↦ if is_eof e then ok (record { remember_me = false }) else err e
]

module _ {W : Type 0} (T : UserTables W) (C : TokenCalls W) (E : Expirations) where
  unfoldable pub sign_in : (Error → Bool) → Request SignInRequest → Handling W (Reply (List Cookie))
  sign_in is_eof r = do
    user ← check (get_user_from_context r)
    request ← check (sign_in_request is_eof r)
    tokens ← serve (get_tokens C user "" request.remember_me)
    reply (record { status = 201; body = set_cookies E tokens request.remember_me })

  unfoldable pub refresh_token : Request RefreshTokenRequest → Handling W (Reply (List Cookie))
  refresh_token r = do
    token ← check (refresh_token_string r)
    require_or_abort (not (token == "")) 400 (errorf "refresh token not found")
    data' ← λ w. or_unauthorized (λ _. true) (validate_refresh_token C token w)
    user ← λ w. or_unauthorized is_not_found (Repository.find_by_id T data'.user_id w)
    tokens ← λ w. or_unauthorized is_unauthorized (get_tokens C user data'.id data'.remember_me w)
    reply (record { status = 201; body = set_cookies E tokens data'.remember_me })

  -- The cookies are unset also if it fails.
  unfoldable pub sign_out_user : {B : Type 0} → Jwt B → Request B → Handling W (Reply (List Cookie))
  sign_out_user J r = do
    user ← check (on_error (parse_request J r) (λ _. new_unauthorized "token not valid"))
    serve (sign_out C user.id)
    reply (record { status = 200; body = unset_cookies })
