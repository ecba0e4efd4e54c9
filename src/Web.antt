-- ===== src/Web.antt =====
-- internal/handler: what the handlers read of a request (pathParameter.go, dataBinder.go,
-- tokenExtractor.go and `GetUserFromContext` of authorize.go), and how a handler stops.
pub mod Laws
use im_manager.Base.{
  ℕ, ◌^◌, String, Bool, true, false, not, ◌&&◌, Option, none, some, ◌==◌, string_eq, ltb,
  if◌then◌else◌,
}
use im_manager.Base.Dict.{Dict, get}
use im_manager.Base.Decimal.{parse_uint}
use im_manager.Base.Text.{trim_prefix}
use im_manager.Errdef.{Error, Result, ok, err, errorf, new_bad_request, is_panic}
use im_manager.Action.{Action}
use im_manager.Model.{User}
use im_manager.Middleware.{error_handler, error_status}

-- What gin holds of a request. The values are the framework's: of a cookie the unescaped text, and of
-- `ShouldBind` the decoded and validated body, or its error.
pub record Request (B : Type 0) : Type 0 where
  pub params : Dict String
  pub query : Dict String
  pub content_type : String
  pub should_bind : Result B
  pub headers : Dict String
  pub cookies : Dict String
  pub user : Option User

-- How a part of a handler ends: it goes on; it leaves an error by `c.Error` and returns; or it sets a
-- status and an error by `c.AbortWithError` and returns.
pub data Outcome (A : Type 0) : Type 0 where
  went_on : A → Outcome A
  left_error : Error → Outcome A
  aborted : ℕ → Error → Outcome A

abbrev pub Handling : Type 0 → Type 0 → Type 0
Handling W A = W → Outcome A × W

abbrev pub reply : {W A : Type 0} → A → Handling W A
reply a w = (went_on a, w)

abbrev pub chained : {W A B : Type 0} → Outcome A × W → (A → Handling W B) → Outcome B × W
chained (went_on a, w) f = f a w
chained (left_error e, w) f = (left_error e, w)
chained (aborted s e, w) f = (aborted s e, w)

infixl 5 ◌>>=◌
abbrev pub ◌>>=◌ : {W A B : Type 0} → Handling W A → (A → Handling W B) → Handling W B
(m >>= f) w = chained (m w) f

infixl 5 ◌>>◌
abbrev pub ◌>>◌ : {W A B : Type 0} → Handling W A → Handling W B → Handling W B
(m >> n) w = chained (m w) (λ _. n)

abbrev pub served : {W A : Type 0} → Result A × W → Outcome A × W
served (ok a, w) = (went_on a, w)
served (err e, w) = (left_error e, w)

-- A call of a service: `if err != nil { _ = c.Error(err); return }`
abbrev pub serve : {W A : Type 0} → Action W A → Handling W A
serve m w = served (m w)

-- The same for a computation that does not touch the world.
abbrev pub check : {W A : Type 0} → Result A → Handling W A
check r w = served (r, w)

-- `if !b { _ = c.Error(e); return }`
abbrev pub require : {W : Type 0} → Bool → Error → Handling W (Unit {0})
require b e w = ((if b then went_on tt else left_error e), w)

-- `if !b { _ = c.AbortWithError(status, e); return }`
abbrev pub require_or_abort : {W : Type 0} → Bool → ℕ → Error → Handling W (Unit {0})
require_or_abort b status e w = ((if b then went_on tt else aborted status e), w)

-- What a handler that is through answers with.
pub record Reply (A : Type 0) : Type 0 where
  pub status : ℕ
  pub body : A

-- The status of the response, after `ErrorHandler`.
unfoldable pub answered : {A : Type 0} → Outcome (Reply A) → ℕ
answered (went_on r) = error_handler r.status none
answered (left_error e) = error_handler 200 (some e)
answered (aborted status e) = error_handler status (some e)

-- The value of a header, of a parameter of the path or of the query: the empty text if there is none.
unfoldable pub value_of : Dict String → String → String
value_of m name = elim (get m name) [ none ↦ "" | some v ↦ v ]

-- strconv.ParseUint(s, 10, 32)
unfoldable pub parse_uint_32 : String → Option ℕ
parse_uint_32 s = elim (parse_uint s) [
  | none ↦ none
  | some n ↦ if ltb n (2 ^ 32) then some n else none
]

unfoldable pub get_path_parameter : {W B : Type 0} → Request B → String → Handling W ℕ
get_path_parameter r parameter w = (
  elim (parse_uint_32 (value_of r.params parameter)) [
    | none ↦ aborted 400 (errorf "error parsing %q: %v")
    | some id ↦ went_on id
  ],
  w,
)

unfoldable pub data_binder : {B : Type 0} → Request B → Result B
data_binder r =
    if not (r.content_type == "application/json") && not (r.content_type == "multipart/form-data")
    then err
        (new_bad_request "%s only accepts content of type application/json or multipart/form-data")
    else r.should_bind

unfoldable pub get_token_from_request : {B : Type 0} → Request B → Result String
get_token_from_request r =
    if not (value_of r.headers "Authorization" == "")
    then ok (trim_prefix (value_of r.headers "Authorization") "Bearer ")
    else elim (get r.cookies "accessToken") [
      | none ↦ err (errorf "no token found on request")
      | some cookie ↦ ok cookie
    ]

unfoldable pub get_user_from_context : {B : Type 0} → Request B → Result User
get_user_from_context r = elim r.user [
  | none ↦ err (errorf "user not found on context")
  | some user ↦ ok user
]
