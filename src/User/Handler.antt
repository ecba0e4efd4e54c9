-- ===== src/User/Handler.antt =====
-- pkg/user/handler.go: the handlers of accounts. Those of sessions are in the child.
pub mod Sessions
pub mod Laws
use im_manager.Base.{
  ℕ, String, ◌<>◌, Bool, true, false, not, ◌&&◌, ◌||◌, Option, none, some, List, [], ◌∷◌, ◌==◌,
  string_eq, nat_eq, if◌then◌else◌,
}
use im_manager.Errdef.{
  Error, Result, ok, err, errorf, new_bad_request, new_forbidden, nil_pointer, on_error,
}
use im_manager.Model.{User}
use im_manager.Authorize.{can_access_user}
use im_manager.User.Repository
use im_manager.User.Repository.{UserTables}
use im_manager.User.Passwords.{Hashes}
use im_manager.User.Service
use im_manager.User.Service.{Outside}
use im_manager.Web.{
  Request, Handling, serve, check, require, require_or_abort, reply, Reply, data_binder,
  get_path_parameter, get_user_from_context, ◌>>=◌, ◌>>◌,
}

pub record SignUpRequest : Type 0 where
  pub email : String
  pub password : String

pub record ValidateEmailRequest : Type 0 where
  pub token : String

pub record RequestPasswordResetRequest : Type 0 where
  pub email : String

pub record ResetPasswordRequest : Type 0 where
  pub token : String
  pub password : String

pub record UpdateUserRequest : Type 0 where
  pub email : String
  pub password : String

-- github.com/go-playground/validator and github.com/google/uuid: `validation_errors` is `errors.As`
-- with `validator.ValidationErrors`.
pub record FieldError : Type 0 where
  pub field : String
  pub tag : String
  pub error : String

pub record Libraries : Type 0 where
  pub validation_errors : Error → Option (List FieldError)
  pub parse_uuid : String → Result String

-- One case of the switch.
unfoldable pub field_message : FieldError → String
field_message e =
    if e.field == "Password" && (e.tag == "gte" || e.tag == "lte")
    then "password must be between 24 and 128 characters"
    else if e.field == "Email" && e.tag == "email"
    then "invalid email provided: %s"
    else e.error

-- errors.Join of bad requests: nil if there is none.
unfoldable pub join_field_errors : List FieldError → Option Error
join_field_errors [] = none
join_field_errors (e ∷ es) = elim (join_field_errors es) [
  | none ↦ some (new_bad_request (field_message e))
  | some x ↦ some (new_bad_request (field_message e <> ("\n" <> x.message)))
]

-- The error that is left: `c.Error(nil)` panics.
unfoldable pub handle_validation_errors : Libraries → Error → Error
handle_validation_errors L e = elim (L.validation_errors e) [
  | none ↦ new_bad_request e.message
  | some fields ↦ elim (join_field_errors fields) [ none ↦ nil_pointer | some x ↦ x ]
]

module _ {W : Type 0} (T : UserTables W) (H : Hashes W) (O : Outside W) (ui_url : String)
    (password_token_ttl : ℕ) (L : Libraries) where
  unfoldable pub sign_up : Request SignUpRequest → Handling W (Reply User)
  sign_up r = do
    request ← check (on_error (data_binder r) (handle_validation_errors L))
    user ← serve (Service.sign_up T H O ui_url password_token_ttl request.email request.password)
    reply (record { status = 201; body = user })

  unfoldable pub validate_email : Request ValidateEmailRequest → Handling W (Reply (Unit {0}))
  validate_email r = do
    request ← check (on_error (data_binder r) (λ _. new_bad_request "validate email error: %v"))
    token ←
        check
          (on_error (L.parse_uuid request.token) (λ _. new_bad_request "unable to parse token: %v"))
    _ ← serve (Service.validate_email T H O ui_url password_token_ttl token)
    reply (record { status = 200; body = tt })

  unfoldable pub request_password_reset :
      Request RequestPasswordResetRequest → Handling W (Reply (Unit {0}))
  request_password_reset r = do
    request ← check (data_binder r)
    serve (Service.request_password_reset T H O ui_url password_token_ttl request.email)
    reply (record { status = 201; body = tt })

  unfoldable pub reset_password : Request ResetPasswordRequest → Handling W (Reply (Unit {0}))
  reset_password r = do
    request ← check (on_error (data_binder r) (handle_validation_errors L))
    _ ←
        serve
          (Service.reset_password T H O ui_url password_token_ttl request.token request.password)
    reply (record { status = 201; body = tt })

  unfoldable pub update : Request UpdateUserRequest → Handling W (Reply User)
  update r = do
    id ← get_path_parameter r "id"
    request ← check (data_binder r)
    require (not (request.email == "" && request.password == ""))
        (new_bad_request "neither email nor password are specified")
    user ← serve (Service.update T H O ui_url password_token_ttl id request.email request.password)
    reply (record { status = 200; body = user })

module _ {W B : Type 0} (T : UserTables W) (r : Request B) where
  unfoldable pub me : Handling W (Reply User)
  me = do
    user ← check (get_user_from_context r)
    user_with_groups ← serve (Repository.find_by_id T user.id)
    reply (record { status = 200; body = user_with_groups })

  unfoldable pub find_by_id : Handling W (Reply User)
  find_by_id = do
    id ← get_path_parameter r "id"
    caller ← check (get_user_from_context r)
    user_with_groups ← serve (Repository.find_by_id T id)
    require_or_abort (can_access_user caller user_with_groups) 403 (new_forbidden "access denied")
    reply (record { status = 200; body = user_with_groups })

  unfoldable pub find_all : Handling W (Reply (List User))
  find_all = do users ← serve (Repository.find_all T); reply (record { status = 200; body = users })

  unfoldable pub delete : Handling W (Reply (Unit {0}))
  delete = do
    id ← get_path_parameter r "id"
    user ← check (get_user_from_context r)
    _ ← serve (Repository.find_by_id T id)
    require (not (user.id == id)) (new_bad_request "cannot delete the current user")
    serve (Repository.delete T id)
    reply (record { status = 202; body = tt })
