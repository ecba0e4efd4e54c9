-- ===== src/User/Service.antt =====
-- pkg/user/service.go, over the repository, the hashes and the mail server.
pub mod Laws
use im_manager.Base.{
  ℕ, ◌+◌, ◌*◌, ◌/◌, ◌%◌, ◌^◌, String, ◌<>◌, Bool, true, false, ◌||◌, Option, none, some, List, [],
  ◌∷◌, ◌==◌, string_eq, ltb, leb, if◌then◌else◌,
}
use im_manager.Errdef.{
  Error, Result, ok, err, errorf, new_unauthorized, new_forbidden, new_bad_request, is_not_found,
}
use im_manager.Action.{Action, pure, lift, ◌>>=◌, on_failure}
use im_manager.Model.{User}
use im_manager.User.Repository
use im_manager.User.Repository.{UserTables}
use im_manager.User.Passwords.{Hashes, hash_password, is_legacy_hash, compare_passwords}

-- github.com/go-mail/mail, github.com/google/uuid, crypto/rand with an encoding, and the clock, in
-- nanoseconds since the epoch.
pub record Outside (W : Type 0) : Type 0 where
  pub send_mail : String → String → String → Action W (Unit {0})
  pub new_uuid : Action W String
  pub random_password : Action W String
  pub random_token : Action W String
  pub now : W → ℕ

-- A new user, of which the code sets the address, the token and the password.
abbrev pub new_user : String → String → String → User
new_user email token password = record {
  id = 0;
  email = email;
  email_token = token;
  validated = false;
  password = password;
  password_token = none;
  password_token_ttl = 0;
  groups = [];
  admin_groups = [];
}

-- `tokenTtl.Before(time.Now())`: `int64(ttl)` is negative from 2 ^ 63 on.
unfoldable pub has_expired : ℕ → ℕ → Bool
has_expired ttl now = leb (2 ^ 63) ttl || ltb (ttl * 10 ^ 9) now

abbrev pub no_match : Error
no_match = new_unauthorized "invalid email and password combination"

-- if errdef.IsNotFound(err) { … }
unfoldable pub or_no_match : Result User → Result User
or_no_match (ok user) = ok user
or_no_match (err e) = err (if is_not_found e then no_match else e)

unfoldable pub token_text : Option String → String
token_text none = ""
token_text (some token) = token

module _ {W : Type 0} (T : UserTables W) (H : Hashes W) (O : Outside W) (ui_url : String)
    (password_token_ttl : ℕ) where
  unfoldable pub send_validation_email : User → Action W (Unit {0})
  send_validation_email user = O.send_mail user.email "Welcome to IM" (
      "Hello, please click the below link to verify your email.<br/>"
      <> (ui_url <> ("/validate/" <> user.email_token)))

  unfoldable pub sign_up : String → String → Action W User
  sign_up email password = do
    hashed ← on_failure (hash_password H password) (λ _. errorf "password hashing failed: %s")
    token ← O.new_uuid
    user ← Repository.create T (new_user email token hashed)
    _ ← on_failure (send_validation_email user) (λ _. errorf "failed to send validation email: %s")
    pure user

  unfoldable pub validate_email : String → Action W User
  validate_email token = do
    user ← Repository.find_by_email_token T token
    Repository.save T (record user { validated = true })

  -- A failure is only logged: the user keeps the new hash in memory once there is one.
  unfoldable pub persisted : User → Result String × W → Result User × W
  persisted user (err e, w) = (ok user, w)
  persisted user (ok hash, w) = (
    ok (record user { password = hash }),
    (Repository.save T (record user { password = hash }) w).1,
  )

  unfoldable pub migrate_legacy_password : User → String → Action W User
  migrate_legacy_password user password w = persisted user (hash_password H password w)

  unfoldable pub admitted : User → String → Bool → Action W User
  admitted user password false = lift (err no_match)
  admitted user password true =
      if user.validated
      then (if is_legacy_hash user.password
          then migrate_legacy_password user password
          else pure user)
      else lift (err (new_forbidden "account not validated"))

  unfoldable pub sign_in : String → String → Action W User
  sign_in email password = do
    user ← λ w. (or_no_match (Repository.find_by_email T email w).0, w)
    match ←
        on_failure (lift (compare_passwords H user.password password))
          (λ _. errorf "password comparison failed: %s")
    admitted user password match

  unfoldable pub find_or_create : String → String → Action W User
  find_or_create email password = do
    hashed ← on_failure (hash_password H password) (λ _. errorf "failed to hash password: %s")
    token ← O.new_uuid
    Repository.find_or_create T (new_user email token hashed)

  -- if !user.Validated { … }
  unfoldable pub ensure_validated : User → Action W User
  ensure_validated user =
      if user.validated then pure user else Repository.save T (record user { validated = true })

  unfoldable pub sign_in_with_sso : String → Action W User
  sign_in_with_sso email = do
    password ← on_failure O.random_password (λ _. errorf "failed to generate random password: %s")
    hashed ←
        on_failure (hash_password H password) (λ _. errorf "failed to hash random password: %s")
    token ← O.new_uuid
    user ← Repository.find_or_create T (new_user email token hashed)
    ensure_validated user

  -- if password != "" { … }
  unfoldable pub with_password : User → String → Action W User
  with_password user password = if password == "" then pure user else (do
    hashed ← on_failure (hash_password H password) (λ _. errorf "failed to hash password: %s")
    pure (record user { password = hashed }))

  unfoldable pub update : ℕ → String → String → Action W User
  update id email password = do
    user ← Repository.find_by_id T id
    changed ←
        with_password (record user { email = if email == "" then user.email else email }) password
    Repository.update T changed

  unfoldable pub send_found : User → Result User → Action W (Unit {0})
  send_found user (err e) = if is_not_found e then pure tt else lift (err e)
  send_found user (ok _) = O.send_mail user.email "Reset your IM password" (
      "Hello, please click the link below to reset your password.<br/>"
      <> (ui_url <> ("/reset-password/" <> token_text user.password_token)))

  unfoldable pub send_reset_password_email : User → Action W (Unit {0})
  send_reset_password_email user w = send_found user (Repository.find_by_email T user.email w).0 w

  -- `uint(time.Now().Unix()) + s.passwordTokenTtl` wraps around.
  unfoldable pub request_found : Result User → Action W (Unit {0})
  request_found (err e) = if is_not_found e then pure tt else lift (err e)
  request_found (ok user) = do
    token ← O.random_token
    now ← λ w. (ok (O.now w), w)
    let changed = record user {
      password_token = some token;
      password_token_ttl = (now / 10 ^ 9 + password_token_ttl) % 2 ^ 64;
    }
    _ ← send_reset_password_email changed
    _ ← Repository.save T changed
    pure tt

  unfoldable pub request_password_reset : String → Action W (Unit {0})
  request_password_reset email w = request_found (Repository.find_by_email T email w).0 w

  unfoldable pub reset_found : User → String → ℕ → Action W User
  reset_found user password now =
      if has_expired user.password_token_ttl now
      then lift (err (new_bad_request "reset token has expired"))
      else (do changed ← with_password user password; Repository.reset_password T changed)

  unfoldable pub reset_password : String → String → Action W User
  reset_password token password = do
    user ← Repository.find_by_password_reset_token T token
    now ← λ w. (ok (O.now w), w)
    reset_found user password now
