-- ===== src/Tests/Sessions.antt =====
-- Requests about accounts, tokens and groups.
use im_manager.Database.Repository.{found}
use im_manager.Base.Dict.{get}
use im_manager.Base.Decimal.{parse_uint}
use mathlib.Core.Bool.{false≢true}
use mathlib.Core.List.{Memᴰ}
use im_manager.Action.{pure}
use im_manager.Base.{
  not, ◌&&◌, ◌||◌, sym, false, inl, inr, Bool-cases, arith, if◌then◌else◌, ℕ, String, ◌≡◌, ◌≢◌,
  refl, ap, ◌∙◌, true, none, some, List, [], ◌∷◌, All, string_eq, nat_eq, ◌==◌,
}
use im_manager.Base.Lists.{contains, Distinct}
use im_manager.Errdef.{ok, err, errorf, ok-injective}
use im_manager.Model.{User}
use im_manager.Database.Tables.{done, record_not_found}
use im_manager.User.Repository
use im_manager.User.Repository.{UserTables}
use im_manager.User.Handler
use im_manager.User.Handler.Sessions.{
  RefreshTokenRequest, Cookie, set_cookie, Expirations, refresh_token_string, refresh_token,
  or_unauthorized, set_cookies,
}
use im_manager.User.Handler.Laws.{delete-eq-went_on, refresh_token-rotates}
use im_manager.Group.Repository.{find_all_from_user}
use im_manager.Group.Listing.{group_names, offers, of_user, find_all_from_user-Distinct}
use im_manager.Token.{
  RefreshTokenData, RefreshToken, TokenCalls, AreTokenCalls, key_of, expiration_of,
  validate_refresh_token, get_tokens, delete_previous, delete_refresh_token, existed,
  set_refresh_token,
}
use im_manager.Web.{
  Request, went_on, parse_uint_32, value_of, get_path_parameter, get_user_from_context,
}
use im_manager.Tests.Samples.{member, keeper, whoami, user_of}
use im_manager.Tests.Handling.{request_of}

-- The accounts of two users.
abbrev accounts : UserTables (List String)
accounts = record {
  save_user = λ u w. (done u, w);
  create_user = λ u w. (done u, w);
  all_users = λ w. done (member ∷ keeper ∷ []);
  first_by_email = λ email w. record_not_found;
  first_by_email_token = λ token w. record_not_found;
  first_by_password_token = λ token w. record_not_found;
  first_or_create = λ u w. (done u, w);
  first_by_id = λ id w. done (user_of id (whoami ∷ []) []);
  delete_user = λ id w. (done 1, []);
  update_user = λ u email password w. (done u, w);
  reset_user = λ u password token w. (done u, w);
}

deleted :
    Handler.delete accounts (request_of member "6") ("5:a" ∷ [])
    ≡ (went_on (record { status = 202; body = tt }), [])
unfolding Handler.delete get_path_parameter parse_uint_32 parse_uint value_of get string_eq
    get_user_from_context Repository.find_by_id found nat_eq Repository.delete
    Repository.rows_deleted
deleted = refl

delete-eq-went_on_example :
    (caller : User) × (id : ℕ) × (user : User) × (some member ≡ some caller)
    × (parse_uint_32 (value_of (request_of member "6").params "id") ≡ some id)
    × (Repository.find_by_id accounts id ("5:a" ∷ []) ≡ (ok user, "5:a" ∷ []))
    × (caller.id ≢ id)
    × (Repository.delete accounts id ("5:a" ∷ []) ≡ (ok tt, []))
delete-eq-went_on_example =
    delete-eq-went_on accounts (request_of member "6") ("5:a" ∷ []) []
      (record { status = 202; body = tt }) deleted

unfoldable pub without : String → List String → List String
without k [] = []
without k (x ∷ w) = let rest = without k w in if k == x then rest else x ∷ rest

-- The world is the keys of the refresh tokens that are stored. The next token has the id `b`.
abbrev calls : TokenCalls (List String)
calls = record {
  set_key = λ k ttl w. (ok tt, k ∷ w);
  delete_key = λ k w. if contains w k then (ok 1, without k w) else (ok 0, w);
  scan_keys = λ pattern w. (ok w, w);
  generate_access_token = λ u. pure "access";
  generate_refresh_token = λ u ttl remember_me.
      pure (record { signed_string = "refresh"; token_id = "b"; expires_in = ttl });
  validate_refresh_token = λ s. pure (record { id = s; user_id = 5; remember_me = false });
  parse_uuid = λ s. ok "a";
  access_token_expiration = 600;
  refresh_token_expiration = 3600;
  remember_me_expiration = 86400;
}

abbrev expirations : Expirations
expirations = record { access_token = 600; refresh_token = 3600; remember_me = 86400 }

abbrev refresh_request : Request RefreshTokenRequest
refresh_request = record {
  params = [];
  query = [];
  content_type = "application/json";
  should_bind = err (errorf "EOF");
  headers = [];
  cookies = ("refreshToken", "old") ∷ [];
  user = none;
}

abbrev cookies : List Cookie
cookies =
    set_cookie "accessToken" "access" 600 "/"
    ∷ set_cookie "refreshToken" "refresh" 3600 "/refresh"
    ∷ []

refreshed :
    refresh_token accounts calls expirations refresh_request ("5:a" ∷ [])
    ≡ (went_on (record { status = 201; body = cookies }), "5:b" ∷ [])
unfolding refresh_token refresh_token_string get string_eq or_unauthorized validate_refresh_token
    Repository.find_by_id found get_tokens delete_previous delete_refresh_token key_of existed
    set_refresh_token set_cookies contains without
refreshed = refl

without-contains :
    (k : String) (w : List String) (j : String)
    → contains (without k w) j ≡ (not (j == k) && contains w j)
unfolding without contains
without-contains k [] j = ground arith
without-contains k (x ∷ w) j = ground (arith, without-contains k w j)

absent-contains :
    (k : String) (w : List String) (j : String)
    → contains w k ≡ false
    → contains w j ≡ (not (j == k) && contains w j)
absent-contains k w j h = elim (Bool-cases (j == k)) [
  | inl same ↦ let at : j ≡ k = ground arith in rw same (ap (contains w) at ∙ h)
  | inr other ↦ rw other refl
]

named : (id : String) → "a" ≡ id → id ≢ ""
unfolding string_eq
named id e h = false≢true (ap (λ (x : String). x == "") (e ∙ h))

delete-deleted :
    (k : String) (n : ℕ) (w v : List String)
    → calls.delete_key k w ≡ (ok n, v)
    → (n ≢ 0 → contains w k ≡ true) × ((j : String) → contains v j ≡ (not (j == k) && contains w j))
delete-deleted k n w v e = elim (Bool-cases (contains w k)) [
  | inl there ↦
      ((λ h. there), λ j. ap (λ r. contains r.1 j) (sym (rw there at e)) ∙ without-contains k w j)
  | inr absent ↦
      let same = rw absent at e in
      (
        (λ h. absurd (h (sym (ok-injective (ap (λ r. r.0) same))))),
        λ j. ap (λ r. contains r.1 j) (sym same) ∙ absent-contains k w j absent,
      )
]

calls-AreTokenCalls : AreTokenCalls calls contains
unfolding contains
calls-AreTokenCalls = record {
  deleted = λ k n w v e. delete-deleted k n w v e;
  set = λ k ttl w v e j. ap (λ r. contains r.1 j) (sym e);
  accessed = λ user t w v e j. ap (λ r. contains r.1 j) (sym e);
  refreshed = λ user ttl remember_me t w v e j. ap (λ r. contains r.1 j) (sym e);
  validated = λ t c w v e j. ap (λ r. contains r.1 j) (sym e);
  filled = λ s id e. named id (ok-injective e);
}

refresh_token-rotates_example :
    (token : String) × (d : RefreshTokenData) × (user : User) × (new : RefreshToken) × (u v
      v' : List String)
    × (refresh_token_string refresh_request ≡ ok token)
    × (validate_refresh_token calls token ("5:a" ∷ []) ≡ (ok d, u))
    × (Repository.find_by_id accounts d.user_id u ≡ (ok user, u))
    × (calls.generate_refresh_token user (expiration_of calls d.remember_me) d.remember_me v
        ≡ (ok new, v'))
    × (contains ("5:a" ∷ []) (key_of user.id d.id) ≡ true)
    × ((j : String)
        → contains ("5:b" ∷ []) j ≡ (
            j == key_of user.id new.token_id
            || (not (j == key_of user.id d.id) && contains ("5:a" ∷ []) j)))
refresh_token-rotates_example =
    refresh_token-rotates accounts calls expirations contains calls-AreTokenCalls refresh_request
      ("5:a" ∷ []) ("5:b" ∷ []) (record { status = 201; body = cookies }) refreshed

find_all_from_user-Distinct_example :
    Distinct (group_names (find_all_from_user (user_of 5 (whoami ∷ []) (whoami ∷ [])) true))
    × All
        (λ g.
          Memᴰ g (of_user (user_of 5 (whoami ∷ []) (whoami ∷ [])))
          × (true ≡ true → g.deployable ≡ true))
        (find_all_from_user (user_of 5 (whoami ∷ []) (whoami ∷ [])) true)
    × ((name : String)
        → contains
            (group_names (find_all_from_user (user_of 5 (whoami ∷ []) (whoami ∷ [])) true))
            name
          ≡ offers true (of_user (user_of 5 (whoami ∷ []) (whoami ∷ []))) name)
find_all_from_user-Distinct_example =
    find_all_from_user-Distinct (user_of 5 (whoami ∷ []) (whoami ∷ [])) true
