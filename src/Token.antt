-- ===== src/Token.antt =====
-- pkg/token: the service, and the repository of refresh tokens.
pub mod Laws
use im_manager.Base.{
  ℕ, zero, suc, String, ◌<>◌, ◌≡◌, ◌≢◌, ap, Bool, true, false, List, [], ◌∷◌, ◌==◌, not, ◌&&◌, ◌||◌,
  ◌∙◌, string_eq, if◌then◌else◌, Bool-cases, inl, inr, arith,
}
use im_manager.Base.Decimal.{decimal}
use im_manager.Errdef.{Result, ok, err, errorf, new_unauthorized}
use im_manager.Action.{Action, pure, lift, ◌>>=◌, on_failure, continued-eq-ok, replaced-eq-ok}
use im_manager.Model.{User}

pub record Tokens : Type 0 where
  pub access_token : String
  pub token_type : String
  pub refresh_token : String
  pub expires_in : ℕ

pub record RefreshToken : Type 0 where
  pub signed_string : String
  pub token_id : String
  pub expires_in : ℕ

pub record Claims : Type 0 where
  pub id : String
  pub user_id : ℕ
  pub remember_me : Bool

pub record RefreshTokenData : Type 0 where
  pub signed_token : String
  pub id : String
  pub user_id : ℕ
  pub remember_me : Bool

-- The calls of redis, of pkg/token/helper and of the uuid library, with the configured times.
-- `delete_key` returns how many keys it deleted; `scan_keys` lists the keys of a pattern.
pub record TokenCalls (W : Type 0) : Type 0 where
  pub set_key : String → ℕ → Action W (Unit {0})
  pub delete_key : String → Action W ℕ
  pub scan_keys : String → Action W (List String)
  pub generate_access_token : User → Action W String
  pub generate_refresh_token : User → ℕ → Bool → Action W RefreshToken
  pub validate_refresh_token : String → Action W Claims
  pub parse_uuid : String → Result String
  pub access_token_expiration : ℕ
  pub refresh_token_expiration : ℕ
  pub remember_me_expiration : ℕ

-- The documented behaviour of these calls, for the keys that are stored: `DEL` removes the key and
-- counts it if it was there, `SET` adds the key, and the calls that make or check tokens leave the
-- keys as they are.
pub record AreTokenCalls {W : Type 0} (C : TokenCalls W) (stored : W → String → Bool) : Type 0 where
  pub deleted :
      (k : String) (n : ℕ) (w v : W)
      → C.delete_key k w ≡ (ok n, v)
      → (n ≢ 0 → stored w k ≡ true) × ((j : String) → stored v j ≡ (not (j == k) && stored w j))
  pub set :
      (k : String) (ttl : ℕ) (w v : W)
      → C.set_key k ttl w ≡ (ok tt, v)
      → (j : String) → stored v j ≡ (j == k || stored w j)
  pub accessed :
      (user : User) (t : String) (w v : W)
      → C.generate_access_token user w ≡ (ok t, v)
      → (j : String) → stored v j ≡ stored w j
  pub refreshed :
      (user : User) (ttl : ℕ) (remember_me : Bool) (t : RefreshToken) (w v : W)
      → C.generate_refresh_token user ttl remember_me w ≡ (ok t, v)
      → (j : String) → stored v j ≡ stored w j
  pub validated :
      (t : String) (c : Claims) (w v : W)
      → C.validate_refresh_token t w ≡ (ok c, v)
      → (j : String) → stored v j ≡ stored w j
  pub filled : (s id : String) → C.parse_uuid s ≡ ok id → id ≢ ""

unfoldable pub key_of : ℕ → String → String
unfolding decimal
key_of user_id token_id = decimal user_id <> (":" <> token_id)

unfoldable pub existed : ℕ → Result (Unit {0})
existed zero = err (errorf "refresh token to redis for userId/tokenId does not exist: %d/%s")
existed (suc n) = ok tt

unfoldable pub all_deleted : ℕ → Result (Unit {0})
all_deleted zero = ok tt
all_deleted (suc n) = err (errorf "failed to delete %d refresh tokens for userId %d")

module _ {W : Type 0} (C : TokenCalls W) where
  unfoldable pub set_refresh_token : ℕ → String → ℕ → Action W (Unit {0})
  set_refresh_token user_id token_id expires_in =
      on_failure (C.set_key (key_of user_id token_id) expires_in)
        (λ _. errorf "could not SET refresh token to redis for userId/tokenId: %d/%s: %s")

  unfoldable pub delete_refresh_token : ℕ → String → Action W (Unit {0})
  delete_refresh_token user_id token_id = do
    n ←
        on_failure (C.delete_key (key_of user_id token_id))
          (λ _. errorf "could not delete refresh token to redis for userId/tokenId: %d/%s: %s")
    lift (existed n)

  -- The number of keys that could not be deleted.
  unfoldable pub failures : List String → W → ℕ × W
  failures [] w = (0, w)
  failures (k ∷ ks) w =
      let (deleted, w') = C.delete_key k w in
      let (n, w'') = failures ks w' in (elim deleted [ ok _ ↦ n | err _ ↦ suc n ], w'')

  unfoldable pub delete_refresh_tokens : ℕ → Action W (Unit {0})
  delete_refresh_tokens user_id = do
    ks ←
        on_failure (C.scan_keys (key_of user_id "*"))
          (λ _. errorf "failed to scan refresh tokens for userId %d: %s")
    n ← λ w. let (n, w') = failures ks w in (ok n, w')
    lift (all_deleted n)

  -- if previousRefreshTokenId != "" { … }
  unfoldable pub delete_previous : ℕ → String → Action W (Unit {0})
  delete_previous user_id previous =
      if previous == ""
      then pure tt
      else on_failure (delete_refresh_token user_id previous) (λ _.
        new_unauthorized "could not delete previous refreshToken for user.Id: %d, tokenId: %s")

  unfoldable pub expiration_of : Bool → ℕ
  expiration_of true = C.remember_me_expiration
  expiration_of false = C.refresh_token_expiration

  unfoldable pub get_tokens : User → String → Bool → Action W Tokens
  get_tokens user previous remember_me = do
    _ ← delete_previous user.id previous
    access ←
        on_failure (C.generate_access_token user)
          (λ _. errorf "error generating accessToken for user: %+v\nError: %s")
    refresh ←
        on_failure (C.generate_refresh_token user (expiration_of remember_me) remember_me)
          (λ _. errorf "error generating refreshToken for user: %+v\nError: %s")
    _ ←
        on_failure (set_refresh_token user.id refresh.token_id refresh.expires_in)
          (λ _. errorf "error storing token: %d\nError: %s")
    pure (record {
      access_token = access;
      token_type = "bearer";
      refresh_token = refresh.signed_string;
      expires_in = C.access_token_expiration;
    })

  unfoldable pub validate_refresh_token : String → Action W RefreshTokenData
  validate_refresh_token token = do
    claims ←
        on_failure (C.validate_refresh_token token) (λ _. errorf "unable to verify refresh token")
    id ← on_failure (lift (C.parse_uuid claims.id)) (λ _. errorf "unable to verify refresh token")
    pure (record {
      signed_token = token;
      id = id;
      user_id = claims.user_id;
      remember_me = claims.remember_me;
    })

  unfoldable pub sign_out : ℕ → Action W (Unit {0})
  sign_out user_id = delete_refresh_tokens user_id
