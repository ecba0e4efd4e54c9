-- ===== src/Token/Laws.antt =====
-- pkg/token/service.go: what `GetTokens` does with the keys of refresh tokens.
use im_manager.Base.{
  ℕ, zero, suc, String, ◌≡◌, ◌≢◌, ap, Bool, ◌==◌, ◌∙◌, string_eq, Bool-cases, inl, inr, arith,
}
use im_manager.Errdef.{ok, errorf}
use im_manager.Action.{on_failure, continued-eq-ok, replaced-eq-ok}
use im_manager.Model.{User}
use im_manager.Token.{
  Tokens, RefreshToken, TokenCalls, key_of, existed, set_refresh_token, delete_refresh_token,
  delete_previous, expiration_of, get_tokens,
}

module _ {W : Type 0} (C : TokenCalls W) where
  existed-eq-ok : (n : ℕ) → existed n ≡ ok tt → n ≢ 0
  unfolding existed
  existed-eq-ok zero e h = cc
  existed-eq-ok (suc n) e h = cc

  -- The key of the previous refresh token is deleted.
  delete_previous-eq-ok :
      (user_id : ℕ) (previous : String) (w v : W)
      → previous ≢ ""
      → delete_previous C user_id previous w ≡ (ok tt, v)
      → (n : ℕ) × (C.delete_key (key_of user_id previous) w ≡ (ok n, v)) × (n ≢ 0)
  unfolding delete_previous delete_refresh_token
  delete_previous-eq-ok user_id previous w v given e = elim (Bool-cases (previous == "")) [
    | inl empty ↦ absurd (given (ground arith))
    | inr some' ↦
        let (n, v', gone, rest) =
          continued-eq-ok
            (on_failure (C.delete_key (key_of user_id previous))
              (λ _. errorf "could not delete refresh token to redis for userId/tokenId: %d/%s: %s")
              w)
            _
            (replaced-eq-ok _ (delete_refresh_token C user_id previous w)
              (rw (some', delete_previous) at e)) in
        (
          n,
          replaced-eq-ok _ (C.delete_key (key_of user_id previous) w) gone
              ∙ ap (λ x. (ok n, x)) (ap (λ r. r.1) rest),
          existed-eq-ok n (ap (λ r. r.0) rest),
        )
  ]

  -- When `GetTokens` succeeds with a previous refresh token, the key of that token had existed, and was
  -- deleted before the key of the new one was set.
  pub get_tokens-rotates :
      (user : User) (previous : String) (remember_me : Bool) (t : Tokens) (w w' : W)
      → previous ≢ ""
      → get_tokens C user previous remember_me w ≡ (ok t, w')
      → (n : ℕ) × (access : String) × (refresh : RefreshToken) × (v₁ v₂ v₃ : W) × (C.delete_key
            (key_of user.id previous)
            w
          ≡ (ok n, v₁))
        × (n ≢ 0)
        × (C.generate_access_token user v₁ ≡ (ok access, v₂))
        × (C.generate_refresh_token user (expiration_of C remember_me) remember_me v₂
            ≡ (ok refresh, v₃))
        × (C.set_key (key_of user.id refresh.token_id) refresh.expires_in v₃ ≡ (ok tt, w'))
  unfolding get_tokens set_refresh_token
  get_tokens-rotates user previous remember_me t w w' given e =
      let (_, v₁, deleted, e₁) = continued-eq-ok (delete_previous C user.id previous w) _ e in
      let (access, v₂, accessed, e₂) =
        continued-eq-ok (on_failure (C.generate_access_token user) _ v₁) _ e₁ in
      let (refresh, v₃, made, e₃) =
        continued-eq-ok
          (on_failure (C.generate_refresh_token user (expiration_of C remember_me) remember_me) _
            v₂)
          _ e₂ in
      let (_, v₄, kept, e₄) =
        continued-eq-ok
          (on_failure (set_refresh_token C user.id refresh.token_id refresh.expires_in) _ v₃) _
          e₃ in
      let (n, gone, existed') = delete_previous-eq-ok user.id previous w v₁ given deleted in
      let set =
        replaced-eq-ok _ (C.set_key (key_of user.id refresh.token_id) refresh.expires_in v₃) (
          replaced-eq-ok _ (set_refresh_token C user.id refresh.token_id refresh.expires_in v₃)
            kept) in
      (
        n,
        access,
        refresh,
        v₁,
        v₂,
        v₃,
        gone,
        existed',
        replaced-eq-ok _ (C.generate_access_token user v₁) accessed,
        replaced-eq-ok _ _ made,
        set ∙ ap (λ x. (ok tt, x)) (ap (λ r. r.1) e₄),
      )
