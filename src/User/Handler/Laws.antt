-- ===== src/User/Handler/Laws.antt =====
-- pkg/user/handler.go: what a deletion and a refreshed token ensure.
use mathlib.Core.Path.{subst}
use im_manager.Base.{
  ℕ, ◌≡◌, ◌≢◌, refl, sym, ap, ◌∙◌, String, Bool, true, false, not, ◌&&◌, ◌||◌, some, List, ◌==◌,
  string_eq, nat_eq, arith, if◌then◌else◌,
}
use im_manager.Errdef.{
  Error, Result, ok, err, is_not_found, is_unauthorized, is_panic, ok-injective,
}
use im_manager.Action.{on_failure, continued-eq-ok, replaced-eq-ok, replaced-lift-eq-ok}
use im_manager.Model.{User}
use im_manager.User.Repository
use im_manager.User.Repository.{UserTables}
use im_manager.User.Handler
use im_manager.User.Handler.Sessions.{
  RefreshTokenRequest, Cookie, Expirations, or_unauthorized, refresh_token_string, refresh_token,
}
use im_manager.Token.{
  RefreshTokenData, RefreshToken, TokenCalls, AreTokenCalls, key_of, expiration_of, get_tokens,
  validate_refresh_token,
}
use im_manager.Token.Laws.{get_tokens-rotates}
use im_manager.Web.{
  Request, went_on, left_error, aborted, Handling, Reply, chained, get_user_from_context,
  parse_uint_32, value_of,
}
use im_manager.Web.Laws.{
  chained-get_path_parameter-eq-went_on, chained-served-eq-went_on, chained-check-eq-went_on,
  chained-require-eq-went_on, chained-require_or_abort-eq-went_on, get_user_from_context-eq-ok,
  went_on-injective,
}

-- When Delete replies, the path names an account that exists and is not that of the user in the
-- context, and it was deleted.
pub delete-eq-went_on :
    {W B : Type 0} (T : UserTables W) (r : Request B) (w w' : W) (a : Reply (Unit {0}))
    → Handler.delete T r w ≡ (went_on a, w')
    → (caller : User) × (id : ℕ) × (user : User) × (r.user ≡ some caller)
      × (parse_uint_32 (value_of r.params "id") ≡ some id)
      × (Repository.find_by_id T id w ≡ (ok user, w))
      × (caller.id ≢ id)
      × (Repository.delete T id w ≡ (ok tt, w'))
unfolding Handler.delete Repository.find_by_id
delete-eq-went_on T r w w' a e =
    let (id, named, e1) = chained-get_path_parameter-eq-went_on w r "id" _ e in
    let (caller, there, e2) = chained-check-eq-went_on (get_user_from_context r) w _ e1 in
    let (user, v, found, e3) = chained-served-eq-went_on (Repository.find_by_id T id w) _ e2 in
    let (other, e4) = chained-require-eq-went_on _ v _ (not (caller.id == id)) e3 in
    let (_, u, deleted, e5) = chained-served-eq-went_on (Repository.delete T id v) _ e4 in
    let at : w ≡ v = ap (λ p. p.1) found in
    (
      caller,
      id,
      user,
      get_user_from_context-eq-ok r caller there,
      named,
      found ∙ ap (λ x. (ok user, x)) (sym at),
      ground arith,
      subst (λ x. Repository.delete T id x ≡ (ok tt, w')) (sym at)
          (deleted ∙ ap (λ x. (ok tt, x)) (went_on-injective e5).1),
    )

stopped :
    {W A B : Type 0} (b : Bool) (x : Error) (w : W) (f : A → Handling W B) {y : B} {w' : W}
    → chained ((if b then aborted 401 x else left_error x), w) f ≢ (went_on y, w')
stopped true x w f e = cc
stopped false x w f e = cc

or_unauthorized-eq-went_on :
    {W A B : Type 0} (kind : Error → Bool) (m : Result A × W) (f : A → Handling W B) {b : B}
    {w' : W}
    → chained (or_unauthorized kind m) f ≡ (went_on b, w')
    → (a : A) × (w : W) × (m ≡ (ok a, w)) × (f a w ≡ (went_on b, w'))
unfolding or_unauthorized
or_unauthorized-eq-went_on kind (ok a, w) f e = (a, w, refl, e)
or_unauthorized-eq-went_on kind (err x, w) f e =
    absurd (stopped (kind x && not (is_panic x)) x w f e)

module _ {W : Type 0} (T : UserTables W) (C : TokenCalls W) (E : Expirations)
    (stored : W → String → Bool) (L : AreTokenCalls C stored) where
  validate_refresh_token-keeps :
      (token : String) (d : RefreshTokenData) (w w' : W)
      → validate_refresh_token C token w ≡ (ok d, w')
      → (d.id ≢ "") × ((j : String) → stored w' j ≡ stored w j)
  unfolding validate_refresh_token
  validate_refresh_token-keeps token d w w' e =
      let (claims, v, valid, e1) =
        continued-eq-ok (on_failure (C.validate_refresh_token token) _ w) _ e in
      let (id, parsed, e2) = replaced-lift-eq-ok _ (C.parse_uuid claims.id) v _ e1 in
      let same =
        L.validated token claims w v (replaced-eq-ok _ (C.validate_refresh_token token w) valid) in
      (
        subst (λ x. x ≢ "") (ap (λ x. x.id) (ok-injective (ap (λ p. p.0) e2)))
            (L.filled claims.id id parsed),
        λ j. ap (λ x. stored x j) (sym (ap (λ p. p.1) e2)) ∙ same j,
      )

  -- When RefreshToken replies, the refresh token was valid, its user exists, and its key was stored.
  -- The keys that are stored at the end are those of before without that key, and the key of the new
  -- refresh token, which was made for the user. The calls that store, delete, make and check tokens are
  -- assumed to treat the stored keys as documented, and a parsed id not to be empty.
  pub refresh_token-rotates :
      (r : Request RefreshTokenRequest) (w w' : W) (a : Reply (List Cookie))
      → refresh_token T C E r w ≡ (went_on a, w')
      → (token : String) × (d : RefreshTokenData) × (user : User) × (new : RefreshToken) × (u v
          v' : W)
        × (refresh_token_string r ≡ ok token)
        × (validate_refresh_token C token w ≡ (ok d, u))
        × (Repository.find_by_id T d.user_id u ≡ (ok user, u))
        × (C.generate_refresh_token user (expiration_of C d.remember_me) d.remember_me v
            ≡ (ok new, v'))
        × (stored w (key_of user.id d.id) ≡ true)
        × ((j : String)
            → stored w' j ≡ (
                j == key_of user.id new.token_id || (not (j == key_of user.id d.id) && stored w j)))
  unfolding refresh_token Repository.find_by_id
  refresh_token-rotates r w w' a e =
      let (token, given, e1) = chained-check-eq-went_on (refresh_token_string r) w _ e in
      let (_, e2) = chained-require_or_abort-eq-went_on _ w _ (not (token == "")) 400 e1 in
      let (d, u, valid, e3) =
        or_unauthorized-eq-went_on (λ _. true) (validate_refresh_token C token w) _ e2 in
      let (user, u', found, e4) =
        or_unauthorized-eq-went_on is_not_found (Repository.find_by_id T d.user_id u) _ e3 in
      let (tokens, x, rotated, e5) =
        or_unauthorized-eq-went_on is_unauthorized (get_tokens C user d.id d.remember_me u') _ e4 in
      let (filled, kept) = validate_refresh_token-keeps token d w u valid in
      let (n, access, new, v₁, v, v', gone, existed, accessed, made, set) =
        get_tokens-rotates C user d.id d.remember_me tokens u' x filled rotated in
      let at : u ≡ u' = ap (λ p. p.1) found in
      let before : (j : String) → stored u' j ≡ stored w j =
        λ j. ap (λ y. stored y j) (sym at) ∙ kept j in
      let (there, without) = L.deleted (key_of user.id d.id) n u' v₁ gone in
      (
        token,
        d,
        user,
        new,
        u,
        v,
        v',
        given,
        valid,
        found ∙ ap (λ z. (ok user, z)) (sym at),
        made,
        sym (before (key_of user.id d.id)) ∙ there existed,
        λ j.
            ap (λ y. stored y j) (sym (went_on-injective e5).1)
            ∙ L.set (key_of user.id new.token_id) new.expires_in v' x set j
            ∙ ap (λ b. j == key_of user.id new.token_id || b)
                (L.refreshed user (expiration_of C d.remember_me) d.remember_me new v v' made j
                  ∙ L.accessed user access v₁ v accessed j
                  ∙ without j
                  ∙ ap (λ b. not (j == key_of user.id d.id) && b) (before j)),
      )
