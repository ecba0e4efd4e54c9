-- ===== src/User/Service/Laws.antt =====
-- Who signs in, and who resets a password.
use mathlib.Core.Path.{subst}
use im_manager.Base.{
  ℕ, ◌*◌, ◌^◌, ◌<◌, ◌≤◌, String, ◌≡◌, ◌≢◌, ◌⊎◌, refl, sym, ap, ◌∙◌, Bool, true, false, none, ◌==◌,
  string_eq, Bool-cases, inl, inr, arith,
}
use im_manager.Errdef.{Error, Result, ok, err, errorf, ok-injective}
use im_manager.Action.{on_failure, continued-eq-ok, lift-eq-ok, replaced-lift-eq-ok, replaced-eq-ok}
use im_manager.Model.{User}
use im_manager.Database.Tables.{Answer, done, record_not_found, duplicated_key, failed}
use im_manager.Database.Repository.{found, plainly}
use im_manager.Database.Locks.Refinement.{found-eq-ok}
use im_manager.User.Repository
use im_manager.User.Repository.{UserTables, unless_failed}
use im_manager.User.Passwords.{Hashes, hash_password, compare_passwords}
use im_manager.User.Service.{
  Outside, has_expired, or_no_match, no_match, admitted, with_password, sign_in, reset_found,
  reset_password,
}

or_no_match-eq-ok : (r : Result User) {u : User} → or_no_match r ≡ ok u → r ≡ ok u
unfolding or_no_match
or_no_match-eq-ok (ok x) e = e
or_no_match-eq-ok (err x) e = cc

unless_failed-eq-ok :
    {A : Type 0} (f : Error) (a : Answer A) {b : A} → unless_failed f a ≡ ok b → a ≡ done b
unfolding unless_failed
unless_failed-eq-ok f (done x) e = cc
unless_failed-eq-ok f record_not_found e = cc
unless_failed-eq-ok f duplicated_key e = cc
unless_failed-eq-ok f (failed m) e = cc

module _ {W : Type 0} (T : UserTables W) (H : Hashes W) (O : Outside W) (ui_url : String)
    (password_token_ttl : ℕ) where
  admitted-eq-ok :
      (s u : User) (password : String) (match : Bool) (w w' : W)
      → admitted T H O ui_url password_token_ttl s password match w ≡ (ok u, w')
      → (match ≡ true) × (s.validated ≡ true)
  unfolding admitted
  admitted-eq-ok s u password false w w' e = cc
  admitted-eq-ok s u password true w w' e = elim (Bool-cases s.validated) [
    | inl valid ↦ (refl, valid)
    | inr pending ↦ cc (rw (pending, admitted) at e)
  ]

  -- When `SignIn` succeeds, there is a user with that address, whose account is validated, and the
  -- password matches the stored one.
  pub sign_in-eq-ok :
      (email password : String) (u : User) (w w' : W)
      → sign_in T H O ui_url password_token_ttl email password w ≡ (ok u, w')
      → (s : User) × (T.first_by_email email w ≡ done s)
        × (compare_passwords H s.password password ≡ ok true)
        × (s.validated ≡ true)
  unfolding sign_in Repository.find_by_email
  sign_in-eq-ok email password u w w' e =
      let (s, there, e₁) = lift-eq-ok (or_no_match (Repository.find_by_email T email w).0) w _ e in
      let (match, compared, e₂) =
        replaced-lift-eq-ok (λ _. errorf "password comparison failed: %s")
          (compare_passwords H s.password password) w _ e₁ in
      let (same, valid) = admitted-eq-ok s u password match w w' e₂ in
      (
        s,
        found-eq-ok _ (T.first_by_email email w) (or_no_match-eq-ok _ there),
        compared ∙ ap ok same,
        valid,
      )

  -- An unknown address and a wrong password are answered with the same error, and change nothing.
  pub sign_in-no_match :
      (email password : String) (w : W)
      → (T.first_by_email email w ≡ record_not_found
          → sign_in T H O ui_url password_token_ttl email password w ≡ (err no_match, w))
        × ((s : User)
            → T.first_by_email email w ≡ done s
            → compare_passwords H s.password password ≡ ok false
            → sign_in T H O ui_url password_token_ttl email password w ≡ (err no_match, w))
  unfolding sign_in Repository.find_by_email found or_no_match admitted
  sign_in-no_match email password w = (
    (λ unknown. rw (sign_in, Repository.find_by_email, unknown) refl),
    λ s known wrong. rw (sign_in, Repository.find_by_email, known, wrong) refl,
  )

  has_expired-false :
      (ttl now : ℕ) → has_expired ttl now ≡ false → (ttl < 2 ^ 63) × (now ≤ ttl * 10 ^ 9)
  unfolding has_expired
  has_expired-false ttl now e = ground arith

  -- The password that is stored: the old one, if none is given, and otherwise a hash of the given one.
  abbrev pub IsStored : User → String → String → W → W → Type 0
  IsStored s password hash w v =
      ((password ≡ "") × (hash ≡ s.password) × (v ≡ w))
      ⊎ ((password ≢ "") × (hash_password H password w ≡ (ok hash, v)))

  with_password-IsStored :
      (s c : User) (password : String) (w v : W)
      → with_password T H O ui_url password_token_ttl s password w ≡ (ok c, v)
      → (hash : String) × IsStored s password hash w v × (c ≡ record s { password = hash })
  unfolding with_password
  with_password-IsStored s c password w v e = elim (Bool-cases (password == "")) [
    | inl empty ↦
        let kept = rw (empty, with_password) at e in
        (
          s.password,
          inl (ground arith, refl, sym (ap (λ r. r.1) kept)),
          sym (ok-injective (ap (λ r. r.0) kept)),
        )
    | inr given ↦
        let (hash, v', hashed, e₁) =
          continued-eq-ok
            (on_failure (hash_password H password) (λ _. errorf "failed to hash password: %s") w) _
            (rw (given, with_password) at e) in
        (
          hash,
          inr (
            ground arith,
            replaced-eq-ok _ (hash_password H password w) hashed
                ∙ ap (λ x. (ok hash, x)) (ap (λ r. r.1) e₁),
          ),
          sym (ok-injective (ap (λ r. r.0) e₁)),
        )
  ]

  -- What `reset_password` does for the user that has the token.
  abbrev pub IsReset : User → String → User → W → W → Type 0
  IsReset s password u w w' =
      (s.password_token_ttl < 2 ^ 63)
      × (O.now w ≤ s.password_token_ttl * 10 ^ 9)
      × ((hash : String) × (v : W) × IsStored s password hash w v
          × (T.reset_user (record s { password = hash }) hash none v ≡ (done u, w')))

  reset_found-IsReset :
      (s u : User) (password : String) (w w' : W)
      → reset_found T H O ui_url password_token_ttl s password (O.now w) w ≡ (ok u, w')
      → IsReset s password u w w'
  unfolding reset_found Repository.reset_password
  reset_found-IsReset s u password w w' e =
      elim (Bool-cases (has_expired s.password_token_ttl (O.now w))) [
        | inl late ↦ cc (rw (late, reset_found) at e)
        | inr valid ↦
            let (c, v, changed, e₁) =
              continued-eq-ok (with_password T H O ui_url password_token_ttl s password w) _
                (rw (valid, reset_found) at e) in
            let stored =
              unless_failed-eq-ok _ (T.reset_user c c.password none v).0 (ap (λ r. r.0) e₁) in
            let (hash, kept, same) = with_password-IsStored s c password w v changed in
            let (small, early) = has_expired-false s.password_token_ttl (O.now w) valid in
            let reset : T.reset_user c c.password none v ≡ (done u, w') =
              cc (stored, ap (λ r. r.1) e₁) in
            (
              small,
              early,
              (
                hash,
                v,
                kept,
                subst (λ x. T.reset_user x x.password none v ≡ (done u, w')) same reset,
              ),
            )
      ]

  -- When `ResetPassword` succeeds, a user has that token, which is valid: its end, in seconds, is less
  -- than 2 ^ 63, and is not before now. What is stored is that user without the token, and with a hash
  -- of the given password, or with the password as it was if the given one is empty.
  pub reset_password-eq-ok :
      (token password : String) (u : User) (w w' : W)
      → reset_password T H O ui_url password_token_ttl token password w ≡ (ok u, w')
      → (s : User) × (T.first_by_password_token token w ≡ done s)
        × (s.password_token_ttl < 2 ^ 63)
        × (O.now w ≤ s.password_token_ttl * 10 ^ 9)
        × ((hash : String) × (v : W) × IsStored s password hash w v
            × (T.reset_user (record s { password = hash }) hash none v ≡ (done u, w')))
  unfolding reset_password Repository.find_by_password_reset_token plainly
  reset_password-eq-ok token password u w w' e =
      let (s, there, e₁) = lift-eq-ok (plainly (T.first_by_password_token token w)) w _ e in
      let (small, early, reset) = reset_found-IsReset s u password w w' e₁ in
      (s, found-eq-ok _ (T.first_by_password_token token w) there, small, early, reset)
