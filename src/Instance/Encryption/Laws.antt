-- ===== src/Instance/Encryption/Laws.antt =====
-- What was encrypted is decrypted again, and no sensitive value is left as it was.
use mathlib.Core.Path.{subst}
use text.Mathlib.TextLemmas.{nil-append, cons-append}
use im_manager.Base.{
  ℕ, zero, suc, String, ◌<>◌, true, false, ◌≡◌, refl, sym, ap, ◌∙◌, List, [], ◌∷◌, ◌++◌, ltb, All,
  arith, Bool-cases, inl, inr, nat_eq,
}
use im_manager.Base.Lists.{length}
use im_manager.Base.Text.{has_prefix}
use im_manager.Errdef.{ok, errorf, ok-injective}
use im_manager.Action.{on_failure, continued-eq-ok, lift-eq-ok, replaced-eq-ok}
use im_manager.Model.{DeploymentInstanceParameter, DeploymentInstanceParameters}
use im_manager.Stack.{Stack}
use im_manager.Instance.Encryption.{
  Ciphers, AreCiphers, first, after, drop_text, gcm_prefix, is_sensitive, gcm_of, encrypt_text,
  open_sealed, decrypt_gcm, decrypt_text, encrypt_parameter, encrypt_parameters, decrypt_parameter,
  decrypt_parameters,
}

module _ {A : Type 0} where
  first-append : (n : ℕ) (a b : List A) → length a ≡ n → first n (a ++ b) ≡ a
  unfolding first
  first-append zero [] b h = refl
  first-append zero (x ∷ a) b h = absurd (omega arith)
  first-append (suc n) [] b h = absurd (omega arith)
  first-append (suc n) (x ∷ a) b h = ap (◌∷◌ x) (first-append n a b (omega arith))

  after-append : (n : ℕ) (a b : List A) → length a ≡ n → after n (a ++ b) ≡ b
  unfolding after
  after-append zero [] b h = refl
  after-append zero (x ∷ a) b h = absurd (omega arith)
  after-append (suc n) [] b h = absurd (omega arith)
  after-append (suc n) (x ∷ a) b h = after-append n a b (omega arith)

  short-append : (n : ℕ) (a b : List A) → length a ≡ n → ltb (length (a ++ b)) n ≡ false
  short-append zero [] b h = ground arith
  short-append zero (x ∷ a) b h = absurd (omega arith)
  short-append (suc n) [] b h = absurd (omega arith)
  short-append (suc n) (x ∷ a) b h = ground (arith, short-append n a b (omega arith))

has_prefix-append : (t s : String) → has_prefix (t <> s) t ≡ true
unfolding has_prefix
has_prefix-append String.[] s = refl
has_prefix-append (String.◌∷◌ c t) s =
    rw (cons-append c t s) (ground (arith, has_prefix-append t s))

-- len(t)
size : String → ℕ
size String.[] = 0
size (String.◌∷◌ c t) = suc (size t)

drop_text-append : (t s : String) → drop_text (size t) (t <> s) ≡ s
unfolding drop_text size
drop_text-append String.[] s = nil-append s
drop_text-append (String.◌∷◌ c t) s = rw (cons-append c t s) (drop_text-append t s)

size-gcm_prefix : size gcm_prefix ≡ 3
unfolding size
size-gcm_prefix = refl

drop_text-gcm_prefix : (s : String) → drop_text 3 (gcm_prefix <> s) ≡ s
drop_text-gcm_prefix s =
    ap (λ n. drop_text n (gcm_prefix <> s)) (sym size-gcm_prefix) ∙ drop_text-append gcm_prefix s

-- Each sensitive value is marked as encrypted.
abbrev pub IsSealed : Stack → DeploymentInstanceParameters → Type 0
IsSealed stack ps =
    All (λ e. is_sensitive stack e.1.parameter_name ≡ true → has_prefix e.1.value gcm_prefix ≡ true)
      ps

module _ {W : Type 0} (C : Ciphers W) (L : AreCiphers C) where
  open_sealed-seal :
      (gcm : C.Gcm) (nonce : List C.Byte) (text : String)
      → length nonce ≡ C.nonce_size gcm
      → open_sealed C gcm (nonce ++ C.seal gcm nonce (C.bytes_of text)) ≡ ok text
  unfolding open_sealed
  open_sealed-seal gcm nonce text full =
      let n = C.nonce_size gcm in
      let sealed = C.seal gcm nonce (C.bytes_of text) in
      rw
        (
          short-append n nonce sealed full,
          first-append n nonce sealed full,
          after-append n nonce sealed full,
          L.opened gcm nonce (C.bytes_of text),
          L.bytes_back text,
        )
        refl

  sealed-decrypted :
      (key text : String) (gcm : C.Gcm) (nonce : List C.Byte)
      → gcm_of C key ≡ ok gcm
      → length nonce ≡ C.nonce_size gcm
      → decrypt_text C key
          (gcm_prefix <> C.encode_to_string (nonce ++ C.seal gcm nonce (C.bytes_of text)))
        ≡ ok text
  unfolding decrypt_text decrypt_gcm
  sealed-decrypted key text gcm nonce made full =
      let cipher_text = nonce ++ C.seal gcm nonce (C.bytes_of text) in
      let encoded = C.encode_to_string cipher_text in
      rw
        (
          has_prefix-append gcm_prefix encoded,
          drop_text-gcm_prefix encoded,
          decrypt_gcm,
          L.decoded cipher_text,
          made,
        )
        (open_sealed-seal gcm nonce text full)

  -- A text that was encrypted is marked as such, and is decrypted with the same key.
  pub decrypt_text-encrypt_text :
      (key text secret : String) (w w' : W)
      → encrypt_text C key text w ≡ (ok secret, w')
      → (has_prefix secret gcm_prefix ≡ true) × (decrypt_text C key secret ≡ ok text)
  unfolding encrypt_text
  decrypt_text-encrypt_text key text secret w w' e =
      let (gcm, made, e₁) = lift-eq-ok (gcm_of C key) w _ e in
      let (nonce, w₁, read, e₂) =
        continued-eq-ok
          (on_failure (C.read_full (C.nonce_size gcm)) (λ _. errorf "failed to generate nonce: %v")
            w)
          _ e₁ in
      let full =
        L.filled (C.nonce_size gcm) nonce w w₁
          (replaced-eq-ok _ (C.read_full (C.nonce_size gcm) w) read) in
      subst (λ s. (has_prefix s gcm_prefix ≡ true) × (decrypt_text C key s ≡ ok text))
        (ok-injective (ap (λ r. r.0) e₂))
        (has_prefix-append gcm_prefix _, sealed-decrypted key text gcm nonce made full)

  encrypt_parameter-eq-ok :
      (key : String) (stack : Stack) (p q : DeploymentInstanceParameter) (w w' : W)
      → encrypt_parameter C key stack p w ≡ (ok q, w')
      → (is_sensitive stack q.parameter_name ≡ true → has_prefix q.value gcm_prefix ≡ true)
        × (decrypt_parameter C key stack q ≡ ok p)
  unfolding encrypt_parameter decrypt_parameter
  encrypt_parameter-eq-ok key stack p q w w' e =
      elim (Bool-cases (is_sensitive stack p.parameter_name)) [
        | inr plain ↦
            let same : p ≡ q = ok-injective (ap (λ r. r.0) (rw (plain, encrypt_parameter) at e)) in
            subst
              (λ (x : DeploymentInstanceParameter).
                (is_sensitive stack x.parameter_name ≡ true → has_prefix x.value gcm_prefix ≡ true)
                × (decrypt_parameter C key stack x ≡ ok p))
              same ((λ h. cc), rw (plain, decrypt_parameter) refl)
        | inl secret ↦
            let (value, w₁, encrypted, e₁) =
              continued-eq-ok (encrypt_text C key p.value w) _
                (rw (secret, encrypt_parameter) at e) in
            let (marked, back) = decrypt_text-encrypt_text key p.value value w w₁ encrypted in
            subst
              (λ (x : DeploymentInstanceParameter).
                (is_sensitive stack x.parameter_name ≡ true → has_prefix x.value gcm_prefix ≡ true)
                × (decrypt_parameter C key stack x ≡ ok p))
              (ok-injective (ap (λ r. r.0) e₁))
              ((λ h. marked), rw (secret, back, decrypt_parameter) refl)
      ]

  -- When the parameters of an instance are encrypted, every sensitive value is marked as encrypted,
  -- and decrypting with the same key and stack gives the parameters back.
  pub encrypt_parameters-eq-ok :
      (key : String) (stack : Stack) (ps qs : DeploymentInstanceParameters) (w w' : W)
      → encrypt_parameters C key stack ps w ≡ (ok qs, w')
      → IsSealed stack qs × (decrypt_parameters C key stack qs ≡ ok ps)
  unfolding encrypt_parameters decrypt_parameters
  encrypt_parameters-eq-ok key stack [] qs w w' e =
      subst (λ xs. IsSealed stack xs × (decrypt_parameters C key stack xs ≡ ok []))
        (ok-injective (ap (λ r. r.0) e)) (tt, refl)
  encrypt_parameters-eq-ok key stack ((i, p) ∷ ps) qs w w' e =
      let (q, w₁, one, e₁) = continued-eq-ok (encrypt_parameter C key stack p w) _ e in
      let (rest, w₂, more, e₂) = continued-eq-ok (encrypt_parameters C key stack ps w₁) _ e₁ in
      let (marked, back) = encrypt_parameter-eq-ok key stack p q w w₁ one in
      let (all, backs) = encrypt_parameters-eq-ok key stack ps rest w₁ w₂ more in
      subst (λ xs. IsSealed stack xs × (decrypt_parameters C key stack xs ≡ ok ((i, p) ∷ ps)))
        (ok-injective (ap (λ r. r.0) e₂)) ((marked, all), rw (back, backs, decrypt_parameters) refl)
