-- ===== src/Instance/Encryption.antt =====
-- pkg/instance/crypt.go, and the parameters that pkg/instance/repository.go encrypts and decrypts.
pub mod Laws
use Prim.Native.Char.{Char, code}
use im_manager.Base.{
  ℕ, zero, suc, String, ◌<>◌, Bool, true, false, Option, none, some, List, [], ◌∷◌, ◌++◌, map, ltb,
  if◌then◌else◌, ◌≡◌,
}
use im_manager.Base.Dict.{Dict, get}
use im_manager.Base.Lists.{length}
use im_manager.Base.Text.{has_prefix}
use im_manager.Errdef.{Error, Result, ok, err, errorf, on_error}
use im_manager.Action.{Action, pure, lift, ◌>>=◌, on_failure}
use im_manager.Model.{DeploymentInstance, DeploymentInstanceParameter, DeploymentInstanceParameters}
use im_manager.Stack.{Stack}

-- crypto/aes, crypto/cipher, crypto/rand and encoding/base64. `read_full` fills a slice of that
-- length with random bytes.
pub record Ciphers (W : Type 0) : Type 1 where
  pub Byte : Type 0
  pub byte : ℕ → Byte
  pub Block : Type 0
  pub Gcm : Type 0
  pub bytes_of : String → List Byte
  pub string_of : List Byte → String
  pub encode_to_string : List Byte → String
  pub decode_string : String → Result (List Byte)
  pub new_cipher : List Byte → Result Block
  pub new_gcm : Block → Result Gcm
  pub nonce_size : Gcm → ℕ
  pub seal : Gcm → List Byte → List Byte → List Byte
  pub open' : Gcm → List Byte → List Byte → Result (List Byte)
  pub cfb_key_stream : Block → List Byte → List Byte → List Byte
  pub read_full : ℕ → Action W (List Byte)

-- The documented behaviour that the code relies on.
pub record AreCiphers {W : Type 0} (C : Ciphers W) : Type 0 where
  pub bytes_back : (s : String) → C.string_of (C.bytes_of s) ≡ s
  pub decoded : (b : List C.Byte) → C.decode_string (C.encode_to_string b) ≡ ok b
  pub opened :
      (g : C.Gcm) (nonce plain : List C.Byte) → C.open' g nonce (C.seal g nonce plain) ≡ ok plain
  pub filled : (n : ℕ) (b : List C.Byte) (w w' : W) → C.read_full n w ≡ (ok b, w') → length b ≡ n

-- cipherText[:n] and cipherText[n:]
unfoldable pub first : {A : Type 0} → ℕ → List A → List A
first zero b = []
first (suc n) [] = []
first (suc n) (x ∷ b) = x ∷ first n b

unfoldable pub after : {A : Type 0} → ℕ → List A → List A
after zero b = b
after (suc n) [] = []
after (suc n) (x ∷ b) = after n b

-- text[n:]
unfoldable pub drop_text : ℕ → String → String
drop_text zero s = s
drop_text (suc n) String.[] = String.[]
drop_text (suc n) (String.◌∷◌ c s) = drop_text n s

abbrev pub gcm_prefix : String
gcm_prefix = "v2:"

-- The static initialisation vector of the older rows.
abbrev pub iv : List ℕ
iv = 83 ∷ 108 ∷ 97 ∷ 118 ∷ 97 ∷ 32 ∷ 85 ∷ 107 ∷ 114 ∷ 97 ∷ 105 ∷ 110 ∷ 105 ∷ 33 ∷ 33 ∷ 33 ∷ []

-- `stack.Parameters[name].Sensitive`: the zero value for a missing name.
unfoldable pub is_sensitive : Stack → String → Bool
is_sensitive stack name = elim (get stack.parameters name) [ none ↦ false | some sp ↦ sp.sensitive ]

module _ {W : Type 0} (C : Ciphers W) where
  unfoldable pub gcm_of : String → Result C.Gcm
  gcm_of key = elim (C.new_cipher (C.bytes_of key)) [
    | err e ↦ err (errorf "failed to create AES cipher: %v")
    | ok block ↦ on_error (C.new_gcm block) (λ _. errorf "failed to create GCM: %v")
  ]

  unfoldable pub encrypt_text : String → String → Action W String
  encrypt_text key text = do
    gcm ← lift (gcm_of key)
    nonce ← on_failure (C.read_full (C.nonce_size gcm)) (λ _. errorf "failed to generate nonce: %v")
    pure (gcm_prefix <> C.encode_to_string (nonce ++ C.seal gcm nonce (C.bytes_of text)))

  -- What follows the creation of the cipher.
  unfoldable pub open_sealed : C.Gcm → List C.Byte → Result String
  open_sealed gcm cipher_text =
      if ltb (length cipher_text) (C.nonce_size gcm)
      then err (errorf "ciphertext too short")
      else elim (C.open' gcm (first (C.nonce_size gcm) cipher_text)
          (after (C.nonce_size gcm) cipher_text)) [
            | err e ↦ err (errorf "failed to decrypt: %v")
            | ok plain ↦ ok (C.string_of plain)
          ]

  unfoldable pub decrypt_gcm : String → String → Result String
  decrypt_gcm key encoded = elim (C.decode_string encoded) [
    | err e ↦ err (errorf "failed to base64 decode: %v")
    | ok cipher_text ↦ elim (gcm_of key) [ err e ↦ err e | ok gcm ↦ open_sealed gcm cipher_text ]
  ]

  unfoldable pub decrypt_cfb : String → String → Result String
  decrypt_cfb key encoded = elim (C.decode_string encoded) [
    | err e ↦ err e
    | ok cipher_text ↦ elim (C.new_cipher (C.bytes_of key)) [
      | err e ↦ err e
      | ok block ↦ ok (C.string_of (C.cfb_key_stream block (map C.byte iv) cipher_text))
    ]
  ]

  unfoldable pub decrypt_text : String → String → Result String
  decrypt_text key text =
      if has_prefix text gcm_prefix
      then decrypt_gcm key (drop_text 3 text)
      else decrypt_cfb key text

  -- One round of the loop: the parameter is looked up by its own name.
  unfoldable pub encrypt_parameter :
      String → Stack → DeploymentInstanceParameter → Action W DeploymentInstanceParameter
  encrypt_parameter key stack p =
      if is_sensitive stack p.parameter_name
      then (do value ← encrypt_text key p.value; pure (record p { value = value }))
      else pure p

  unfoldable pub encrypt_parameters :
      String → Stack → DeploymentInstanceParameters → Action W DeploymentInstanceParameters
  encrypt_parameters key stack [] = pure []
  encrypt_parameters key stack ((i, p) ∷ ps) = do
    q ← encrypt_parameter key stack p
    qs ← encrypt_parameters key stack ps
    pure ((i, q) ∷ qs)

  unfoldable pub decrypt_parameter :
      String → Stack → DeploymentInstanceParameter → Result DeploymentInstanceParameter
  decrypt_parameter key stack p =
      if is_sensitive stack p.parameter_name
      then elim (decrypt_text key p.value) [
        | err e ↦ err e
        | ok value ↦ ok (record p { value = value })
      ]
      else ok p

  unfoldable pub decrypt_parameters :
      String → Stack → DeploymentInstanceParameters → Result DeploymentInstanceParameters
  decrypt_parameters key stack [] = ok []
  decrypt_parameters key stack ((i, p) ∷ ps) = elim (decrypt_parameter key stack p) [
    | err e ↦ err e
    | ok q ↦ elim (decrypt_parameters key stack ps) [ err e ↦ err e | ok qs ↦ ok ((i, q) ∷ qs) ]
  ]
