-- ===== src/Cluster/Keys.antt =====
-- pkg/cluster/crypt.go: the keys that encrypt the configuration of a cluster, over the calls of the
-- libraries for sops, for AWS and for age.
use im_manager.Base.{
  ◌≡◌, ◌↔◌, String, not, List, [], ◌∷◌, ◌++◌, ◌==◌, string_eq, if◌then◌else◌, arith,
}
use im_manager.Errdef.{Result, ok, err, errorf, wrap, on_error, ◌>>=◌}

pub record Encryptor : Type 0 where
  pub kms_arn : String
  pub age_key : String

-- `MasterKeysFromArnString`, `ParseX25519Identity` with the recipient's text,
-- `MasterKeysFromRecipients`, and the steps of `EncryptYaml`.
pub record Keys : Type 1 where
  pub MasterKey : Type 0
  pub Branches : Type 0
  pub Tree : Type 0
  pub DataKey : Type 0
  pub master_keys_from_arn : String → List MasterKey
  pub recipient_of : String → Result String
  pub master_keys_from_recipients : String → Result (List MasterKey)
  pub load_plain_file : String → Result Branches
  pub tree_of : Branches → List (List MasterKey) → Tree
  pub generate_data_key : Tree → Result (DataKey × Tree)
  pub encrypt_tree : DataKey → Tree → Result Tree
  pub emit_encrypted_file : Tree → Result String

-- Neither or both of the texts are empty.
unfoldable pub new_encryptor : String → String → Result Encryptor
new_encryptor kms_arn age_key =
    if (if kms_arn == "" then age_key == "" else not (age_key == ""))
    then err (errorf "exactly one of SOPS_KMS_ARN or SOPS_AGE_KEY must be set")
    else ok (record { kms_arn = kms_arn; age_key = age_key })

module _ (K : Keys) where
  unfoldable pub kms_groups : String → List (List K.MasterKey)
  kms_groups kms_arn = if kms_arn == "" then [] else K.master_keys_from_arn kms_arn ∷ []

  unfoldable pub age_groups : String → Result (List (List K.MasterKey))
  age_groups age_key = if age_key == "" then ok [] else (do
    recipient ← on_error (K.recipient_of age_key) (wrap "failed to parse age identity: ")
    age_keys ←
        on_error (K.master_keys_from_recipients recipient) (wrap "failed to get age master keys: ")
    ok (age_keys ∷ []))

  unfoldable pub unless_empty : List (List K.MasterKey) → Result (List (List K.MasterKey))
  unless_empty [] = err (errorf "no encryption key provided: set SOPS_KMS_ARN or SOPS_AGE_KEY")
  unless_empty (g ∷ gs) = ok (g ∷ gs)

  unfoldable pub key_groups : Encryptor → Result (List (List K.MasterKey))
  key_groups e = do age ← age_groups e.age_key; unless_empty (kms_groups e.kms_arn ++ age)

  unfoldable pub encrypt_yaml : String → List (List K.MasterKey) → Result String
  encrypt_yaml plain key_groups = do
    branches ← on_error (K.load_plain_file plain) (wrap "failed to load yaml: ")
    (data_key, tree) ←
        on_error (K.generate_data_key (K.tree_of branches key_groups))
          (λ _. errorf "failed to generate data key: %v")
    encrypted ← on_error (K.encrypt_tree data_key tree) (wrap "failed to encrypt: ")
    on_error (K.emit_encrypted_file encrypted) (wrap "failed to emit encrypted yaml: ")

-- `NewEncryptor` succeeds exactly if one of the two keys is given and the other is not, and keeps
-- both.
pub new_encryptor_iff :
    (kms_arn age_key : String) (e : Encryptor)
    → (new_encryptor kms_arn age_key ≡ ok e) ↔ (
        (e ≡ record { kms_arn = kms_arn; age_key = age_key })
        × (not (kms_arn == "") ≡ (age_key == "")))
unfolding new_encryptor
new_encryptor_iff kms_arn age_key e = ground arith
