-- ===== src/User/Passwords.antt =====
-- The hashes of passwords, in pkg/user/service.go. A slice of bytes is a text.
pub mod Laws
use Prim.Native.Char.{Char, code}
use im_manager.Base.{
  ℕ, String, ◌<>◌, ◌≡◌, Bool, true, false, not, List, [], ◌∷◌, ◌==◌, nat_eq, string_eq,
  if◌then◌else◌,
}
use im_manager.Base.Decimal.{decimal}
use im_manager.Base.Text.{has_prefix}
use im_manager.Errdef.{Error, Result, ok, err, errorf, wrap}
use im_manager.Action.{Action, pure, ◌>>=◌, on_failure}

-- golang.org/x/crypto, crypto/rand, encoding/base64, encoding/hex, and fmt.Sscanf for the three
-- numbers of `m=%d,t=%d,p=%d`. `id_key` takes the password, the salt, the iterations, the memory, the
-- threads and the length.
pub record Hashes (W : Type 0) : Type 0 where
  pub read_random : ℕ → Action W String
  pub id_key : String → String → ℕ → ℕ → ℕ → ℕ → String
  pub scrypt_key : String → String → Result String
  pub raw_encode : String → String
  pub raw_decode : String → Result String
  pub hex_decode : String → Result String
  pub scan_parameters : String → Result (ℕ × ℕ × ℕ)
  pub byte_length : String → ℕ

-- strings.Split, at the character with this code.
unfoldable pub prepend : Char → List String → List String
prepend c [] = String.◌∷◌ c String.[] ∷ []
prepend c (s ∷ ss) = String.◌∷◌ c s ∷ ss

unfoldable pub split : ℕ → String → List String
split sep String.[] = String.[] ∷ []
split sep (String.◌∷◌ c s) =
    let rest = split sep s in if code c == sep then String.[] ∷ rest else prepend c rest

unfoldable pub is_legacy_hash : String → Bool
is_legacy_hash stored_password = not (has_prefix stored_password "$argon2id$")

-- `$m=%d,t=%d,p=%d` of the constants.
abbrev pub parameters : String
parameters = "m=131072,t=3,p=4"

module _ {W : Type 0} (H : Hashes W) where
  -- The text of a hash, in parts.
  unfoldable pub encoded : String → String → String
  encoded salt hash =
      "$"
      <> ("argon2id"
          <> ("$"
              <> ("v=19"
                  <> ("$"
                      <> (parameters
                          <> ("$" <> (H.raw_encode salt <> ("$" <> H.raw_encode hash))))))))

  unfoldable pub hash_password : String → Action W String
  hash_password password = do
    salt ← on_failure (H.read_random 16) (wrap "failed to generate salt: ")
    pure (encoded salt (H.id_key password salt 3 131072 4 32))

  -- The comparison, once the salt and the hash are decoded.
  unfoldable pub compare_decoded : String → ℕ × ℕ × ℕ → Result String → Result String → Result Bool
  compare_decoded password (memory, iterations, threads) (err e) hash =
      err (errorf "failed to decode salt")
  compare_decoded password (memory, iterations, threads) (ok salt) (err e) =
      err (errorf "failed to decode hash")
  compare_decoded password (memory, iterations, threads) (ok salt) (ok hash) =
      ok (H.id_key password salt iterations memory threads (H.byte_length hash) == hash)

  unfoldable pub compare_scanned : String → Result (ℕ × ℕ × ℕ) → String → String → Result Bool
  compare_scanned password (err e) salt hash = err (errorf "invalid argon2id parameters")
  compare_scanned password (ok numbers) salt hash =
      compare_decoded password numbers (H.raw_decode salt) (H.raw_decode hash)

  -- `strings.Split(storedPassword, "$")`, which has six parts.
  unfoldable pub compare_parts : String → List String → Result Bool
  compare_parts password (_ ∷ _ ∷ _ ∷ numbers ∷ salt ∷ hash ∷ []) =
      compare_scanned password (H.scan_parameters numbers) salt hash
  compare_parts password _ = err (errorf "invalid argon2id hash")

  unfoldable pub compare_argon2id_password : String → String → Result Bool
  compare_argon2id_password stored_password supplied =
      compare_parts supplied (split 36 stored_password)

  unfoldable pub compare_legacy_decoded : String → Result String → Result String → Result Bool
  compare_legacy_decoded supplied (err e) salt = err (errorf "failed to decode hash")
  compare_legacy_decoded supplied (ok hash) (err e) = err (errorf "failed to decode salt")
  compare_legacy_decoded supplied (ok hash) (ok salt) = elim (H.scrypt_key supplied salt) [
    | err e ↦ err e
    | ok computed ↦ ok (computed == hash)
  ]

  unfoldable pub compare_legacy_parts : String → List String → Result Bool
  compare_legacy_parts supplied (hash ∷ salt ∷ []) =
      compare_legacy_decoded supplied (H.hex_decode hash) (H.hex_decode salt)
  compare_legacy_parts supplied _ = err (errorf "invalid legacy password hash")

  unfoldable pub compare_legacy_scrypt_password : String → String → Result Bool
  compare_legacy_scrypt_password stored_password supplied =
      compare_legacy_parts supplied (split 46 stored_password)

  unfoldable pub compare_passwords : String → String → Result Bool
  compare_passwords stored_password supplied =
      if is_legacy_hash stored_password
      then compare_legacy_scrypt_password stored_password supplied
      else compare_argon2id_password stored_password supplied
