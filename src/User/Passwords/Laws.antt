-- ===== src/User/Passwords/Laws.antt =====
-- A password matches the hash that was made of it.
use mathlib.Core.Path.{subst}
use Prim.Native.Char.{Char, char, code}
use text.Mathlib.TextLemmas.{nil-append, cons-append}
use im_manager.Base.{
  ℕ, String, ◌<>◌, ◌≡◌, refl, ap, ◌∙◌, Bool, true, false, not, ◌&&◌, [], ◌∷◌, ◌==◌, nat_eq,
  string_eq, arith,
}
use im_manager.Base.Text.{has_prefix}
use im_manager.Errdef.{ok, wrap, ok-injective}
use im_manager.Action.{on_failure, continued-eq-ok}
use im_manager.User.Passwords.{
  Hashes, prepend, split, is_legacy_hash, parameters, encoded, hash_password, compare_decoded,
  compare_scanned, compare_parts, compare_argon2id_password, compare_passwords,
}

-- No character has this code.
unfoldable pub lacks : ℕ → String → Bool
lacks sep String.[] = true
lacks sep (String.◌∷◌ c s) = not (code c == sep) && lacks sep s

-- The documented behaviour that the code relies on: base64 without padding, whose alphabet has no
-- `$`, is decoded again; Sscanf reads the constants' numbers; the hash has the length asked for.
pub record AreHashes {W : Type 0} (H : Hashes W) : Type 0 where
  pub decoded : (s : String) → H.raw_decode (H.raw_encode s) ≡ ok s
  pub alphabet : (s : String) → lacks 36 (H.raw_encode s) ≡ true
  pub scanned : H.scan_parameters parameters ≡ ok (131072, 3, 4)
  pub sized : (p s : String) (i m t n : ℕ) → H.byte_length (H.id_key p s i m t n) ≡ n

split-lacks : (s : String) → lacks 36 s ≡ true → split 36 s ≡ s ∷ []
unfolding split lacks prepend
split-lacks String.[] h = refl
split-lacks (String.◌∷◌ c s) h = ground (arith, split-lacks s)

abbrev dollar : Char
dollar = char 36 tt

split-dollar : (t : String) → split 36 ("$" <> t) ≡ "" ∷ split 36 t
unfolding split nat_eq
split-dollar t = ap (split 36) (cons-append dollar "" t ∙ ap (String.◌∷◌ dollar) (nil-append t))

split-append : (s t : String) → lacks 36 s ≡ true → split 36 (s <> ("$" <> t)) ≡ s ∷ split 36 t
unfolding split lacks prepend
split-append String.[] t h = rw (nil-append ("$" <> t)) (split-dollar t)
split-append (String.◌∷◌ c s) t h =
    rw (cons-append c s ("$" <> t)) (ground (arith, split-append s t))

has_prefix-append_self : (a s t : String) → has_prefix (a <> s) (a <> t) ≡ has_prefix s t
unfolding has_prefix
has_prefix-append_self String.[] s t = rw (nil-append s, nil-append t) refl
has_prefix-append_self (String.◌∷◌ c a) s t =
    rw (cons-append c a s, cons-append c a t) (ground (arith, has_prefix-append_self a s t))

module _ {W : Type 0} (H : Hashes W) (L : AreHashes H) where
  is_legacy_hash-encoded : (salt hash : String) → is_legacy_hash (encoded H salt hash) ≡ false
  unfolding is_legacy_hash encoded has_prefix
  is_legacy_hash-encoded salt hash =
      let rest =
        "v=19"
        <> ("$" <> (parameters <> ("$" <> (H.raw_encode salt <> ("$" <> H.raw_encode hash))))) in
      ap not (
        has_prefix-append_self "$" ("argon2id" <> ("$" <> rest)) "argon2id$"
        ∙ has_prefix-append_self "argon2id" ("$" <> rest) "$"
        ∙ has_prefix-append_self "$" rest "")

  split-encoded :
      (salt hash : String)
      → split 36 (encoded H salt hash)
        ≡ "" ∷ "argon2id" ∷ "v=19" ∷ parameters ∷ H.raw_encode salt ∷ H.raw_encode hash ∷ []
  unfolding encoded lacks nat_eq
  split-encoded salt hash =
      split-dollar _
      ∙ ap (◌∷◌ "") (
          split-append "argon2id" _ refl
          ∙ ap (◌∷◌ "argon2id") (
              split-append "v=19" _ refl
              ∙ ap (◌∷◌ "v=19") (
                  split-append parameters _ refl
                  ∙ ap (◌∷◌ parameters) (
                      split-append (H.raw_encode salt) (H.raw_encode hash) (L.alphabet salt)
                      ∙ ap (◌∷◌ (H.raw_encode salt))
                          (split-lacks (H.raw_encode hash) (L.alphabet hash))))))

  compare_passwords-encoded :
      (password salt : String)
      → compare_passwords H (encoded H salt (H.id_key password salt 3 131072 4 32)) password
        ≡ ok true
  unfolding compare_passwords compare_argon2id_password compare_parts compare_scanned
      compare_decoded
  compare_passwords-encoded password salt =
      let hash = H.id_key password salt 3 131072 4 32 in
      rw
        (
          is_legacy_hash-encoded salt hash,
          compare_argon2id_password,
          split-encoded salt hash,
          L.scanned,
          L.decoded salt,
          L.decoded hash,
          L.sized password salt 3 131072 4 32,
        )
        (ground arith)

  -- A password that was hashed matches its hash.
  pub compare_passwords-hash_password :
      (password hash : String) (w w' : W)
      → hash_password H password w ≡ (ok hash, w')
      → compare_passwords H hash password ≡ ok true
  unfolding hash_password
  compare_passwords-hash_password password hash w w' e =
      let (salt, w₁, read, e₁) =
        continued-eq-ok (on_failure (H.read_random 16) (wrap "failed to generate salt: ") w) _ e in
      subst (λ h. compare_passwords H h password ≡ ok true) (ok-injective (ap (λ r. r.0) e₁))
        (compare_passwords-encoded password salt)
