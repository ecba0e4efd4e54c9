-- ===== src/Tests/Accounts.antt =====
-- One account, whose hash carries its password.
use im_manager.Base.Text.{has_prefix}
use im_manager.Database.Repository.{plainly, found}
use Prim.Native.Char.{char, code}
use text.Mathlib.TextEquality.{Char-path}
use im_manager.Base.{
  ◌*◌, ◌^◌, ◌<◌, ◌≤◌, ℕ, zero, suc, String, ◌≡◌, refl, ap, ◌∙◌, true, false, none, some, [], ◌∷◌,
  ◌==◌, string_eq, nat_eq, if◌then◌else◌, arith, Bool-cases, inl, inr,
}
use im_manager.Errdef.{ok, err}
use im_manager.Action.{pure}
use im_manager.Model.{User}
use im_manager.Database.Tables.{done, record_not_found}
use im_manager.User.Repository
use im_manager.User.Repository.{UserTables, find_by_password_reset_token, unless_failed}
use im_manager.User.Passwords.{
  Hashes, hash_password, compare_passwords, encoded, is_legacy_hash, compare_argon2id_password,
  compare_parts, split, prepend, compare_scanned, compare_decoded,
}
use im_manager.User.Passwords.Laws.{AreHashes, lacks, compare_passwords-hash_password}
use im_manager.User.Service.{
  Outside, new_user, no_match, has_expired, with_password, sign_in, reset_password, reset_found,
  or_no_match, admitted,
}
use im_manager.User.Service.Laws.{IsStored, sign_in-eq-ok, sign_in-no_match, reset_password-eq-ok}

-- `n` marks before a text, and how many there are.
marked : ℕ → String → String
marked zero s = String.◌∷◌ (char 98 tt) s
marked (suc n) s = String.◌∷◌ (char 97 tt) (marked n s)

marks : String → ℕ
marks String.[] = 0
marks (String.◌∷◌ c s) = let rest = marks s in if code c == 97 then suc rest else 0

marks-marked : (n : ℕ) (s : String) → marks (marked n s) ≡ n
unfolding marks marked nat_eq
marks-marked zero s = refl
marks-marked (suc n) s = ap suc (marks-marked n s)

-- A text without `$` for each text.
escaped : String → String
escaped String.[] = String.[]
escaped (String.◌∷◌ c s) =
    let rest = escaped s in
    if code c == 36
    then String.◌∷◌ (char 97 tt) (String.◌∷◌ (char 98 tt) rest)
    else String.◌∷◌ (char 98 tt) (String.◌∷◌ c rest)

unescaped : String → String
unescaped String.[] = String.[]
unescaped (String.◌∷◌ m String.[]) = String.[]
unescaped (String.◌∷◌ m (String.◌∷◌ c s)) =
    let rest = unescaped s in
    if code m == 97 then String.◌∷◌ (char 36 tt) rest else String.◌∷◌ c rest

unescaped-escaped : (s : String) → unescaped (escaped s) ≡ s
unfolding escaped unescaped nat_eq
unescaped-escaped String.[] = refl
unescaped-escaped (String.◌∷◌ c s) = elim (Bool-cases (code c == 36)) [
  | inl dollar ↦ rw dollar (
      ap (String.◌∷◌ (char 36 tt)) (unescaped-escaped s)
      ∙ ap (λ d. String.◌∷◌ d s) (Char-path (char 36 tt) c (ground arith)))
  | inr other ↦ rw other (ap (String.◌∷◌ c) (unescaped-escaped s))
]

lacks-escaped : (s : String) → lacks 36 (escaped s) ≡ true
unfolding escaped lacks
lacks-escaped String.[] = refl
lacks-escaped (String.◌∷◌ c s) = ground (arith, lacks-escaped s)

abbrev hashes : Hashes (Unit {0})
hashes = record {
  read_random = λ n. pure "salt";
  id_key = λ p s i m t n. marked n p;
  scrypt_key = λ p s. ok p;
  raw_encode = escaped;
  raw_decode = λ s. ok (unescaped s);
  hex_decode = λ s. ok s;
  scan_parameters = λ s. ok (131072, 3, 4);
  byte_length = marks;
}

hashes-AreHashes : AreHashes hashes
hashes-AreHashes = record {
  decoded = λ s. ap ok (unescaped-escaped s);
  alphabet = lacks-escaped;
  scanned = refl;
  sized = λ p s i m t n. marks-marked n p;
}

abbrev hash : String
hash = encoded hashes "salt" (marked 32 "secret")

hash-secret : hash_password hashes "secret" tt ≡ (ok hash, tt)
unfolding hash_password
hash-secret = refl

compare_passwords-hash_password_example : compare_passwords hashes hash "secret" ≡ ok true
compare_passwords-hash_password_example =
    compare_passwords-hash_password hashes hashes-AreHashes "secret" hash tt tt hash-secret

abbrev account : User
account = record (new_user "a@im.org" "e" hash) {
  id = 5;
  validated = true;
  password_token = some "t";
  password_token_ttl = 200;
}

abbrev accounts : UserTables (Unit {0})
accounts = record {
  save_user = λ u w. (done u, w);
  create_user = λ u w. (done u, w);
  all_users = λ w. done (account ∷ []);
  first_by_email = λ email w. if email == "a@im.org" then done account else record_not_found;
  first_by_email_token = λ token w. record_not_found;
  first_by_password_token = λ token w. if token == "t" then done account else record_not_found;
  first_or_create = λ u w. (done u, w);
  first_by_id = λ id w. record_not_found;
  delete_user = λ id w. (done 0, w);
  update_user = λ u email password w. (done u, w);
  reset_user =
      λ u password token w. (done (record u { password = password; password_token = token }), w);
}

abbrev outside : Outside (Unit {0})
outside = record {
  send_mail = λ to subject body. pure tt;
  new_uuid = pure "uuid";
  random_password = pure "random";
  random_token = pure "token";
  now = λ w. 100000000000;
}

signed_in :
    sign_in accounts hashes outside "https://im" 900 "a@im.org" "secret" tt ≡ (ok account, tt)
unfolding sign_in or_no_match Repository.find_by_email found string_eq compare_passwords
    is_legacy_hash has_prefix encoded escaped unescaped nat_eq marked marks
    compare_argon2id_password compare_parts split prepend compare_scanned compare_decoded admitted
signed_in = refl

sign_in-eq-ok_example :
    (s : User) × (accounts.first_by_email "a@im.org" tt ≡ done s)
    × (compare_passwords hashes s.password "secret" ≡ ok true)
    × (s.validated ≡ true)
sign_in-eq-ok_example =
    sign_in-eq-ok accounts hashes outside "https://im" 900 "a@im.org" "secret" account tt tt
      signed_in

sign_in-no_match_example :
    (accounts.first_by_email "b@im.org" tt ≡ record_not_found
      → sign_in accounts hashes outside "https://im" 900 "b@im.org" "secret" tt
        ≡ (err no_match, tt))
    × ((s : User)
        → accounts.first_by_email "b@im.org" tt ≡ done s
        → compare_passwords hashes s.password "secret" ≡ ok false
        → sign_in accounts hashes outside "https://im" 900 "b@im.org" "secret" tt
          ≡ (err no_match, tt))
sign_in-no_match_example =
    sign_in-no_match accounts hashes outside "https://im" 900 "b@im.org" "secret" tt

abbrev cleared : User
cleared = record account { password_token = none }

token_used : reset_password accounts hashes outside "https://im" 900 "t" "" tt ≡ (ok cleared, tt)
unfolding reset_password find_by_password_reset_token plainly found string_eq reset_found
    has_expired with_password Repository.reset_password unless_failed
token_used = refl

reset_password-eq-ok_example :
    (s : User) × (accounts.first_by_password_token "t" tt ≡ done s)
    × (s.password_token_ttl < 2 ^ 63)
    × (100000000000 ≤ s.password_token_ttl * 10 ^ 9)
    × ((hash : String) × (v : Unit {0}) × IsStored accounts hashes outside "https://im" 900 s ""
          hash tt v
        × (accounts.reset_user (record s { password = hash }) hash none v ≡ (done cleared, tt)))
reset_password-eq-ok_example =
    reset_password-eq-ok accounts hashes outside "https://im" 900 "t" "" cleared tt tt token_used
