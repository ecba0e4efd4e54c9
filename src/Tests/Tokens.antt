-- ===== src/Tests/Tokens.antt =====
-- A store of one refresh token.
use mathlib.Core.Bool.{false≢true}
use im_manager.Base.{
  ap, String, ◌≡◌, ◌≢◌, refl, Bool, [], ◌∷◌, ◌==◌, string_eq, nat_eq, if◌then◌else◌,
}
use im_manager.Errdef.{ok}
use im_manager.Action.{pure}
use im_manager.Token.{
  Tokens, TokenCalls, key_of, get_tokens, delete_previous, delete_refresh_token, existed,
  set_refresh_token,
}
use im_manager.Tests.Samples.{member}

abbrev one_key : TokenCalls String
one_key = record {
  set_key = λ k ttl w. (ok tt, k);
  delete_key = λ k w. if w == k then (ok 1, "") else (ok 0, w);
  scan_keys = λ pattern w. (ok (w ∷ []), w);
  generate_access_token = λ u. pure "access";
  generate_refresh_token = λ u ttl remember_me.
      pure (record { signed_string = "refresh"; token_id = "b"; expires_in = ttl });
  validate_refresh_token = λ s. pure (record { id = s; user_id = 5; remember_me = Bool.false });
  parse_uuid = λ s. ok s;
  access_token_expiration = 600;
  refresh_token_expiration = 3600;
  remember_me_expiration = 86400;
}

abbrev rotated : Tokens
rotated = record {
  access_token = "access";
  token_type = "bearer";
  refresh_token = "refresh";
  expires_in = 600;
}

rotated_once : get_tokens one_key member "a" Bool.false "5:a" ≡ (ok rotated, "5:b")
unfolding get_tokens delete_previous string_eq delete_refresh_token key_of existed set_refresh_token
rotated_once = refl

named : ◌≢◌ {A = String} "a" ""
unfolding string_eq
named h = false≢true (ap (λ (s : String). s == "") h)
