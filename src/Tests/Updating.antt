-- ===== src/Tests/Updating.antt =====
-- An instance whose parameters are updated, and parameters that are encrypted by a cipher that only
-- puts a nonce of two bytes in front.
use Prim.Native.Char.{Char, nul}
use im_manager.Base.{
  ap, sym, ◌∙◌, ℕ, zero, suc, String, ◌<>◌, ◌≡◌, refl, some, List, [], ◌∷◌, ◌++◌, true, string_eq,
  nat_eq,
}
use im_manager.Base.Dict.{get, put, has}
use im_manager.Base.Lists.{length, get_elem?, modify, contains}
use im_manager.Errdef.{ok, ok-injective, join_errors}
use im_manager.Action.{pure}
use im_manager.Model.{Deployment, DeploymentInstance, DeploymentInstanceParameters}
use im_manager.Graph.Kahn.{kahn_graphs}
use im_manager.Stack.{Stack}
use im_manager.Stack.Definitions.Database.{dhis2_db}
use im_manager.Stack.Service.{find}
use im_manager.Instance.Links.{
  validate_no_cycles, add_vertices, link_instances, add_edge, companion_of,
  find_instance_by_stack_name, link_companion, link_companions, link_required,
}
use im_manager.Instance.Parameters.{
  reject_consumed_parameters, add_default_parameter_values, consume, consume_required,
  default_parameter, is_consumed, reject_non_existing_parameters, resolve_consumed_parameters,
  resolve_from, resolve_instance, resolve_parameters, take_value, validate_parameter,
  validate_parameters,
}
use im_manager.Instance.Parameters.Resolving.{Resolved}
use im_manager.Instance.Saving.{Repository, names, decrypt_deployment, stacks_by_name}
use im_manager.Instance.Updating.{
  InstanceRows, position_of, find_decrypted_deployment_instance_by_id, reject_other_deployment,
  resolved_at, set_public, supply, update_instance_parameters,
}
use im_manager.Stack
use im_manager.Instance.Saving.Laws.{IsDecrypted}
use im_manager.Instance.Updating.Supplying.{AreSupplied}
use im_manager.Instance.Updating.Laws.{IsUpdated, with_supplied, update_instance_parameters-eq-ok}
use im_manager.Instance.Encryption.{
  Ciphers, AreCiphers, encrypt_parameters, decrypt_parameters, encrypt_parameter, is_sensitive,
  encrypt_text, gcm_of,
}
use im_manager.Instance.Encryption.Laws.{IsSealed, encrypt_parameters-eq-ok}
use im_manager.Tests.Samples.{some_stacks, db, play, supplied}

abbrev rows_of : DeploymentInstance → InstanceRows (List String)
rows_of i = record {
  find_deployment_instance_by_id = λ id. pure i;
  decrypt_deployment_instance = λ i stack. pure i;
  save_instance = λ i stack log. (ok db, log ++ ("saved" ∷ []));
}

abbrev deployed : Repository (List String)
deployed = record {
  find_deployment_by_id = λ id. pure (record play { instances = db ∷ [] });
  decrypt_deployment = λ d by_name. pure d;
  save_instance = λ i stack log. (ok tt, log);
  destroy_instance = λ i log. (ok tt, log);
  delete_deployment_instance = λ i log. (ok tt, log);
}

updated_store :
    update_instance_parameters deployed (rows_of db) kahn_graphs some_stacks 3 13 [] (some true) []
    ≡ (ok db, "saved" ∷ [])
unfolding update_instance_parameters find_decrypted_deployment_instance_by_id find get string_eq
    reject_other_deployment nat_eq reject_consumed_parameters join_errors names decrypt_deployment
    stacks_by_name validate_no_cycles add_vertices modify position_of kahn_graphs link_instances has
    put contains get_elem? add_edge companion_of find_instance_by_stack_name link_companion
    link_companions link_required add_default_parameter_values consume consume_required
    default_parameter is_consumed reject_non_existing_parameters resolve_consumed_parameters
    resolve_from resolve_instance resolve_parameters take_value validate_parameter
    validate_parameters resolved_at set_public supply
updated_store = refl

update_instance_parameters-eq-ok_example :
    (row i : DeploymentInstance) × (known stack : Stack) × (before d : Deployment) × (changed : List
      DeploymentInstance)
    × (g : kahn_graphs.Graph) × (u : DeploymentInstance) × (v₀ v₁ v₂ v : List String) × ((rows_of
            db).find_deployment_instance_by_id
          13 []
        ≡ (ok row, v₀))
    × (Stack.find some_stacks row.stack_name ≡ ok known)
    × ((rows_of db).decrypt_deployment_instance row known v₀ ≡ (ok i, v₁))
    × (i.deployment_id ≡ 3)
    × (reject_consumed_parameters some_stacks i.stack_name (names []) ≡ ok tt)
    × (deployed.find_deployment_by_id 3 v₁ ≡ (ok before, v₂))
    × IsDecrypted deployed kahn_graphs some_stacks before v₂ d v
    × AreSupplied i.parameters [] (with_supplied i [] (some true)).parameters
    × IsUpdated 13
        (with_supplied i [] (some true))
        d.instances
        changed
        (Resolved some_stacks (with_supplied i [] (some true)) u)
    × (validate_no_cycles kahn_graphs some_stacks changed ≡ ok g)
    × (Stack.find some_stacks i.stack_name ≡ ok stack)
    × ((rows_of db).save_instance u stack v ≡ (ok db, "saved" ∷ []))
unfolding names
update_instance_parameters-eq-ok_example =
    update_instance_parameters-eq-ok deployed (rows_of db) kahn_graphs some_stacks 3 13 []
      (some true) db [] ("saved" ∷ []) tt updated_store

characters : String → List Char
characters String.[] = []
characters (String.◌∷◌ c s) = c ∷ characters s

joined : List Char → String
joined [] = String.[]
joined (c ∷ cs) = String.◌∷◌ c (joined cs)

joined-characters : (s : String) → joined (characters s) ≡ s
unfolding joined characters
joined-characters String.[] = refl
joined-characters (String.◌∷◌ c s) = ap (String.◌∷◌ c) (joined-characters s)

characters-joined : (cs : List Char) → characters (joined cs) ≡ cs
unfolding joined characters
characters-joined [] = refl
characters-joined (c ∷ cs) = ap (◌∷◌ c) (characters-joined cs)

abbrev no_bytes : ℕ → List Char
no_bytes zero = []
no_bytes (suc n) = nul ∷ no_bytes n

no_bytes-length : (n : ℕ) → length (no_bytes n) ≡ n
no_bytes-length zero = refl
no_bytes-length (suc n) = ap suc (no_bytes-length n)

abbrev plain_ciphers : Ciphers (Unit {0})
plain_ciphers = record {
  Byte = Char;
  byte = λ n. nul;
  Block = Unit;
  Gcm = Unit;
  bytes_of = characters;
  string_of = joined;
  encode_to_string = joined;
  decode_string = λ s. ok (characters s);
  new_cipher = λ k. ok tt;
  new_gcm = λ b. ok tt;
  nonce_size = λ g. 2;
  seal = λ g nonce plain. plain;
  open' = λ g nonce secret. ok secret;
  cfb_key_stream = λ b v secret. secret;
  read_full = λ n. pure (no_bytes n);
}

plain_ciphers-AreCiphers : AreCiphers plain_ciphers
plain_ciphers-AreCiphers = record {
  bytes_back = joined-characters;
  decoded = λ b. ap ok (characters-joined b);
  opened = λ g nonce plain. refl;
  filled = λ n b w w' e. ap length (sym (ok-injective (ap (λ r. r.0) e))) ∙ no_bytes-length n;
}

abbrev secrets : DeploymentInstanceParameters
secrets =
    ("DATABASE_PASSWORD", supplied "DATABASE_PASSWORD" "dhis")
    ∷ ("DATABASE_NAME", supplied "DATABASE_NAME" "dhis2")
    ∷ []

abbrev sealed : DeploymentInstanceParameters
sealed =
    (
      "DATABASE_PASSWORD",
      supplied "DATABASE_PASSWORD" ("v2:" <> joined (nul ∷ nul ∷ characters "dhis")),
    )
    ∷ ("DATABASE_NAME", supplied "DATABASE_NAME" "dhis2")
    ∷ []

secrets-sealed : encrypt_parameters plain_ciphers "key" dhis2_db secrets tt ≡ (ok sealed, tt)
unfolding encrypt_parameters encrypt_parameter is_sensitive get string_eq encrypt_text gcm_of
secrets-sealed = refl

encrypt_parameters-eq-ok_example :
    IsSealed dhis2_db sealed × (decrypt_parameters plain_ciphers "key" dhis2_db sealed ≡ ok secrets)
encrypt_parameters-eq-ok_example =
    encrypt_parameters-eq-ok plain_ciphers plain_ciphers-AreCiphers "key" dhis2_db secrets sealed tt
      tt secrets-sealed
