-- ===== src/Tests/Databases.antt =====
-- Databases in a table that is a function from their ids, and objects in a store that takes any key.
use mathlib.Core.Path.{subst}
use im_manager.Base.{
  ℕ, String, ◌<>◌, ◌≡◌, ◌≢◌, refl, sym, ap, false, Option, none, some, List, [], ◌∷◌, ◌==◌,
  string_eq, nat_eq, Bool, true, ◌&&◌, Bool-cases, inl, inr, if◌then◌else◌, arith, All,
}
use im_manager.Base.Text.{has_suffix}
use im_manager.Errdef.{Error, Result, ok, err}
use im_manager.Action.{pure}
use im_manager.Model.{Lock, Database, ExternalDownload}
use im_manager.Database.Tables.{
  Answer, done, record_not_found, duplicated_key, Tables, AreTables, Rows, with_lock, lock_of,
}
use im_manager.Database.Repository
use im_manager.Database.Repository.{find_by_id, delete, lock, unlock}
use im_manager.Database.Locks.{
  Request, lock_request, unlock_request, delete_request, released, after, after_all, LockStep,
}
use im_manager.Database.Locks.Refinement.{after-LockStep, after_all-keeps}
use im_manager.Database.Service
use im_manager.Database.Service.{
  Files, blank, redact_pg_password, copy_name, base_name, find_external_download, ensure_locked,
  finalize_save,
}
use im_manager.Database.Service.Laws.{base_name-append, ensure_locked-eq-ok}
use im_manager.Database.Saving.{same_lock, finalize_save-eq-ok}

unfoldable pub row_at : ℕ → Option Database → Answer Database
row_at id none = record_not_found
row_at id (some d) = done d

abbrev pub set : ℕ → Option Database → Rows → Rows
set id d w j = if j == id then d else w j

unfoldable pub created_lock : Lock → Option Lock → Rows → Answer Lock × Rows
created_lock l (some k) w = (duplicated_key, w)
created_lock l none w = (done l, λ j. if j == l.database_id then with_lock (some l) (w j) else w j)

unfoldable pub undone : {A : Type 0} → Rows → Result A × Rows → Result A × Rows
undone w (ok a, w') = (ok a, w')
undone w (err e, w') = (err e, w)

abbrev pub link : ExternalDownload
link = record { uuid = "u"; expiration = 200; database_id = 1 }

abbrev pub tables : Tables Rows
tables = record {
  first_database = λ id w. row_at id (w id);
  first_database_by_slug = λ s w. record_not_found;
  databases_of_groups = λ gs w. done [];
  create_database = λ d w. (done d, set d.id (some d) w);
  save_database = λ d w. (done d, set d.id (some d) w);
  update_database_id = λ old new w. (done tt, set new (w old) (set old none w));
  delete_database = λ id w. (done tt, λ j. if j == id then none else w j);
  create_lock = λ l w. created_lock l (lock_of (w l.database_id)) w;
  delete_locks = λ id w. (done 1, λ j. if j == id then with_lock none (w j) else w j);
  downloads_of = λ id w. done [];
  first_download =
      λ condition uuid w. if uuid == "u" && condition link then done link else record_not_found;
  save_download = λ d w. (done tt, w);
  delete_download = λ uuid w. (done tt, w);
  delete_downloads_where = λ condition w. (done tt, w);
  transaction = λ m w. undone w (m w);
  now = λ w. 100;
  new_uuid = λ w. ("u", w);
  make_slug = λ s. s;
}

row_at-done : (id : ℕ) (o : Option Database) (d : Database) → row_at id o ≡ done d → o ≡ some d
unfolding row_at
row_at-done id none d e = cc
row_at-done id (some x) d e = cc

created_lock-done :
    (l l' : Lock) (o : Option Lock) (w w' : Rows)
    → lock_of (w l.database_id) ≡ o
    → created_lock l o w ≡ (done l', w')
    → (l' ≡ l)
      × (lock_of (w l.database_id) ≡ none)
      × ((j : ℕ) → w' j ≡ (if j == l.database_id then with_lock (some l) (w j) else w j))
unfolding created_lock
created_lock-done l l' (some k) w w' now' e = cc
created_lock-done l l' none w w' now' e = (cc, now', λ j. ap (λ r. r.1 j) (sym e))

undone-ok :
    {A : Type 0} (w w' : Rows) (a : A) (r : Result A × Rows)
    → undone w r ≡ (ok a, w')
    → r ≡ (ok a, w')
unfolding undone
undone-ok w w' a (ok b, v) e = e
undone-ok w w' a (err x, v) e = cc

undone-err :
    {A : Type 0} (w w' : Rows) (x : Error) (r : Result A × Rows) → undone w r ≡ (err x, w') → w' ≡ w
unfolding undone
undone-err w w' x (ok b, v) e = cc
undone-err w w' x (err y, v) e = cc

download-valid :
    (condition : ExternalDownload → Bool) (uuid : String) (d : ExternalDownload)
    → (if uuid == "u" && condition link then done link else record_not_found) ≡ done d
    → (d.uuid ≡ uuid) × (condition d ≡ true)
download-valid condition uuid d e = elim (Bool-cases (uuid == "u" && condition link)) [
  | inl met ↦
      let same : link ≡ d = ap (λ a. elim a [ done x ↦ x | _ ↦ link ]) (rw met at e) in
      subst (λ x. (x.uuid ≡ uuid) × (condition x ≡ true)) same (ground arith, ground arith)
  | inr other ↦ cc (rw other at e)
]

pub tables-AreTables : AreTables tables (λ w. w)
tables-AreTables = record {
  first_done = λ id w d e. row_at-done id (w id) d e;
  lock_done = λ l l' w w' e. created_lock-done l l' (lock_of (w l.database_id)) w w' refl e;
  unlock_done = λ id n w w' e j. ap (λ r. r.1 j) (sym e);
  unlock_failed = λ id w w' a e h. absurd (h 1 (ap (λ r. r.0) (sym e)));
  delete_done = λ id w w' e j. ap (λ r. r.1 j) (sym e);
  download_done = λ uuid w w' e j. ap (λ r. r.1 j) (sym e);
  first_download_done = λ condition uuid w d e. download-valid condition uuid d e;
  committed = λ m w w' a e. undone-ok w w' a (m w) e;
  rolled_back = λ m w w' x e. undone-err w w' x (m w) e;
}

abbrev pub files : Files Rows
files = record {
  bucket = "im";
  parse_path = λ url. ok url;
  copy = λ from to. pure tt;
  move = λ from to. pure tt;
  upload = λ to size. pure tt;
  remove = λ k. pure tt;
  download = λ k. pure tt;
  stream_upload = λ k. pure 9;
}

abbrev held_lock : Lock
held_lock = record { database_id = 1; instance_id = 7; user_id = 5 }

abbrev pub free_dump : Database
free_dump = record blank {
  id = 1;
  name = "sl.pgc";
  group_name = "whoami";
  url = "s3://im/whoami/sl.pgc";
}

abbrev held_dump : Database
held_dump = record free_dump { lock = some held_lock }

abbrev saved_dump : Database
saved_dump = record free_dump { id = 2; name = "x" }

abbrev pub one_row : Database → Rows
one_row d j = if j == 1 then some d else none

steal : List Request
steal = lock_request 1 8 6 ∷ delete_request 1 ∷ unlock_request 2 ∷ []

after-LockStep_example :
    LockStep (one_row held_dump) (after tables (delete_request 1) (one_row held_dump)) none
after-LockStep_example =
    after-LockStep tables (λ w. w) tables-AreTables (delete_request 1) (one_row held_dump)

steal-kept : All (λ r. released r ≢ some 1) steal
unfolding steal
steal-kept = ((λ h. cc), ((λ h. cc), ((λ h. cc), tt)))

after_all-keeps_example : lock_of (after_all tables steal (one_row held_dump) 1) ≡ some held_lock
unfolding nat_eq
after_all-keeps_example =
    after_all-keeps tables (λ w. w) tables-AreTables steal (one_row held_dump) 1 held_lock refl
      steal-kept

found_link :
    find_external_download tables files "u" (one_row free_dump) ≡ (ok link, one_row free_dump)
unfolding find_external_download Repository.purge_external_download Repository.executed
    Repository.plainly Repository.found Repository.find_external_download string_eq
found_link = refl

base_name-append_example :
    (base_name ("sl" <> ".pgc") ≡ "sl")
    × (has_suffix ("sl" <> ".sql.gz") ".pgc" ≡ false → base_name ("sl" <> ".sql.gz") ≡ "sl")
unfolding has_suffix string_eq
base_name-append_example = base_name-append "sl" refl

abbrev after_ensuring : Rows
after_ensuring = (ensure_locked tables files free_dump 7 5 (one_row free_dump)).1

ensured :
    ensure_locked tables files free_dump 7 5 (one_row free_dump)
    ≡ (ok (held_dump, false), after_ensuring)
unfolding ensure_locked created_lock row_at undone Service.ensure_lock Service.lock lock find_by_id
    Repository.found nat_eq Repository.lock_free Repository.is_held Repository.executed
    Repository.plainly Service.find_by_id
ensured = refl

ensure_locked-eq-ok_example :
    (held_dump.lock ≡ some held_lock) × (lock_of (after_ensuring 1) ≡ some held_lock)
unfolding nat_eq
ensure_locked-eq-ok_example =
    ensure_locked-eq-ok tables (λ w. w) tables-AreTables files 7 5 free_dump held_dump false
      (one_row free_dump) after_ensuring refl (λ k h. cc) ensured

abbrev after_saving : Rows
after_saving = (finalize_save tables files held_dump saved_dump (one_row held_dump)).1

abbrev replaced : Database
replaced = record free_dump { slug = "whoami/sl.pgc" }

finalized :
    finalize_save tables files held_dump saved_dump (one_row held_dump)
    ≡ (ok replaced, after_saving)
unfolding finalize_save created_lock row_at undone Service.key_of Service.logged delete find_by_id
    Repository.found unlock Repository.executed Repository.plainly nat_eq Repository.delete_unlocked
    Repository.delete_rows Repository.delete_downloads Repository.update Repository.update_id
    Service.relock lock Repository.update_slug Repository.is_held Repository.lock_free
    Repository.rows_affected Service.trim_slash
finalized = refl

finalize_save-eq-ok_example :
    (replaced.id ≡ 1)
    × ((l : Lock)
        → held_dump.lock ≡ some l
        → lock_of (after_saving 1) ≡ some (same_lock held_dump l))
finalize_save-eq-ok_example =
    finalize_save-eq-ok tables (λ w. w) tables-AreTables files held_dump saved_dump replaced
      (one_row held_dump) after_saving finalized
