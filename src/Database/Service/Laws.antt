-- ===== src/Database/Service/Laws.antt =====
-- What the service promises of locks, names, downloads and logged commands.
use mathlib.Core.Path.{subst}
use im_manager.Base.{
  ℕ, ◌<◌, ◌≡◌, refl, sym, ap, ◌∙◌, String, ◌<>◌, Bool, true, false, Option, none, some, List, [],
  ◌∷◌, arith, string_eq, nat_eq, ltb, inl, inr, Bool-cases, All,
}
use im_manager.Base.Text.{
  has_suffix, has_prefix, trim_suffix, has_suffix-append, trim_suffix-append, trim_suffix-absent,
}
use im_manager.Errdef.{ok, ok-injective}
use im_manager.Action.{pure, continued-eq-ok}
use im_manager.Model.{Lock, Database, ExternalDownload}
use im_manager.Database.Tables.{Tables, AreTables, Rows, lock_of}
use im_manager.Database.Repository
use im_manager.Database.Locks.Refinement.{found-eq-ok, lock-eq-ok, find_by_id-eq-ok}
use im_manager.Database.Service.{
  Files, keep_suffix, copy_name, base_name, is_foreign, redact_argument, redact_pg_password,
  find_by_id, lock, ensure_lock, ensure_locked, find_external_download,
}

-- No argument of the command that is logged shows a password.
pub redact_pg_password-hides :
    (command : List String)
    → All
        (λ a. has_prefix a "PGPASSWORD=" ≡ true → a ≡ "PGPASSWORD=*****")
        (redact_pg_password command)
unfolding redact_pg_password redact_argument
redact_pg_password-hides [] = tt
redact_pg_password-hides (a ∷ command) = ((λ h. ground arith), redact_pg_password-hides command)

keep_suffix-has_suffix :
    (t source name : String)
    → has_suffix source t ≡ true
    → has_suffix (keep_suffix t source name) t ≡ true
unfolding keep_suffix
keep_suffix-has_suffix t source name h = ground (arith, has_suffix-append name t)

keep_suffix-absent :
    (t source name : String) → has_suffix source t ≡ false → keep_suffix t source name ≡ name
unfolding keep_suffix
keep_suffix-absent t source name h = ground arith

-- A copy of a dump keeps its format: its name ends in `.sql.gz` if the source's does, and otherwise
-- in `.pgc` if the source's does.
pub copy_name-has_suffix :
    (source name : String)
    → (has_suffix source ".sql.gz" ≡ true → has_suffix (copy_name source name) ".sql.gz" ≡ true)
      × (has_suffix source ".sql.gz" ≡ false
          → has_suffix source ".pgc" ≡ true
          → has_suffix (copy_name source name) ".pgc" ≡ true)
unfolding copy_name
copy_name-has_suffix source name = (
  (λ h. keep_suffix-has_suffix ".sql.gz" source (keep_suffix ".pgc" source name) h),
  λ n h.
      ap (λ s. has_suffix s ".pgc")
        (keep_suffix-absent ".sql.gz" source (keep_suffix ".pgc" source name) n)
      ∙ keep_suffix-has_suffix ".pgc" source name h,
)

-- The name of a dump without its ending.
pub base_name-append :
    (stem : String)
    → has_suffix stem ".sql.gz" ≡ false
    → (base_name (stem <> ".pgc") ≡ stem)
      × (has_suffix (stem <> ".sql.gz") ".pgc" ≡ false → base_name (stem <> ".sql.gz") ≡ stem)
unfolding base_name
base_name-append stem plain = (
  ap (λ s. trim_suffix s ".sql.gz") (trim_suffix-append stem ".pgc")
      ∙ trim_suffix-absent stem ".sql.gz" plain,
  λ h.
      ap (λ s. trim_suffix s ".sql.gz") (trim_suffix-absent (stem <> ".sql.gz") ".pgc" h)
      ∙ trim_suffix-append stem ".sql.gz",
)

-- The lock of a user and an instance on a database.
abbrev pub key : Database → ℕ → ℕ → Lock
key d i u = record { database_id = d.id; instance_id = i; user_id = u }

module _ {W : Type 0} (T : Tables W) (rows : W → Rows) (L : AreTables T rows) (S : Files W) where
  -- A download that is found has that id, and has not expired at the time of the query.
  pub find_external_download-valid :
      (uuid : String) (w w' : W) (d : ExternalDownload)
      → find_external_download T S uuid w ≡ (ok d, w')
      → (d.uuid ≡ uuid) × (T.now w' < d.expiration)
  unfolding find_external_download Repository.find_external_download
  find_external_download-valid uuid w w' d e =
      let (_, w₁, purged, rest) = continued-eq-ok (Repository.purge_external_download T w) _ e in
      let condition : ExternalDownload → Bool = λ x. ltb (T.now w₁) x.expiration in
      let (named, met) =
        L.first_download_done condition uuid w₁ d
          (found-eq-ok _ (T.first_download condition uuid w₁) (ap (λ r. r.0) rest)) in
      (named, subst (λ v. T.now v < d.expiration) (ap (λ r. r.1) rest) (ground arith))

  returned :
      (d r d' : Database) (i u : ℕ) (s t : Bool) (v w : W)
      → r.lock ≡ some (key d i u)
      → lock_of (rows v d.id) ≡ some (key d i u)
      → pure {A = Database × Bool} (r, s) v ≡ (ok (d', t), w)
      → (d'.lock ≡ some (key d i u)) × (lock_of (rows w d.id) ≡ some (key d i u))
  returned d r d' i u s t v w mine held e =
      let same : r ≡ d' = ap (λ p. p.0) (ok-injective (ap (λ p. p.0) e)) in
      (
        subst (λ (x : Database). x.lock ≡ some (key d i u)) same mine,
        subst (λ x. lock_of (rows x d.id) ≡ some (key d i u)) (ap (λ p. p.1) e) held,
      )

  own-key :
      (d : Database) (l : Lock) (i u : ℕ)
      → l.database_id ≡ d.id
      → is_foreign l i u ≡ false
      → l ≡ key d i u
  unfolding is_foreign
  own-key d l i u keyed mine = ground arith

  ensure_lock-eq-ok :
      (i u : ℕ) (d d' : Database) (l : Option Lock) (t : Bool) (w w' : W)
      → lock_of (rows w d.id) ≡ l
      → ((k : Lock) → l ≡ some k → k.database_id ≡ d.id)
      → d.lock ≡ l
      → ensure_lock T S i u d l w ≡ (ok (d', t), w')
      → (d'.lock ≡ some (key d i u)) × (lock_of (rows w' d.id) ≡ some (key d i u))
  unfolding ensure_lock find_by_id lock
  ensure_lock-eq-ok i u d d' none t w w' now' keyed same e =
      let (l, w₁, locked, e₁) = continued-eq-ok (lock T S d.id i u w) _ e in
      let (r, w₂, read, e₂) = continued-eq-ok (find_by_id T S d.id w₁) _ e₁ in
      let (old, there, made, new) = lock-eq-ok T rows L d.id i u w w₁ l locked in
      let (row, still) = find_by_id-eq-ok T rows L d.id w₁ w₂ r read in
      let locked' : lock_of (rows w₁ d.id) ≡ some (key d i u) = ground (arith, new.1 d.id, there) in
      let mine : r.lock ≡ some (key d i u) = ap lock_of (sym row) ∙ locked' in
      returned d r d' i u false t w₂ w' mine (ap (λ v. lock_of (rows v d.id)) still ∙ locked') e₂
  ensure_lock-eq-ok i u d d' (some l) t w w' now' keyed same e =
      elim (Bool-cases (is_foreign l i u)) [
        | inl foreign ↦ cc (rw (foreign, ensure_lock) at e)
        | inr mine ↦
            let own : some l ≡ some (key d i u) = ap some (own-key d l i u (keyed l refl) mine) in
            returned d d d' i u true t w w' (same ∙ own) (now' ∙ own) (rw (mine, ensure_lock) at e)
      ]

  -- When `EnsureLocked` succeeds for a database as it is stored, the database is locked by this user
  -- and instance, both in the table and in the record that is returned.
  pub ensure_locked-eq-ok :
      (i u : ℕ) (d d' : Database) (t : Bool) (w w' : W)
      → rows w d.id ≡ some d
      → ((k : Lock) → d.lock ≡ some k → k.database_id ≡ d.id)
      → ensure_locked T S d i u w ≡ (ok (d', t), w')
      → (d'.lock ≡ some (key d i u)) × (lock_of (rows w' d.id) ≡ some (key d i u))
  unfolding ensure_locked
  ensure_locked-eq-ok i u d d' t w w' current keyed e =
      ensure_lock-eq-ok i u d d' d.lock t w w' (ap lock_of current) keyed refl e
