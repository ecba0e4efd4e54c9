-- ===== src/Database/Locks/Refinement.antt =====
-- `Lock`, `Unlock` and `Delete` of the repository take the steps of the abstract machine.
use mathlib.Core.Path.{subst}
use im_manager.Base.{
  ℕ, ◌≡◌, ◌≢◌, refl, sym, ap, ◌∙◌, Option, none, some, List, [], ◌∷◌, inl, inr, ◌==◌, nat_eq,
  if◌then◌else◌, All, arith, Bool-cases,
}
use im_manager.Errdef.{Error, ok, err}
use im_manager.Action.{Action, lift, continued, continued-eq-ok, result-cases}
use im_manager.Model.{Lock, Database, ExternalDownload}
use im_manager.Database.Tables.{
  Answer, done, record_not_found, duplicated_key, failed, Tables, AreTables, Rows, with_lock,
  lock_of,
}
use im_manager.Database.Repository.{
  found, plainly, executed, find_by_id, is_held, lock_free, lock, rows_affected, unlock,
  delete_downloads, delete_rows, delete_unlocked, delete,
}
use im_manager.Database.Locks.{
  LockStep, acquire, release, remove, stay, LockStep-keeps, Request, lock_request, unlock_request,
  delete_request, released, after, after_all,
}

pub found-eq-ok : {A : Type 0} (e : Error) (a : Answer A) {b : A} → found e a ≡ ok b → a ≡ done b
unfolding found
found-eq-ok e (done x) h = cc
found-eq-ok e record_not_found h = cc
found-eq-ok e duplicated_key h = cc
found-eq-ok e (failed m) h = cc

-- A statement that succeeds.
pub executed-eq-ok :
    {W A : Type 0} (s : Answer A × W) {b : A} {w : W} → executed s ≡ (ok b, w) → s ≡ (done b, w)
unfolding executed plainly
executed-eq-ok (a, v) h = let same = found-eq-ok _ a (ap (λ r. r.0) h) in cc (same, ap (λ r. r.1) h)

module _ {W : Type 0} (T : Tables W) (rows : W → Rows) (L : AreTables T rows) where
  find_by_id-world : (id : ℕ) (w : W) → (find_by_id T id w).1 ≡ w
  unfolding find_by_id
  find_by_id-world id w = refl

  pub find_by_id-eq-ok :
      (id : ℕ) (w w' : W) (d : Database)
      → find_by_id T id w ≡ (ok d, w')
      → (rows w id ≡ some d) × (w' ≡ w)
  unfolding find_by_id
  find_by_id-eq-ok id w w' d e = (
    L.first_done id w d (found-eq-ok _ (T.first_database id w) (ap (λ r. r.0) e)),
    sym (ap (λ r. r.1) e),
  )

  -- The lock is new, and all that changes.
  abbrev pub Acquires : Lock → W → W → Type 0
  Acquires l w w' =
      (lock_of (rows w l.database_id) ≡ none)
      × ((j : ℕ)
          → rows w' j ≡ (if j == l.database_id then with_lock (some l) (rows w j) else rows w j))

  -- Inside the transaction.
  lock_free-eq-ok :
      (l l' : Lock) (d : Database) (w w' : W)
      → lock_free T l d w ≡ (ok l', w')
      → (l' ≡ l) × Acquires l w w'
  unfolding lock_free
  lock_free-eq-ok l l' d w w' e = elim (Bool-cases (is_held d.lock)) [
    | inl held ↦ cc (rw (held, lock_free) at e)
    | inr free ↦
        let (same, unlocked, set) =
          L.lock_done l l' w w' (executed-eq-ok (T.create_lock l w) (rw (free, lock_free) at e)) in
        (same, (unlocked, set))
  ]

  -- `Lock` returns the lock that it has created.
  pub lock-eq-ok :
      (id i u : ℕ) (w w' : W) (l : Lock)
      → lock T id i u w ≡ (ok l, w')
      → (d : Database) × (rows w id ≡ some d)
        × (l ≡ record { database_id = id; instance_id = i; user_id = u })
        × Acquires (record { database_id = id; instance_id = i; user_id = u }) w w'
  unfolding lock
  lock-eq-ok id i u w w' l e =
      let body = L.committed _ w w' l e in
      let (d, w₁, read, rest) = continued-eq-ok (find_by_id T id w) _ body in
      let (there, same) = find_by_id-eq-ok id w w₁ d read in
      let new : Lock = record { database_id = id; instance_id = i; user_id = u } in
      let (made, set) =
        lock_free-eq-ok new l d w w' (subst (λ v. lock_free T new d v ≡ (ok l, w')) same rest) in
      (d, there, made, set)

  -- A transaction that fails changes nothing.
  failed-LockStep :
      {A : Type 0} (m : Action W A) (w w' : W) (x : Error) {o : Option ℕ}
      → T.transaction m w ≡ (err x, w')
      → LockStep (rows w) (rows w') o
  failed-LockStep m w w' x e = stay (λ j. ap (λ v. rows v j) (L.rolled_back m w w' x e))

  lock-LockStep : (id i u : ℕ) (w : W) → LockStep (rows w) (rows (lock T id i u w).1) none
  unfolding lock
  lock-LockStep id i u w = elim (result-cases (lock T id i u w)) [
    | inl (l, w', e) ↦
        subst (λ v. LockStep (rows w) (rows v) none) (sym (ap (λ r. r.1) e))
          (let (d, there, made, new) = lock-eq-ok id i u w w' l e in acquire _ new.0 new.1)
    | inr (x, w', e) ↦
        subst (λ v. LockStep (rows w) (rows v) none) (sym (ap (λ r. r.1) e))
          (failed-LockStep _ w w' x e)
  ]

  unlocked-LockStep :
      (id : ℕ) (w : W) (p : Answer ℕ × W)
      → T.delete_locks id w ≡ p
      → LockStep (rows w) (rows (continued (executed p) (λ n. lift (rows_affected n))).1) (some id)
  unfolding executed plainly found
  unlocked-LockStep id w (done n, w') e = release id (L.unlock_done id n w w' e)
  unlocked-LockStep id w (record_not_found, w') e =
      stay (λ j. ap (λ v. rows v j) (L.unlock_failed id w w' record_not_found e (λ n h. cc)))
  unlocked-LockStep id w (duplicated_key, w') e =
      stay (λ j. ap (λ v. rows v j) (L.unlock_failed id w w' duplicated_key e (λ n h. cc)))
  unlocked-LockStep id w (failed m, w') e =
      stay (λ j. ap (λ v. rows v j) (L.unlock_failed id w w' (failed m) e (λ n h. cc)))

  unlock-LockStep : (id : ℕ) (w : W) → LockStep (rows w) (rows (unlock T id w).1) (some id)
  unfolding unlock
  unlock-LockStep id w = unlocked-LockStep id w (T.delete_locks id w) refl

  delete_downloads-rows :
      (ds : List ExternalDownload) (w w' : W)
      → delete_downloads T ds w ≡ (ok tt, w')
      → (j : ℕ) → rows w' j ≡ rows w j
  unfolding delete_downloads
  delete_downloads-rows [] w w' e j = ap (λ r. rows r.1 j) (sym e)
  delete_downloads-rows (d ∷ ds) w w' e j =
      let first = T.delete_download d.uuid w in
      let (_, w₁, one, more) = continued-eq-ok (executed first) _ e in
      delete_downloads-rows ds w₁ w' more j
      ∙ L.download_done d.uuid w w₁ (executed-eq-ok first one) j

  -- The rows that are deleted together with the downloads.
  delete_rows-eq-ok :
      (id : ℕ) (w w' : W)
      → delete_rows T id w ≡ (ok tt, w')
      → (j : ℕ) → rows w' j ≡ (if j == id then none else rows w j)
  unfolding delete_rows
  delete_rows-eq-ok id w w' e j =
      let (ds, w₁, read, e₁) = continued-eq-ok (plainly (T.downloads_of id w), w) _ e in
      let (_, w₂, gone, e₂) = continued-eq-ok (delete_downloads T ds w₁) _ e₁ in
      let deleted = L.delete_done id w₂ w' (executed-eq-ok (T.delete_database id w₂) e₂) j in
      let kept = delete_downloads-rows ds w₁ w₂ gone j in
      let same = ap (λ r. rows r.1 j) read in ground (arith, deleted, kept, same)

  delete_unlocked-eq-ok :
      (id : ℕ) (l : Option Lock) (w w' : W)
      → delete_unlocked T id l w ≡ (ok tt, w')
      → (l ≡ none) × ((j : ℕ) → rows w' j ≡ (if j == id then none else rows w j))
  unfolding delete_unlocked
  delete_unlocked-eq-ok id (some l) w w' e = cc
  delete_unlocked-eq-ok id none w w' e =
      (refl, delete_rows-eq-ok id w w' (L.committed (delete_rows T id) w w' tt e))

  -- `Delete` succeeds only for a database that is not locked, which is then gone; no other changes.
  pub delete-eq-ok :
      (id : ℕ) (w w' : W)
      → delete T id w ≡ (ok tt, w')
      → (d : Database) × (rows w id ≡ some d)
        × (d.lock ≡ none)
        × ((j : ℕ) → rows w' j ≡ (if j == id then none else rows w j))
  unfolding delete
  delete-eq-ok id w w' e =
      let (d, w₁, read, rest) = continued-eq-ok (find_by_id T id w) _ e in
      let (there, same) = find_by_id-eq-ok id w w₁ d read in
      let (free, gone) = delete_unlocked-eq-ok id d.lock w₁ w' rest in
      (d, there, free, λ j. ground (arith, gone j, ap (λ v. rows v j) same))

  delete_unlocked-LockStep :
      (id : ℕ) (l : Option Lock) (w w' : W)
      → lock_of (rows w id) ≡ l
      → w' ≡ (delete_unlocked T id l w).1
      → LockStep (rows w) (rows w') none
  unfolding delete_unlocked
  delete_unlocked-LockStep id (some l) w w' free e = stay (λ j. ap (λ v. rows v j) e)
  delete_unlocked-LockStep id none w w' free e =
      elim (result-cases (T.transaction (delete_rows T id) w)) [
        | inl (u, v, ran) ↦
            let same : w' ≡ v = e ∙ ap (λ r. r.1) ran in
            let gone = delete_rows-eq-ok id w v (L.committed (delete_rows T id) w v u ran) in
            remove id free (λ j. ap (λ x. rows x j) same ∙ gone j)
        | inr (x, v, ran) ↦
            let same : w' ≡ v = e ∙ ap (λ r. r.1) ran in
            stay (λ j. ap (λ y. rows y j) (same ∙ L.rolled_back (delete_rows T id) w v x ran))
      ]

  delete-LockStep : (id : ℕ) (w : W) → LockStep (rows w) (rows (delete T id w).1) none
  unfolding delete
  delete-LockStep id w = elim (result-cases (find_by_id T id w)) [
    | inl (d, w₁, read) ↦
        let (there, same) = find_by_id-eq-ok id w w₁ d read in
        delete_unlocked-LockStep id d.lock w _ (ap lock_of there) (
          ap (λ r. (continued r (λ x. delete_unlocked T id x.lock)).1) read
          ∙ ap (λ v. (delete_unlocked T id d.lock v).1) same)
    | inr (x, w₁, read) ↦ stay (λ j.
        ap (λ v. rows v j)
          (ap (λ r. (continued r (λ d. delete_unlocked T id d.lock)).1) read
            ∙ sym (ap (λ r. r.1) read)
            ∙ find_by_id-world id w))
  ]

  -- Each request of the repository, whether it succeeds or fails, takes a step of the abstract
  -- machine, in which a lock is only acquired where there is none, a locked database is not deleted,
  -- and only an unlock releases.
  pub after-LockStep : (r : Request) (w : W) → LockStep (rows w) (rows (after T r w)) (released r)
  after-LockStep (lock_request id i u) w = lock-LockStep id i u w
  after-LockStep (unlock_request id) w = unlock-LockStep id w
  after-LockStep (delete_request id) w = delete-LockStep id w

  -- Over any sequence of requests, none of which unlocks the database, a database that is locked
  -- stays locked by the same user and instance: nobody steals its lock, and it is not deleted.
  pub after_all-keeps :
      (rs : List Request) (w : W) (id : ℕ) (l : Lock)
      → lock_of (rows w id) ≡ some l
      → All (λ r. released r ≢ some id) rs
      → lock_of (rows (after_all T rs w) id) ≡ some l
  unfolding after_all
  after_all-keeps [] w id l held others = held
  after_all-keeps (r ∷ rs) w id l held others =
      after_all-keeps rs (after T r w) id l (LockStep-keeps id l (after-LockStep r w) others.0 held)
        others.1
