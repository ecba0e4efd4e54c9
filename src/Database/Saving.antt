-- ===== src/Database/Saving.antt =====
-- `finalizeSave`: the saved dump takes the place of the database, under its id and its lock.
use im_manager.Base.{◌<>◌, ◌≡◌, sym, ap, ◌∙◌, Option, none, some, nat_eq, arith}
use im_manager.Errdef.{ok, errorf, ok-injective}
use im_manager.Action.{on_failure, continued-eq-ok, lift-eq-ok}
use im_manager.Model.{Lock, Database}
use im_manager.Database.Tables.{Tables, AreTables, Rows, lock_of}
use im_manager.Database.Repository
use im_manager.Database.Locks.Refinement.{lock-eq-ok}
use im_manager.Database.Service.{Files, key_of, logged, relock, finalize_save}

-- The lock of the user and instance of another lock, on this database.
abbrev pub same_lock : Database → Lock → Lock
same_lock d l = record { database_id = d.id; instance_id = l.instance_id; user_id = l.user_id }

module _ {W : Type 0} (T : Tables W) (rows : W → Rows) (L : AreTables T rows) (S : Files W) where
  relock-eq-ok :
      (d : Database) (o : Option Lock) (w w' : W)
      → relock T S d o w ≡ (ok tt, w')
      → (l : Lock) → o ≡ some l
      → lock_of (rows w' d.id) ≡ some (same_lock d l)
  unfolding relock
  relock-eq-ok d none w w' e l h = cc
  relock-eq-ok d (some k) w w' e l h =
      let (made, w₁, locked, rest) =
        continued-eq-ok (Repository.lock T d.id k.instance_id k.user_id w) _ e in
      let (old, there, same, new) =
        lock-eq-ok T rows L d.id k.instance_id k.user_id w w₁ made locked in
      let now' = new.1 d.id in
      let world = ap (λ r. lock_of (rows r.1 d.id)) rest in ground (arith, there, now', world)

  -- When `finalizeSave` succeeds, the database that it returns has the id of the database that was
  -- saved, and if that one was locked, the row with its id is locked by the same user and instance.
  pub finalize_save-eq-ok :
      (d saved r : Database) (w w' : W)
      → finalize_save T S d saved w ≡ (ok r, w')
      → (r.id ≡ d.id)
        × ((l : Lock) → d.lock ≡ some l → lock_of (rows w' d.id) ≡ some (same_lock d l))
  unfolding finalize_save
  finalize_save-eq-ok d saved r w w' e =
      let (key, _, e₁) = lift-eq-ok (key_of T S saved.url) w _ e in
      let (_, w₂, _, e₂) =
        continued-eq-ok
          (on_failure (S.move key (d.group_name <> ("/" <> d.name)))
            (λ _. errorf "moving database failed: %v") w)
          _ e₁ in
      let (_, w₃, _, e₃) = continued-eq-ok (logged T S (Repository.unlock T d.id) w₂) _ e₂ in
      let (_, w₄, _, e₄) = continued-eq-ok (Repository.delete T d.id w₃) _ e₃ in
      let (updated, w₅, _, e₅) =
        continued-eq-ok
          (Repository.update T
            (record saved {
              name = d.name;
              group_name = d.group_name;
              url = d.url;
              slug = d.slug;
              created_at = d.created_at;
            })
            w₄)
          _ e₄ in
      let (_, w₆, _, e₆) = continued-eq-ok (Repository.update_id T updated.id d.id w₅) _ e₅ in
      let (u, w₇, locked, e₇) = continued-eq-ok (relock T S d d.lock w₆) _ e₆ in
      (
        ap (λ (x : Database). x.id) (sym (ok-injective (ap (λ p. p.0) e₇))),
        λ l h. ap (λ p. lock_of (rows p.1 d.id)) (sym e₇) ∙ relock-eq-ok d d.lock w₆ w₇ locked l h,
      )
