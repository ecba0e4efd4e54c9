-- ===== src/Database/Handler/Denial.antt =====
-- pkg/database/handler.go: a request that is denied changes nothing.
use im_manager.Base.{ℕ, ◌≡◌, refl, Option, none, some, ◌==◌, string_eq, nat_eq, not, leb}
use im_manager.Base.Text.{trim}
use Prim.Native.Char.{code}
use im_manager.Errdef.{ok}
use im_manager.Model.{User, Lock, Database}
use im_manager.Authorize.{can_access_group, can_unlock}
use im_manager.Stack.{Stacks, find}
use im_manager.Database.Tables.{Tables}
use im_manager.Database.Service
use im_manager.Database.Service.{Files, blank}
use im_manager.Database.Handler.{Others, access}
use im_manager.Database.Handler.Records
use im_manager.Database.Handler.Records.{
  CreateExternalDatabaseRequest, header_of, max_external_download_expiration_seconds,
}
use im_manager.Database.Handler.Instances
use im_manager.Database.Handler.Instances.{SaveAsRequest, database_id_of}
use im_manager.Database.Handler.Permission.{
  Change, uploading, saving_as, saving, copying, locking, unlocking, deleting, updating,
  creating_download, AreLookups, MayChange, access-eq-ok, find_by_id-keeps,
  find_by_identifier-keeps,
}
use im_manager.Database.Handler.Changes.{handled, MayMake, replied-keeps, found-keeps, added-keeps}
use im_manager.Web.{Request, went_on, get_path_parameter, get_user_from_context, data_binder}
use im_manager.Web.Laws.{
  chained-served-keeps, chained-check-keeps, chained-require-keeps,
  chained-get_path_parameter-keeps, data_binder-eq-ok, get_user_from_context-eq-ok,
  get_path_parameter-eq-went_on,
}

module _ {W : Type 0} (T : Tables W) (S : Files W) (O : Others W) (stacks : Stacks) where
  unlock_held-keeps :
      (r : Request (Unit {0})) (w : W) (id : ℕ) (user : User) (d : Database) (l : Option Lock)
      → ¬ MayChange T S can_unlock r w
      → get_path_parameter r "id" w ≡ (went_on id, w)
      → Service.find_by_id T S id w ≡ (ok d, w)
      → get_user_from_context r ≡ ok user
      → (Records.unlock_held T S O user id d l w).1 ≡ w
  unfolding Records.unlock_held
  unlock_held-keeps r w id user d none denied named found there = refl
  unlock_held-keeps r w id user d (some l) denied named found there =
      chained-require-keeps w _ _ (can_unlock user d) (λ may. absurd (
        denied (
          user,
          id,
          d,
          get_user_from_context-eq-ok r user there,
          get_path_parameter-eq-went_on r "id" w w id named,
          found,
          may,
        )))

  -- A request that changes something leaves the world as it is unless there is a user in the context
  -- with the right to do so: to access the database that is named, or the group that the new one is
  -- for, or to unlock. It is assumed that lookups change nothing.
  pub handled-unchanged :
      (c : Change) (w : W)
      → AreLookups O
      → ¬ MayMake T S O stacks c w
      → (handled T S O stacks c w).1 ≡ w
  unfolding handled MayMake Records.upload Instances.save_as Instances.save Records.copy
      Records.lock Records.unlock Records.delete Records.update Records.create_external_download
  handled-unchanged (uploading r) w lookups denied =
      replied-keeps T S O stacks w (Records.upload T S O r w) (
        chained-require-keeps w _ _ (not (header_of r "X-Upload-Group" == "")) (λ _.
          chained-require-keeps w _ _ (not (header_of r "X-Upload-Name" == "")) (λ _.
            chained-check-keeps w (get_user_from_context r) _ (λ user _.
              added-keeps T S O stacks r w
                (record blank {
                  name = trim (λ c. code c == 47) (header_of r "X-Upload-Name");
                  description = header_of r "X-Upload-Description";
                  group_name = header_of r "X-Upload-Group";
                  type = "database";
                  user_id = user.id;
                })
                _ denied))))
  handled-unchanged (deleting r) w lookups denied =
      replied-keeps T S O stacks w (Records.delete T S O r w) (
        chained-get_path_parameter-keeps w r "id" _ (λ id named.
          chained-served-keeps w (Service.find_by_id T S id w) _ (find_by_id-keeps T S id w)
            (λ d found. found-keeps T S O stacks r w id d _ denied named found)))
  handled-unchanged (saving_as r) w lookups denied =
      replied-keeps T S O stacks w (Instances.save_as T S O stacks r w) (
        chained-check-keeps w (data_binder r) _ (λ _ _.
          chained-get_path_parameter-keeps w r "instanceId" _ (λ id named.
            chained-served-keeps w (O.find_decrypted_deployment_instance_by_id id w) _
              (lookups.instance_kept id w)
              (λ i found. chained-check-keeps w (find stacks i.stack_name) _ (λ _ _.
                chained-check-keeps w (get_user_from_context r) _ (λ user there.
                  chained-require-keeps w _ _ (can_access_group user i.group_name) (λ may. absurd (
                    denied (
                      user,
                      id,
                      i,
                      get_user_from_context-eq-ok r user there,
                      get_path_parameter-eq-went_on r "instanceId" w w id named,
                      found,
                      may,
                    )))))))))
  handled-unchanged (saving r) w lookups denied =
      replied-keeps T S O stacks w (Instances.save T S O stacks r w) (
        chained-get_path_parameter-keeps w r "instanceId" _ (λ id named.
          chained-served-keeps w (O.find_decrypted_deployment_instance_by_id id w) _
            (lookups.instance_kept id w)
            (λ i found. chained-check-keeps w (find stacks i.stack_name) _ (λ _ _.
              chained-served-keeps w
                (Service.find_by_identifier T S (database_id_of i.parameters) w) _
                (find_by_identifier-keeps T S (database_id_of i.parameters) w)
                (λ d known. chained-check-keeps w (access r d) _ (λ u passed.
                  let (user, there, may) = access-eq-ok r d u passed in
                  absurd (
                    denied (
                      user,
                      id,
                      i,
                      d,
                      there,
                      get_path_parameter-eq-went_on r "instanceId" w w id named,
                      found,
                      known,
                      may,
                    ))))))))
  handled-unchanged (copying r) w lookups denied =
      replied-keeps T S O stacks w (Records.copy T S O r w) (
        chained-get_path_parameter-keeps w r "id" _ (λ id _.
          chained-check-keeps w (data_binder r) _ (λ request bound.
            chained-check-keeps w (get_user_from_context r) _ (λ user _.
              added-keeps T S O stacks r w
                (record blank {
                  name = request.name;
                  group_name = request.group;
                  type = "database";
                  user_id = user.id;
                })
                _ (λ may. denied (request, data_binder-eq-ok r request bound, may))))))
  handled-unchanged (locking r) w lookups denied =
      replied-keeps T S O stacks w (Records.lock T S O r w) (
        chained-get_path_parameter-keeps w r "id" _ (λ id named.
          chained-check-keeps w (data_binder r) _ (λ _ _.
            chained-served-keeps w (Service.find_by_id T S id w) _ (find_by_id-keeps T S id w)
              (λ d found.
                chained-check-keeps w (get_user_from_context r) _
                  (λ user _. found-keeps T S O stacks r w id d _ denied named found)))))
  handled-unchanged (unlocking r) w lookups denied =
      replied-keeps T S O stacks w (Records.unlock T S O r w) (
        chained-get_path_parameter-keeps w r "id" _ (λ id named.
          chained-served-keeps w (Service.find_by_id T S id w) _ (find_by_id-keeps T S id w)
            (λ d found.
              chained-check-keeps w (get_user_from_context r) _
                (λ user there. unlock_held-keeps r w id user d d.lock denied named found there))))
  handled-unchanged (updating r) w lookups denied =
      replied-keeps T S O stacks w (Records.update T S O r w) (
        chained-get_path_parameter-keeps w r "id" _ (λ id named.
          chained-check-keeps w (data_binder r) _ (λ _ _.
            chained-served-keeps w (Service.find_by_id T S id w) _ (find_by_id-keeps T S id w)
              (λ d found. found-keeps T S O stacks r w id d _ denied named found))))
  handled-unchanged (creating_download r) w lookups denied =
      replied-keeps T S O stacks w (Records.create_external_download T S O r w) (
        chained-get_path_parameter-keeps w r "id" _ (λ id named.
          chained-check-keeps w (data_binder r) _ (λ request _.
            chained-require-keeps w _ _
              (leb request.expiration max_external_download_expiration_seconds)
              (λ _.
                chained-served-keeps w (Service.find_by_id T S id w) _ (find_by_id-keeps T S id w)
                  (λ d found. found-keeps T S O stacks r w id d _ denied named found)))))
