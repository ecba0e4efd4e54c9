-- ===== src/User/Repository.antt =====
-- pkg/user/repository.go, over the calls that it makes of gorm.
use im_manager.Base.{ℕ, zero, suc, String, Option, none, List}
use im_manager.Errdef.{Error, Result, ok, err, errorf, new_not_found, new_duplicated}
use im_manager.Action.{Action}
use im_manager.Model.{User}
use im_manager.Database.Tables.{Answer, done, record_not_found, duplicated_key, failed}
use im_manager.Database.Repository.{found, stored, executed, plainly}

-- The statements. `update_user` and `reset_user` are `Updates`, of the columns that are not empty and
-- of the password and its token.
pub record UserTables (W : Type 0) : Type 0 where
  pub save_user : User → W → Answer User × W
  pub create_user : User → W → Answer User × W
  pub all_users : W → Answer (List User)
  pub first_by_email : String → W → Answer User
  pub first_by_email_token : String → W → Answer User
  pub first_by_password_token : String → W → Answer User
  pub first_or_create : User → W → Answer User × W
  pub first_by_id : ℕ → W → Answer User
  pub delete_user : ℕ → W → Answer ℕ × W
  pub update_user : User → String → String → W → Answer User × W
  pub reset_user : User → String → Option String → W → Answer User × W

-- An error of any kind becomes `failure`.
unfoldable pub unless_failed : {A : Type 0} → Error → Answer A → Result A
unless_failed failure (done a) = ok a
unless_failed failure record_not_found = err failure
unless_failed failure duplicated_key = err failure
unless_failed failure (failed m) = err failure

unfoldable pub rows_deleted : Answer ℕ → Result (Unit {0})
rows_deleted (done zero) = err (new_not_found "failed to find user with id %d")
rows_deleted (done (suc n)) = ok tt
rows_deleted record_not_found = err (errorf "failed to delete user with id %d: %v")
rows_deleted duplicated_key = err (errorf "failed to delete user with id %d: %v")
rows_deleted (failed m) = err (errorf "failed to delete user with id %d: %v")

module _ {W : Type 0} (T : UserTables W) where
  unfoldable pub save : User → Action W User
  save u w = executed (T.save_user u w)

  unfoldable pub create : User → Action W User
  create u w =
      let (a, w') = T.create_user u w in (stored (new_duplicated "user %q already exists") a, w')

  unfoldable pub find_all : Action W (List User)
  find_all w = (unless_failed (errorf "failed to find all users: %v") (T.all_users w), w)

  unfoldable pub find_by_email : String → Action W User
  find_by_email email w =
      (found (new_not_found "failed to find user with email %q") (T.first_by_email email w), w)

  unfoldable pub find_by_email_token : String → Action W User
  find_by_email_token token w = (
    found (new_not_found "failed to find user with email token %q")
        (T.first_by_email_token token w),
    w,
  )

  unfoldable pub find_by_password_reset_token : String → Action W User
  find_by_password_reset_token token w = (plainly (T.first_by_password_token token w), w)

  unfoldable pub find_or_create : User → Action W User
  find_or_create u w = executed (T.first_or_create u w)

  unfoldable pub find_by_id : ℕ → Action W User
  find_by_id id w = (found (new_not_found "failed to find user with id %d") (T.first_by_id id w), w)

  unfoldable pub delete : ℕ → Action W (Unit {0})
  delete id w = let (a, w') = T.delete_user id w in (rows_deleted a, w')

  unfoldable pub update : User → Action W User
  update u w =
      let (a, w') = T.update_user u u.email u.password w in
      (unless_failed (errorf "failed to update user: %v") a, w')

  unfoldable pub reset_password : User → Action W User
  reset_password u w =
      let (a, w') = T.reset_user u u.password none w in
      (unless_failed (errorf "failed to update user password: %v") a, w')
