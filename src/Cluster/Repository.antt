-- ===== src/Cluster/Repository.antt =====
-- pkg/cluster/repository.go, over the calls that it makes of gorm.
use im_manager.Base.{ℕ, List}
use im_manager.Errdef.{errorf, new_not_found, new_duplicated}
use im_manager.Action.{Action}
use im_manager.Model.{Cluster}
use im_manager.Database.Tables.{Answer}
use im_manager.Database.Repository.{stored, executed, plainly}
use im_manager.Instance.Repository.{unless_found}

pub record ClusterTables (W : Type 0) : Type 0 where
  pub first_cluster : ℕ → W → Answer Cluster
  pub all_clusters : W → Answer (List Cluster)
  pub save_cluster : Cluster → W → Answer Cluster × W
  pub delete_cluster : Cluster → W → Answer (Unit {0}) × W
  pub first_or_create_cluster : Cluster → W → Answer Cluster × W

module _ {W : Type 0} (T : ClusterTables W) where
  unfoldable pub find : ℕ → Action W Cluster
  find id w = (
    unless_found (new_not_found "cluster with id %d doesn't exist")
        (errorf "failed to find cluster: %v") (T.first_cluster id w),
    w,
  )

  unfoldable pub find_all : Action W (List Cluster)
  find_all w = (plainly (T.all_clusters w), w)

  unfoldable pub save : Cluster → Action W Cluster
  save cluster w =
      let (a, w') = T.save_cluster cluster w in
      (stored (new_duplicated "cluster name already exists: %s") a, w')

  unfoldable pub update : Cluster → Action W Cluster
  update cluster w =
      let (a, w') = T.save_cluster cluster w in
      (stored (new_duplicated "cluster name already exists: %s") a, w')

  unfoldable pub delete : Cluster → Action W (Unit {0})
  delete cluster w = executed (T.delete_cluster cluster w)

  unfoldable pub find_or_create : Cluster → Action W Cluster
  find_or_create cluster w = executed (T.first_or_create_cluster cluster w)
