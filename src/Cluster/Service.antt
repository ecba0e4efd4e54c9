-- ===== src/Cluster/Service.antt =====
-- pkg/cluster/service.go
use im_manager.Base.{ℕ, String, false, Option, none, some, [], ◌==◌, string_eq, if◌then◌else◌}
use im_manager.Errdef
use im_manager.Errdef.{Result, ok}
use im_manager.Action.{Action, pure, lift, ◌>>=◌}
use im_manager.Model.{Cluster}
use im_manager.Cluster.Keys.{Encryptor, Keys, key_groups, encrypt_yaml}
use im_manager.Cluster.Repository
use im_manager.Cluster.Repository.{ClusterTables}

-- if value != "" { … }
unfoldable pub unless_blank : String → String → String
unless_blank value old = if value == "" then old else value

unfoldable pub cluster_of : String → String → Option String → Cluster
cluster_of name description configuration = record {
  id = 0;
  name = name;
  description = description;
  autoscaled = false;
  configuration = configuration;
  groups = [];
}

module _ {W : Type 0} (T : ClusterTables W) (K : Keys) (encryptor : Encryptor) where
  -- What a configuration that is given replaces.
  unfoldable pub encrypted : Option String → Option String → Result (Option String)
  encrypted none old = ok old
  encrypted (some configuration) old =
      Errdef.◌>>=◌ (key_groups K encryptor)
        (λ groups. Errdef.◌>>=◌ (encrypt_yaml K configuration groups) (λ sealed. ok (some sealed)))

  unfoldable pub save : String → String → Option String → Action W Cluster
  save name description configuration = do
    sealed ← lift (encrypted configuration none)
    Repository.save T (cluster_of name description sealed)

  -- `update` of the repository gets a copy: what is returned is the cluster before it is stored.
  unfoldable pub update : ℕ → String → String → Option String → Action W Cluster
  update id name description configuration = do
    cluster ← Repository.find T id
    sealed ← lift (encrypted configuration cluster.configuration)
    let updated = record cluster {
      name = unless_blank name cluster.name;
      description = unless_blank description cluster.description;
      configuration = sealed;
    }
    _ ← Repository.update T updated
    pure updated

  unfoldable pub delete : ℕ → Action W (Unit {0})
  delete id = do cluster ← Repository.find T id; Repository.delete T cluster

  unfoldable pub find_or_create : String → String → Action W Cluster
  find_or_create name description = Repository.find_or_create T (cluster_of name description none)
