-- ===== src/Model.antt =====
-- pkg/model: the rows of the data base as records. A time is a number of nanoseconds since the
-- epoch, a `uint` a natural number. The rows that gorm loads beside a row are fields where the code
-- reads them.
use im_manager.Base.{
  ℕ, String, Bool, true, false, Option, List, [], ◌∷◌, ◌==◌, string_eq, if◌then◌else◌,
}
use im_manager.Base.Dict.{Dict}

abbrev pub administrator_group_name : String
administrator_group_name = "administrators"

-- model/group.go
pub record Group : Type 0 where
  pub id : ℕ
  pub name : String
  pub namespace : String
  pub description : String
  pub hostname : String
  pub deployable : Bool
  pub cluster_id : Option ℕ

-- model/user.go
pub record User : Type 0 where
  pub id : ℕ
  pub email : String
  pub email_token : String
  pub validated : Bool
  pub password : String
  pub password_token : Option String
  pub password_token_ttl : ℕ
  pub groups : List Group
  pub admin_groups : List Group

-- The methods of `User`.
unfoldable pub contains_group : String → List Group → Bool
contains_group group [] = false
contains_group group (g ∷ groups) = if group == g.name then true else contains_group group groups

unfoldable pub user_is_member_of : User → String → Bool
user_is_member_of u group = contains_group group u.groups

unfoldable pub user_is_admin_of : User → String → Bool
user_is_admin_of u group = contains_group group u.admin_groups

unfoldable pub user_is_administrator : User → Bool
unfolding user_is_member_of contains_group
user_is_administrator u = user_is_member_of u administrator_group_name

-- model/instance.go
pub record DeploymentInstanceParameter : Type 0 where
  pub deployment_instance_id : ℕ
  pub parameter_name : String
  pub stack_name : String
  pub value : String

abbrev pub DeploymentInstanceParameters : Type 0
DeploymentInstanceParameters = Dict DeploymentInstanceParameter

pub record DeploymentInstance : Type 0 where
  pub id : ℕ
  pub name : String
  pub group : Option Group
  pub group_name : String
  pub stack_name : String
  pub deployment_id : ℕ
  pub parameters : DeploymentInstanceParameters
  pub public : Bool
  pub deploy_log : String

pub record Deployment : Type 0 where
  pub id : ℕ
  pub created_at : ℕ
  pub user_id : ℕ
  pub name : String
  pub description : String
  pub group_name : String
  pub group : Option Group
  pub ttl : ℕ
  pub instances : List DeploymentInstance

-- model/database.go
pub record Lock : Type 0 where
  pub database_id : ℕ
  pub instance_id : ℕ
  pub user_id : ℕ

pub record Database : Type 0 where
  pub id : ℕ
  pub name : String
  pub group_name : String
  pub description : String
  pub url : String
  pub lock : Option Lock
  pub slug : String
  pub type : String
  pub filestore_id : ℕ
  pub user_id : ℕ
  pub size : ℕ
  pub created_at : ℕ

pub record ExternalDownload : Type 0 where
  pub uuid : String
  pub expiration : ℕ
  pub database_id : ℕ

-- model/cluster.go: a slice of bytes is a text, or nil.
pub record Cluster : Type 0 where
  pub id : ℕ
  pub name : String
  pub description : String
  pub autoscaled : Bool
  pub configuration : Option String
  pub groups : List Group
