-- ===== src/Cluster/Handler.antt =====
-- pkg/cluster/handler.go. Of a file that is uploaded the framework gives the bytes, or an error.
use Prim.Native.Char.{code}
use im_manager.Base.{
  ℕ, ◌^◌, ◌-◌, ◌+◌, ◌*◌, ◌&&◌, String, Option, none, some, List, ltb, leb, if◌then◌else◌,
}
use im_manager.Errdef.{Result, ok, err, new_bad_request}
use im_manager.Model.{Cluster}
use im_manager.Cluster.Keys.{Encryptor, Keys}
use im_manager.Cluster.Repository
use im_manager.Cluster.Repository.{ClusterTables}
use im_manager.Cluster.Service
use im_manager.Web.{
  Request, Handling, serve, check, reply, Reply, data_binder, value_of, parse_uint_32, ◌>>=◌, ◌>>◌,
}

pub record CreateClusterRequest : Type 0 where
  pub name : String
  pub description : String
  pub kubernetes_configuration : Option (Result String)

pub record UpdateClusterRequest : Type 0 where
  pub name : String
  pub description : String
  pub kubernetes_configuration : Option (Result String)

-- `getBytes`
unfoldable pub get_bytes : Option (Result String) → Result (Option String)
get_bytes none = ok none
get_bytes (some (ok bytes)) = ok (some bytes)
get_bytes (some (err e)) = err e

unfoldable pub cluster_id : {B : Type 0} → Request B → Result ℕ
cluster_id r = elim (parse_uint_32 (value_of r.params "id")) [
  | none ↦ err (new_bad_request "invalid cluster id")
  | some id ↦ ok id
]

-- The number that `ParseUint` returns, also with an error: zero at a character that is no digit, and
-- the largest number of 32 bits beyond it. `Find` and `Delete` leave the error, but go on with it.
unfoldable pub parsed : ℕ → String → ℕ
parsed n String.[] = n
parsed n (String.◌∷◌ c s) =
    let m = n * 10 + (code c - 48) in
    let rest = parsed m s in
    if leb 48 (code c) && leb (code c) 57 then (if ltb m (2 ^ 32) then rest else 2 ^ 32 - 1) else 0

module _ {W : Type 0} (T : ClusterTables W) (K : Keys) (encryptor : Encryptor) where
  unfoldable pub create : Request CreateClusterRequest → Handling W (Reply Cluster)
  create r = do
    request ← check (data_binder r)
    configuration ← check (get_bytes request.kubernetes_configuration)
    cluster ← serve (Service.save T K encryptor request.name request.description configuration)
    reply (record { status = 201; body = cluster })

  unfoldable pub update : Request UpdateClusterRequest → Handling W (Reply Cluster)
  update r = do
    id ← check (cluster_id r)
    request ← check (data_binder r)
    configuration ← check (get_bytes request.kubernetes_configuration)
    cluster ← serve (Service.update T K encryptor id request.name request.description configuration)
    reply (record { status = 200; body = cluster })

  unfoldable pub find_all : {B : Type 0} → Request B → Handling W (Reply (List Cluster))
  find_all r = do
    clusters ← serve (Repository.find_all T)
    reply (record { status = 200; body = clusters })

  unfoldable pub find : {B : Type 0} → Request B → Handling W (Reply Cluster)
  find r = do
    cluster ← serve (Repository.find T (parsed 0 (value_of r.params "id")))
    reply (record { status = 200; body = cluster })

  unfoldable pub delete : {B : Type 0} → Request B → Handling W (Reply (Unit {0}))
  delete r = do
    serve (Service.delete T K encryptor (parsed 0 (value_of r.params "id")))
    reply (record { status = 202; body = tt })
