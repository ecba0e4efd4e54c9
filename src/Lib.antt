-- ===== src/Lib.antt =====
-- The instance manager: a service that deploys stacks (a data base, a DHIS2 core, a store of
-- files, ...) as groups of instances on a Kubernetes cluster.
--
-- The parts and the files that model them:
--   * Errdef: internal/errdef/errdef.go. An error carries its class and the text of its format
--     string, not the arguments. A Go result pair is a `Result`, chained by do blocks; a run-time
--     panic is a class of its own, which no handler of errors changes.
--   * Model and Stack/Types: pkg/model. The rows of the data base and the stacks, as records with
--     the fields that the modelled code reads. A Go map is an association list (Base/Dict), whose
--     order stands for the order in which `range` visits the map.
--   * Authorize: internal/handler/authorize.go, the rules of who may read, write, unlock or see.
--   * Stack: pkg/stack. Stack/Definitions has the eleven stacks (stack.go, chap.go) with their
--     parameters, Stack/Parameter the validators and the providers, Stack/Validation `New`,
--     `ValidateNoCycles` and `ValidateConsumedParameters`, Stack/Service the lookup of a stack.
--   * Graph: github.com/dominikbraun/graph, which both validations use, is a parameter (a record
--     `GraphLib` of the calls the code makes) with the laws in `IsLawful`. Graph/Kahn is a library of
--     graphs that runs the tests.
--   * Instance: pkg/instance/service.go. Instance/Links has `validateNoCycles`, `deploymentOrder`
--     and `DeploymentOrder`, which link the instances of a deployment by the stacks that they
--     require and by the companions that their parameters ask for. Instance/Parameters has
--     `resolveParameters` and what it calls. The code shares the instances by pointer: the state is
--     the deployment's list of instances, which each step returns anew. Instance/Saving has
--     `SaveInstance` and `DeleteInstance`, Instance/Deleting `Delete`, `DeleteDeployment` and
--     `DestroyInstance`, over records of the calls that they make of the repository, helmfile and
--     Kubernetes.
--     Instance/Operating has `DeployInstance`, `Pause`, `Resume`, `Restart`, `Logs` and `FilestoreBackup`,
--     Instance/Updating has `UpdateInstanceParameters`, Instance/Listing the lists of deployments and
--     of public instances, Instance/Status `GetStatus`. A sort keeps the order of elements that
--     compare alike, which slices.SortFunc leaves open.
--   * Instance/Repository and Instance/Encryption: pkg/instance/repository.go and crypt.go, over
--     records of the calls that they make of gorm and of the cipher libraries, whose laws are in
--     `AreCiphers`.
--   * Action: code that acts on the world behind the services, which it also changes when it fails.
--   * Deployment: pkg/deployment/service.go, over a record of the calls that it makes of the other
--     services (`Services`). `DeploymentOrder` is the function of Instance/Links. `hostname` is the
--     environment variable HOSTNAME. Deployment/Updating has `UpdateInstance`, Deployment/Dumping `SaveAs`
--     and `Save`, which return beside the result what they start in the background.
--   * Database: pkg/database. Database/Repository and Database/Service are repository.go and
--     service.go, over records of the calls that they make of gorm (`Tables`, with its laws in
--     `AreTables`, where the conditions of `Where` are tests that the code passes) and of the object store (`Files`). Database/Locks is the abstract machine of
--     locks. `copy`, `update` and `save` change the record they are given by pointer; what they
--     leave in it is what they store.
--   * Event: pkg/event/handler.go. A message's properties are texts or of another type; an offset is
--     an int64, kept modulo 2 ^ 64.
--   * User: pkg/user. User/Repository is repository.go, User/Passwords and User/Service are service.go,
--     over records of the calls that they make of gorm, of the hash functions (`Hashes`, with their
--     laws in `AreHashes`), of the mail server and of the clock. A slice of bytes is a text.
--   * Token: pkg/token/service.go and repository.go, over a record of the calls that they make of
--     redis and of pkg/token/helper (`TokenCalls`, with its laws in `AreTokenCalls`).
--   * Inspector: pkg/inspector/ttlDestroyHandler.go, over a record of the calls that it makes. A
--     duration of Go is kept modulo 2 ^ 64.
--   * Middleware: internal/middleware/errorHandler.go, authorization.go and authentication.go, as
--     functions from what the handlers left to the status of the response, or to whether the next
--     handler is called: a handler that leaves an error without `c.Abort` lets gin go on.
--   * Web: internal/handler, what the handlers read of a request, and how a handler stops: it leaves an
--     error by `c.Error`, or sets a status and an error by `c.AbortWithError`. A handler is a function
--     from the world to the outcome and the world after it.
--   * Instance/Handler: pkg/instance/handler.go, over a record of the calls that the handlers make of
--     the services. Database/Handler, User/Handler: pkg/database/handler.go and pkg/user/handler.go, over
--     the operations of Database/Service, User/Service and Token. Database/Handler also has `List` of
--     pkg/database/service.go.
--   * Group and Cluster: pkg/group and pkg/cluster, the repositories, services and handlers, over
--     records of the calls that they make of gorm and of sops.
--   * Tests: runs on the registered stacks and a sample deployment.
--
-- Bounds: a `uint` is a natural number. The code computes with one only in Inspector and in
-- the offsets and expirations of Event and Database, which wrap around as the code does, and in the counts of providers, which the sizes of the stacks bound. The
-- loop of `resolveParameters` runs as many rounds as there are instances, which is the length of
-- the slice that the code ranges over. The digits of a printed number are read off in one round
-- more than its value.
--
-- Not modelled: the routers, the repository of notifications, the calls of Kubernetes, helmfile, object
-- stores and queues (I/O), the server and its configuration. Of the handlers, the headers and the bytes
-- of a download. Of the database service, `Dump`, which is a parameter of `SaveLocked`. Of the event
-- stream, the consumer of the queue. Of the token service, the helper that signs tokens, and of the
-- middleware, the parsing of tokens. Of the instance package, the calls of Kubernetes, the commands of
-- helmfile and the copying of filestores, which the services take as calls.
pub mod Base
pub mod Errdef
pub mod Model
pub mod Authorize
pub mod Graph
pub mod Stack
pub mod Instance
pub mod Action
pub mod Deployment
pub mod Inspector
pub mod Database
pub mod Event
pub mod User
pub mod Token
pub mod Middleware
pub mod Web
pub mod Group
pub mod Cluster
mod Tests
