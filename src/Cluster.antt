-- ===== src/Cluster.antt =====
-- pkg/cluster: the clusters that groups deploy to.
pub mod Keys
pub mod Repository
pub mod Service
pub mod Handler
