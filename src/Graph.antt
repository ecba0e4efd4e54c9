-- ===== src/Graph.antt =====
-- The graphs of pkg/stack and pkg/instance, which github.com/dominikbraun/graph implements.
mod Interface
pub mod Kahn
pub use Interface.*
