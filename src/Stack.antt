-- ===== src/Stack.antt =====
-- pkg/model/stack.go and pkg/stack: the deployable stacks, their validation and their definitions.
mod Types
pub mod Parameter
pub mod Definitions
pub mod Service
pub mod Validation
pub use Types.*
unfoldable pub use Service.{find}
