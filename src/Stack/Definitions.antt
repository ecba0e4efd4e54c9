-- ===== src/Stack/Definitions.antt =====
-- The stacks that pkg/stack/stack.go and pkg/stack/chap.go declare.
pub mod Database
pub mod Chap
pub mod Core
pub mod Dhis2
pub mod Tools
