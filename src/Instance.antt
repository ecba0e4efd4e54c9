-- ===== src/Instance.antt =====
-- pkg/instance/service.go: the instances of a deployment.
pub mod Links
pub mod Order
pub mod Parameters
pub mod Saving
pub mod Deleting
pub mod Listing
pub mod Status
pub mod Updating
pub mod Encryption
pub mod Repository
pub mod Handler
pub mod Operating
