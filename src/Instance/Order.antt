-- ===== src/Instance/Order.antt =====
-- What `validateNoCycles` and `DeploymentOrder` of pkg/instance/service.go achieve.
pub mod Links
pub mod Sorted
