-- ===== src/Group.antt =====
-- pkg/group: the groups of users.
pub mod Repository
pub mod Listing
pub mod Service
pub mod Handler
