-- ===== src/User.antt =====
-- pkg/user: the accounts, their passwords and their tokens.
pub mod Repository
pub mod Passwords
pub mod Service
pub mod Handler
