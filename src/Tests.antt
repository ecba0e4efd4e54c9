-- ===== src/Tests.antt =====
-- Runs on sample stacks, deployments and users.
mod Samples
mod Instances
mod Stacks
mod Users
mod Handling
mod Sharing
mod Sessions
mod Services
mod Saving
mod Deleting
mod Events
mod Databases
mod Listings
mod Updating
mod Accounts
mod Tokens
