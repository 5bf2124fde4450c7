-- ===== src/Storage.antt =====
-- The storage application (apps/storage): its tables, paths, access rules, quotas and share links.
pub mod Models
pub mod Paths
pub mod Access
pub mod Inherited
pub mod Defaults
pub mod Quotas
pub mod Errors
pub mod Resolve
pub mod Shares
pub mod Grants
pub mod Mime
pub mod Objects
pub mod Folders
pub mod Listing
pub mod Tests
