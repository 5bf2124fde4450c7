-- ===== src/Actions.antt =====
-- The actions application (apps/actions): webhooks, the outbox and its retries, and the jobs that
-- run them.
pub mod Retry
pub mod Models
pub mod Outbox
pub mod Handlers
pub mod Email
pub mod Emit
pub mod Redaction
pub mod Retention
pub mod TaskLock
pub mod CompanyDeletion
pub mod Ssrf
pub mod RuleConfig
mod Tests
