-- ===== src/Documents.antt =====
-- internal/documents
pub mod Types
pub mod Tables
pub mod Exec
pub mod Access
pub mod Audit
pub mod Create
pub mod Upload
pub mod Evidence
pub mod Changes
pub mod Lifecycle
pub mod Phases
