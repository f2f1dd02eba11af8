-- ===== src/Tests.antt =====
-- Concrete services and tables, and the theorems at concrete inputs.
mod Fixtures
mod Documents
mod System
mod Edges
mod Visits
mod Payments
mod Accounts
mod Cases
mod Store
mod Startup
mod Machine
mod Creations
mod Collation
