-- ===== src/Schemas.antt =====
-- The documents of the schemas package, as far as the workflow reads and writes them.
pub mod Enums
pub mod Json
pub mod Common
pub mod Project
pub mod Findings
pub mod Assets
pub mod Forms
pub mod Workflow
pub mod Policy
