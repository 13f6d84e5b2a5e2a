-- ===== src/Tests.antt =====
-- Concrete runs of the program's parts.
pub mod Samples
pub mod Rules
pub mod Service
pub mod Workers
pub mod Policies
pub mod Subjects
pub mod Recalculation
