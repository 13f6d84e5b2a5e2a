-- ===== src/Classify.antt =====
-- core/classify: the classification chain.
pub mod D1c
pub mod D1a
pub mod SubjectRules
pub mod D1b
pub mod Chain
