-- ===== src/Schemas/Enums.antt =====
-- schemas/enums.py, whose names the three children pass on.
pub mod States
pub mod Review
pub mod Process
