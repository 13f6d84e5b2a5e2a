-- ===== src/Workflow.antt =====
-- core/workflow_service.py: the methods of `WorkflowService`.
pub mod Core
pub mod Passage
pub mod Drafts
pub mod Filing
pub mod Findings
pub mod Returns
pub mod Collection
pub mod Recalculation
