-- ===== src/Candidate.antt =====
-- One candidate's case: the applications of internal/platform/applications.go and the workflow,
-- the pool memberships and the department attempts of internal/platform/workflows.go.
pub mod Case
pub mod Transaction
pub mod Application
pub mod Workflow
pub mod History
pub mod Retention
