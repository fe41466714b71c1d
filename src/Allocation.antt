-- ===== src/Allocation.antt =====
-- The allocation of pooled candidates to internal demands: internal/platform/allocation_policy.go
-- over the data of internal/contract/allocation_types.go, and the task life cycle around it.
pub mod Types
pub mod Plan
