-- ===== src/Execution.antt =====
-- The operators of a physical plan: komfydb/execution.
pub mod Iterator
pub mod Predicate
pub mod Fixed
pub mod SeqScan
pub mod Filter
pub mod Limit
pub mod Project
pub mod Join
pub mod OrderBy
pub mod Aggregator
pub mod Aggregate
pub mod Modify
pub mod Executor
pub mod LogicalPlan
