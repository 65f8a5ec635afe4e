-- ===== src/Common.antt =====
-- The values that a query handles: komfydb/common.
pub mod Op
pub mod Field
pub mod TupleDesc
pub mod Tuple
pub mod Print
