-- ===== src/Parser.antt =====
-- The parser of queries: komfydb/parser.cc.
pub mod Syntax
pub mod Condition
pub mod Select
pub mod Built
pub mod Kept
pub mod Typed
pub mod Conjuncts
pub mod Statement
pub mod Values
pub mod Columns
pub mod PrimaryKey
