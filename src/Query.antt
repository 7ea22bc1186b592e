-- ===== src/Query.antt =====
-- query/: the Datalog queries.
pub mod Ast
pub mod Parser
pub mod Algebra
pub mod Algebrize
pub mod Translate
pub mod Recursive
pub mod Tests
