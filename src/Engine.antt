-- ===== src/Engine.antt =====
-- src/parser/engine.rs: transactions and the writes of the statements.
pub mod State
pub mod Transactions
pub mod Untouched
pub mod Rows
pub mod Scan
pub mod Statements
pub mod Insert
pub mod Start
pub mod Output
pub mod Query
pub mod Tables
pub mod Call
pub mod Execute
pub mod Search
pub mod Commands
pub mod Filter
pub mod Compare
pub mod Refusal
pub mod Isolated
pub mod Commit
pub mod FirstWins
pub mod Tests
mod WhereTests
mod StatementTests
mod QueryTests
mod SearchTests
pub mod StartTests
mod TableTests
