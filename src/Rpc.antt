-- ===== src/Rpc.antt =====
-- The vat of lib/capn-rpc.c: its messages, the tables of a connection, and a module for each table.
pub mod Messages
pub mod Table
pub mod Conn
pub mod Exports
pub mod Answers
pub mod Introductions
pub mod Calls
pub mod Joins
pub mod Handoff
pub mod Questions
pub mod Streams
pub mod Handle
mod Tests
mod ClientTests
mod JoinTests
mod HandoffTests
