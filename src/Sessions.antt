-- ===== src/Sessions.antt =====
-- session_manager.go and session_sticky.go: sessions that live in one server, the resources they
-- use, and where a call with a session token runs. Amounts of resources are natural numbers. Go
-- leaves the order of a range over a map open; here it is the order of the list.
pub mod Store
pub mod Sticky
pub mod Amounts
pub mod Accounts
pub mod Guards
mod Tests
