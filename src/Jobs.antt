-- ===== src/Jobs.antt =====
-- typedhandler_job_sql.go: the job queue in a SQL database, table by table and statement by
-- statement. Table holds the schema with its triggers, Queue, Outcome and Finish the operations of
-- `callSQLStrategy`; the other children hold the proofs.
pub mod Table
pub mod Queue
pub mod Outcome
pub mod Finish
pub mod Slots
pub mod Counts
pub mod Keys
pub mod Steps
pub mod Sound
pub mod Accept
pub mod Reaped
pub mod Leased
pub mod Locked
pub mod Results
pub mod Totals
pub mod Rows
pub mod Select
pub mod Dispatch
pub mod Listing
pub mod Pages
mod Tests
