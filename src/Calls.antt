-- ===== src/Calls.antt =====
-- typedhandler_job.go and its neighbours: what a call of a function with a job mode does with the
-- queue of Jobs, and how a worker runs a job. Options holds the modes and what a job is stored
-- with, Lookup reads a stored result, Call is `call_job`, Worker the loop of the job manager.
pub mod Options
pub mod Lookup
pub mod Call
pub mod Worker
pub mod Exclusive
pub mod Async
pub mod Cached
pub mod Dispatched
pub mod Outdated
pub mod Requeued
pub mod Turns
pub mod Intervals
mod Tests
