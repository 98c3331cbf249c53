-- ===== src/Binding.antt =====
-- serve_request.go and reflectplan.go: how the parameters of a function are filled from a request.
pub mod Values
pub mod Fields
pub mod Walk
pub mod Accepted
pub mod Precedence
pub mod Integers
mod Tests
