-- ===== src/App/Lifecycle.antt =====
-- service/network-service/src/app/lifecycle.rs: connect, switch, disconnect, recovery and start-up.
-- An operation is a function of the manager's whole state that returns the new state and its result.
-- It runs to its end under the connection guard. What the outside answers to the calls of one
-- operation comes in a record of answers; logging, and the waiting itself, leave no trace.
pub mod Monad
pub mod State
pub mod Connect
pub mod Disconnect
pub mod Recover
pub mod Invariant
pub mod Steps
pub mod Safety
pub mod Closing
pub mod Recovery
pub mod Corners
pub mod Runs
