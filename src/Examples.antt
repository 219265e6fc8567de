-- ===== src/Examples.antt =====
-- Runs of the parts on concrete inputs, and the theorems at them.
pub mod Texts
pub mod Rooms
pub mod Streams
pub mod Rounds
pub mod Accounts
pub mod Runs
pub mod Clients
pub mod Requests
pub mod Endings
pub mod Reads
pub mod Leaves
pub mod Statements
