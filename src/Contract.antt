-- ===== src/Contract.antt =====
-- The contract crate (contract/src): the shared record of who signs, in which epoch, and of the
-- requests for signatures.
pub mod Primitives
pub mod State
pub mod Membership
pub mod Requests
pub mod Calls
pub mod Conversion
pub mod Ballots
pub mod Invariant
pub mod Quorum
pub mod Constancy
pub mod Stuck
pub mod Votes
pub mod Pending
pub mod Progress
pub mod Tests
