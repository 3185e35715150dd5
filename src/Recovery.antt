-- ===== src/Recovery.antt =====
-- The mpc-recovery crate: the sign node.
pub mod Answer
pub mod EdDsa
pub mod AggregateSigner
pub mod SigningState
pub mod Oauth
pub mod Utils
pub mod UserCredentials
pub mod SignNode
pub mod LeaderNode
pub mod Gcp
mod Tests
