-- ===== src/Node.antt =====
-- The node crate (node/src): one signing node, which follows the contract's state and takes part in
-- the threshold protocols of cait-sith.
pub mod Participants
pub mod CaitSith
pub mod Message
pub mod Poke
pub mod Triple
pub mod Presignature
pub mod SignQueue
pub mod Indexer
pub mod Signature
pub mod ContractState
pub mod State
pub mod Queue
pub mod Outbox
pub mod Drive
pub mod Cryptography
pub mod Hpke
pub mod SignedMessage
pub mod Protocol
pub mod Intake
pub mod Running
pub mod Consensus
pub mod KeyGeneration
pub mod Resharing
mod Tests
