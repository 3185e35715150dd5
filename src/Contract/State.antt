-- ===== src/Contract/State.antt =====
-- contract/src/lib.rs, the state of the contract and how a call fails.
use mpc_recovery.Prelude.{ℕ, List, Option}
use mpc_recovery.Collections.Map.{Map}
use mpc_recovery.Contract.Primitives.{
  AccountId, PublicKey, Participants, Candidates, Votes, PkVotes,
}

pub record InitializingContractState : Type 0 where
  pub candidates : Candidates
  pub threshold : ℕ
  pub pk_votes : PkVotes

pub record RunningContractState : Type 0 where
  pub epoch : ℕ
  pub participants : Participants
  pub threshold : ℕ
  pub public_key : PublicKey
  pub candidates : Candidates
  pub join_votes : Votes
  pub leave_votes : Votes

pub record ResharingContractState : Type 0 where
  pub old_epoch : ℕ
  pub old_participants : Participants
  pub new_participants : Participants
  pub threshold : ℕ
  pub public_key : PublicKey
  pub finished_votes : List AccountId

pub data ProtocolContractState : Type 0 where
  not_initialized : ProtocolContractState
  initializing : InitializingContractState → ProtocolContractState
  running : RunningContractState → ProtocolContractState
  resharing : ResharingContractState → ProtocolContractState

-- A signature as `respond` stores it.
pub record Response : Type 0 where
  pub big_r : ℕ
  pub s : ℕ

-- `pending_requests` lives in the account's storage, under the prefix "m".
pub record MpcContract : Type 0 where
  pub protocol_state : ProtocolContractState
  pub pending_requests : Map (Option Response)

-- The messages of `env::panic_str`, and the guard that `#[private]` adds.
pub data Panic : Type 0 where
  already_participant cannot_accept cannot_kick : Panic
  not_participant not_old_participant : Panic
  candidate_not_registered leaver_not_participant : Panic
  cannot_change_public_key mismatched_epochs not_resharing : Panic
  already_requested unexpected_request public_key_not_available : Panic
  private_method : Panic

-- A call that panics is rolled back by the chain, so it has no new state.
pub data Result {ℓ} (A : Type ℓ) : Type ℓ where
  ok : A → Result A
  panic : Panic → Result A

infixl 5 ◌>>=◌
abbrev pub ◌>>=◌ {ℓ κ} : {A : Type ℓ} {B : Type κ} → Result A → (A → Result B) → Result B
ok a >>= f = f a
panic p >>= f = panic p

-- Who calls: `signer_account_id`, `predecessor_account_id` and `current_account_id`.
pub record Env : Type 0 where
  pub signer : AccountId
  pub predecessor : AccountId
  pub current : AccountId
