-- ===== src/Node/ContractState.antt =====
-- node/src/protocol/contract/mod.rs: the contract's state as the node sees it, and the conversions
-- into it, with those of node/src/protocol/contract/primitives.rs. Where an `unwrap` panics the
-- result is `none`.
use mpc_recovery.Prelude.{ℕ, suc, List, [], ◌∷◌, Option, none, some, u32}
use mpc_recovery.Collections.Map
use mpc_recovery.Collections.Map.{Map}
use mpc_recovery.Contract.Primitives.{
  Participants as OnChainParticipants, Candidates as OnChainCandidates,
}
use mpc_recovery.Contract.State.{
  ProtocolContractState, InitializingContractState as OnChainInitializing,
  RunningContractState as OnChainRunning, ResharingContractState as OnChainResharing,
}
use mpc_recovery.Node.Participants.{AccountId, Participants, Candidates}

-- The conversions between the key types of the two sides: a node's signing key, the point of a
-- public key, and the secp256k1 key on which a vote is cast; `none` is a failed conversion. An
-- account id and a cipher key convert to themselves.
pub record Conversions : Type 0 where
  pub sign_key : ℕ → Option ℕ
  pub affine_point : ℕ → Option ℕ
  pub secp256k1 : ℕ → Option ℕ

infixl 5 ◌>>=◌
abbrev pub ◌>>=◌ {ℓ κ} : {A : Type ℓ} {B : Type κ} → Option A → (A → Option B) → Option B
none >>= f = none
some a >>= f = f a

abbrev pub Votes : Type 0
Votes = Map (List AccountId)

pub record InitializingContractState : Type 0 where
  pub candidates : Candidates
  pub threshold : ℕ
  pub pk_votes : Votes

pub record RunningContractState : Type 0 where
  pub epoch : ℕ
  pub participants : Participants
  pub threshold : ℕ
  pub public_key : ℕ
  pub candidates : Candidates
  pub join_votes : Votes
  pub leave_votes : Votes

pub record ResharingContractState : Type 0 where
  pub old_epoch : ℕ
  pub old_participants : Participants
  pub new_participants : Participants
  pub threshold : ℕ
  pub public_key : ℕ
  pub finished_votes : List AccountId

pub data ProtocolState : Type 0 where
  initializing : InitializingContractState → ProtocolState
  running : RunningContractState → ProtocolState
  resharing : ResharingContractState → ProtocolState

-- `TryFrom`: `not_initialized` is its error, `crashed` a panic on the way.
pub data Converted : Type 0 where
  converted : ProtocolState → Converted
  not_initialized : Converted
  crashed : Converted

abbrev pub converted_or_crashed : Option ProtocolState → Converted
converted_or_crashed (some s) = converted s
converted_or_crashed none = crashed

module _ (k : Conversions) where
  -- The position in the contract's map becomes the participant's number.
  unfoldable pub enumerate_participants :
      ℕ → OnChainParticipants → Participants → Option Participants
  enumerate_participants position [] collected = some collected
  enumerate_participants position ((_, info) ∷ rest) collected = do
    sign_pk ← k.sign_key info.sign_pk
    enumerate_participants (suc position) rest (
        Map.insert (u32 position)
          (record {
            id = u32 position;
            account_id = info.account_id;
            url = info.url;
            cipher_pk = info.cipher_pk;
            sign_pk = sign_pk;
          })
          collected)

  unfoldable pub participants_from : OnChainParticipants → Option Participants
  unfolding enumerate_participants
  participants_from participants = enumerate_participants 0 participants []

  unfoldable pub collect_candidates : OnChainCandidates → Candidates → Option Candidates
  collect_candidates [] collected = some collected
  collect_candidates ((account_id, info) ∷ rest) collected = do
    sign_pk ← k.sign_key info.sign_pk
    collect_candidates rest (
        Map.insert account_id
          (record {
            account_id = info.account_id;
            url = info.url;
            cipher_pk = info.cipher_pk;
            sign_pk = sign_pk;
          })
          collected)

  unfoldable pub candidates_from : OnChainCandidates → Option Candidates
  unfolding collect_candidates
  candidates_from candidates = collect_candidates candidates []

  unfoldable pub collect_pk_votes : Votes → Votes → Option Votes
  collect_pk_votes [] collected = some collected
  collect_pk_votes ((pk, voters) ∷ rest) collected = do
    key ← k.secp256k1 pk
    collect_pk_votes rest (Map.insert key voters collected)

  unfoldable pub initializing_from : OnChainInitializing → Option InitializingContractState
  unfolding candidates_from collect_pk_votes
  initializing_from s = do
    candidates ← candidates_from s.candidates
    pk_votes ← collect_pk_votes s.pk_votes []
    some (record { candidates = candidates; threshold = s.threshold; pk_votes = pk_votes })

  unfoldable pub running_from : OnChainRunning → Option RunningContractState
  unfolding participants_from candidates_from
  running_from s = do
    participants ← participants_from s.participants
    public_key ← k.affine_point s.public_key
    candidates ← candidates_from s.candidates
    some (record {
      epoch = s.epoch;
      participants = participants;
      threshold = s.threshold;
      public_key = public_key;
      candidates = candidates;
      join_votes = s.join_votes;
      leave_votes = s.leave_votes;
    })

  unfoldable pub resharing_from : OnChainResharing → Option ResharingContractState
  unfolding participants_from
  resharing_from s = do
    old_participants ← participants_from s.old_participants
    new_participants ← participants_from s.new_participants
    public_key ← k.affine_point s.public_key
    some (record {
      old_epoch = s.old_epoch;
      old_participants = old_participants;
      new_participants = new_participants;
      threshold = s.threshold;
      public_key = public_key;
      finished_votes = s.finished_votes;
    })

  unfoldable pub try_from : ProtocolContractState → Converted
  unfolding initializing_from running_from resharing_from
  try_from (ProtocolContractState.initializing s) =
      converted_or_crashed (do i ← initializing_from s; some (initializing i))
  try_from (ProtocolContractState.running s) =
      converted_or_crashed (do r ← running_from s; some (running r))
  try_from (ProtocolContractState.resharing s) =
      converted_or_crashed (do r ← resharing_from s; some (resharing r))
  try_from ProtocolContractState.not_initialized = not_initialized
