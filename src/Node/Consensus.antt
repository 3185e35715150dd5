-- ===== src/Node/Consensus.antt =====
-- node/src/protocol/consensus.rs: how a node advances with the contract's state.
-- node/src/types.rs: the start of the two protocols that generate and reshare the key.
pub mod Phases
pub mod Agreement
pub mod Rollback
pub mod Resharing
use Prim.Native.Nat.{compare, Ordering}
use mpc_recovery.Prelude.{
  ℕ, ◌+◌, Bool, true, false, not, ◌&&◌, ◌||◌, List, [], ◌∷◌, Option, none, some, ◌==◌, ltb,
  if◌then◌else◌, u64,
}
use mpc_recovery.Collections.Map
use mpc_recovery.Collections.Map.{Map}
use mpc_recovery.Collections.HashSet
use mpc_recovery.Node.Participants.{
  AccountId, Participant, Participants, ParticipantInfo, participants_of_candidates, keys,
  find_participant, contains_account_id, eq_participants,
}
use mpc_recovery.Node.CaitSith.{CaitSith, Result, ok, err}
use mpc_recovery.Node.Message.{MessageQueue}
use mpc_recovery.Node.Triple
use mpc_recovery.Node.Presignature
use mpc_recovery.Node.Signature
use mpc_recovery.Node.ContractState.{
  ProtocolState, InitializingContractState, RunningContractState, ResharingContractState,
}
use mpc_recovery.Node.State.{
  KeygenProtocol, ReshareProtocol, PersistentNodeData, GeneratingState, WaitingForConsensusState,
  RunningState, ResharingState, JoiningState, NodeState, starting, started, generating,
  waiting_for_consensus, running, resharing, joining,
}

pub data ConsensusError (C : CaitSith) : Type 0 where
  contract_state_rollback : ConsensusError C
  epoch_rollback : ConsensusError C
  mismatched_public_key : ConsensusError C
  mismatched_threshold : ConsensusError C
  mismatched_participants : ConsensusError C
  has_been_kicked : ConsensusError C
  initialization_error : C.InitializationError → ConsensusError C
  secret_storage_error : ConsensusError C

-- `Result<NodeState, ConsensusError>`, or a panic of an `unwrap`.
pub data Outcome (C : CaitSith) : Type 0 where
  advanced : NodeState C → Outcome C
  refused : ConsensusError C → Outcome C
  panicked : Outcome C

-- A call to the outside: a transaction to the contract, or a request to another node.
pub data Effect : Type 0 where
  vote_for_public_key : ℕ → Effect
  vote_reshared : ℕ → Effect
  send_join : Effect
  request_join : ℕ → AccountId → Effect

-- What `advance` asks of the node around it: its account, the stored key share (`none` is an error
-- of the storage), the near key of a point, and which calls to the outside succeed.
pub record Ctx (C : CaitSith) : Type 0 where
  pub my_account_id : AccountId
  pub load : Option (Option (PersistentNodeData C))
  pub near_key : ℕ → ℕ
  pub succeeds : Effect → Bool

-- The calls made, in order, and the outcome.
pub record Advance (C : CaitSith) : Type 0 where
  pub effects : List Effect
  pub outcome : Outcome C

module _ (C : CaitSith) where
  -- A call to the outside whose failure is unwrapped, and what follows it.
  unfoldable pub perform : Ctx C → Effect → Advance C → Advance C
  perform ctx e next =
      if ctx.succeeds e
      then record { effects = e ∷ next.effects; outcome = next.outcome }
      else record { effects = e ∷ []; outcome = panicked }

  abbrev pub quietly : Outcome C → Advance C
  quietly outcome = record { effects = []; outcome = outcome }

  -- `KeygenProtocol::new`
  unfoldable pub new_keygen :
      List Participant → Participant → ℕ → Result C.InitializationError (KeygenProtocol C)
  new_keygen participants me threshold = elim (C.new_keygen participants me threshold) [
    | err e ↦ err e
    | ok protocol ↦ ok (record {
      me = me;
      threshold = threshold;
      participants = participants;
      protocol = protocol;
    })
  ]

  -- `ReshareProtocol::new`
  unfoldable pub new_reshare :
      Option C.Scalar
      → Participant
      → ResharingContractState
      → Result C.InitializationError (ReshareProtocol C)
  new_reshare private_share me s =
      elim (C.new_reshare (keys s.old_participants) s.threshold (keys s.new_participants)
        s.threshold me private_share s.public_key) [
          | err e ↦ err e
          | ok protocol ↦ ok (record {
            old_participants = keys s.old_participants;
            new_participants = keys s.new_participants;
            me = me;
            threshold = s.threshold;
            private_share = private_share;
            protocol = protocol;
            root_pk = s.public_key;
          })
        ]

  -- `start_resharing`, from the number of this node among the new participants on.
  unfoldable pub start_resharing_as :
      Option Participant → Option C.Scalar → ResharingContractState → Outcome C
  unfolding new_reshare
  start_resharing_as none private_share s = panicked
  start_resharing_as (some me) private_share s = elim (new_reshare private_share me s) [
    | err e ↦ refused (initialization_error e)
    | ok protocol ↦ advanced (
        resharing (record {
          old_epoch = s.old_epoch;
          old_participants = s.old_participants;
          new_participants = s.new_participants;
          threshold = s.threshold;
          public_key = s.public_key;
          protocol = protocol;
          messages = [];
        }))
  ]

  unfoldable pub start_resharing : Option C.Scalar → Ctx C → ResharingContractState → Outcome C
  unfolding start_resharing_as
  start_resharing private_share ctx s =
      start_resharing_as (find_participant ctx.my_account_id s.new_participants) private_share s

  abbrev pub join_again : Participants → ℕ → Outcome C
  join_again participants public_key =
      advanced (joining (record { participants = participants; public_key = public_key }))

  -- A running state with new managers, for the participant `me`.
  unfoldable pub start_running :
      ℕ → Participants → ℕ → C.Scalar → ℕ → ℕ → Participant → MessageQueue C → RunningState C
  unfolding Triple.new Presignature.new Signature.new
  start_running epoch participants threshold private_share public_key root_pk me messages = record {
    epoch = epoch;
    participants = participants;
    threshold = threshold;
    private_share = private_share;
    public_key = public_key;
    triple_manager = Triple.new C (keys participants) me threshold epoch;
    presignature_manager = Presignature.new C (keys participants) me threshold epoch;
    signature_manager = Signature.new C (keys participants) me root_pk epoch;
    messages = messages;
  }

  -- `StartedState` with stored data, while the contract runs: a participant goes on, others join.
  unfoldable pub resume :
      PersistentNodeData C → RunningContractState → Option Participant → Outcome C
  unfolding start_running
  resume d s (some me) = advanced (
      running (
        start_running d.epoch s.participants s.threshold d.private_share d.public_key s.public_key
          me []))
  resume d s none = join_again s.participants d.public_key

  unfoldable pub started_with : Ctx C → PersistentNodeData C → ProtocolState → Outcome C
  unfolding resume start_resharing
  started_with ctx d (ProtocolState.initializing s) = refused contract_state_rollback
  started_with ctx d (ProtocolState.running s) =
      if s.public_key == d.public_key
      then (elim (compare s.epoch d.epoch) [
        | Ordering.gt ↦ join_again s.participants d.public_key
        | Ordering.lt ↦ refused epoch_rollback
        | Ordering.eq ↦ resume d s (find_participant ctx.my_account_id s.participants)
      ])
      else refused mismatched_public_key
  started_with ctx d (ProtocolState.resharing s) =
      if s.public_key == d.public_key
      then (elim (compare s.old_epoch d.epoch) [
        | Ordering.gt ↦ join_again s.old_participants d.public_key
        | Ordering.lt ↦ refused epoch_rollback
        | Ordering.eq ↦ start_resharing (some d.private_share) ctx s
      ])
      else refused mismatched_public_key

  -- `StartedState` without data, while the contract is initialising: a candidate generates the key.
  unfoldable pub begin_keygen :
      InitializingContractState → Participants → Option Participant → Outcome C
  unfolding new_keygen
  begin_keygen s participants none = advanced (started none)
  begin_keygen s participants (some me) = elim (new_keygen (keys participants) me s.threshold) [
    | err e ↦ refused (initialization_error e)
    | ok protocol ↦ advanced (
        generating (record {
          participants = participants;
          threshold = s.threshold;
          protocol = protocol;
          messages = [];
        }))
  ]

  unfoldable pub started_without : Ctx C → ProtocolState → Outcome C
  unfolding begin_keygen participants_of_candidates find_participant
  started_without ctx (ProtocolState.initializing s) =
      let participants = participants_of_candidates s.candidates in
      begin_keygen s participants (find_participant ctx.my_account_id participants)
  started_without ctx (ProtocolState.running s) = join_again s.participants s.public_key
  started_without ctx (ProtocolState.resharing s) = join_again s.old_participants s.public_key

  unfoldable pub advance_generating : GeneratingState C → ProtocolState → Outcome C
  advance_generating g (ProtocolState.initializing s) = advanced (generating g)
  advance_generating g (ProtocolState.running s) =
      if ltb 0 s.epoch
      then join_again s.participants s.public_key
      else (if not (eq_participants g.participants s.participants)
          then refused mismatched_participants
          else (if not (g.threshold == s.threshold)
              then refused mismatched_threshold
              else advanced (generating g)))
  advance_generating g (ProtocolState.resharing s) =
      if ltb 0 s.old_epoch
      then join_again s.old_participants s.public_key
      else (if not (eq_participants g.participants s.old_participants)
          then refused mismatched_participants
          else (if not (g.threshold == s.threshold)
              then refused mismatched_threshold
              else advanced (generating g)))
