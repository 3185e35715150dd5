-- ===== src/Node/State.antt =====
-- node/src/protocol/state.rs: the phases of a node. The queue of requests is shared with the indexer
-- and is passed beside the state. node/src/types.rs: the two protocols that keep their arguments.
use mpc_recovery.Prelude.{ℕ, List, Option, none, some}
use mpc_recovery.Collections.Map
use mpc_recovery.Node.Participants.{
  Participant, ParticipantInfo, Participants, AccountId, find_participant_info,
}
use mpc_recovery.Node.CaitSith.{CaitSith}
use mpc_recovery.Node.Message.{MessageQueue}
use mpc_recovery.Node.Triple.{TripleManager}
use mpc_recovery.Node.Presignature.{PresignatureManager}
use mpc_recovery.Node.Signature.{SignatureManager}

pub record KeygenProtocol (C : CaitSith) : Type 0 where
  pub me : Participant
  pub threshold : ℕ
  pub participants : List Participant
  pub protocol : C.keygen.State

pub record ReshareProtocol (C : CaitSith) : Type 0 where
  pub old_participants : List Participant
  pub new_participants : List Participant
  pub me : Participant
  pub threshold : ℕ
  pub private_share : Option C.Scalar
  pub protocol : C.reshare.State
  pub root_pk : ℕ

pub record PersistentNodeData (C : CaitSith) : Type 0 where
  pub epoch : ℕ
  pub private_share : C.Scalar
  pub public_key : ℕ

pub record GeneratingState (C : CaitSith) : Type 0 where
  pub participants : Participants
  pub threshold : ℕ
  pub protocol : KeygenProtocol C
  pub messages : MessageQueue C

pub record WaitingForConsensusState (C : CaitSith) : Type 0 where
  pub epoch : ℕ
  pub participants : Participants
  pub threshold : ℕ
  pub private_share : C.Scalar
  pub public_key : ℕ
  pub messages : MessageQueue C

pub record RunningState (C : CaitSith) : Type 0 where
  pub epoch : ℕ
  pub participants : Participants
  pub threshold : ℕ
  pub private_share : C.Scalar
  pub public_key : ℕ
  pub triple_manager : TripleManager C
  pub presignature_manager : PresignatureManager C
  pub signature_manager : SignatureManager C
  pub messages : MessageQueue C

pub record ResharingState (C : CaitSith) : Type 0 where
  pub old_epoch : ℕ
  pub old_participants : Participants
  pub new_participants : Participants
  pub threshold : ℕ
  pub public_key : ℕ
  pub protocol : ReshareProtocol C
  pub messages : MessageQueue C

pub record JoiningState : Type 0 where
  pub participants : Participants
  pub public_key : ℕ

pub data NodeState (C : CaitSith) : Type 0 where
  starting : NodeState C
  started : Option (PersistentNodeData C) → NodeState C
  generating : GeneratingState C → NodeState C
  waiting_for_consensus : WaitingForConsensusState C → NodeState C
  running : RunningState C → NodeState C
  resharing : ResharingState C → NodeState C
  joining : JoiningState → NodeState C

-- `Option::or_else`
abbrev pub or_else {ℓ} : {A : Type ℓ} → Option A → Option A → Option A
or_else (some a) b = some a
or_else none b = b

module _ (C : CaitSith) where
  -- `NodeState::fetch_participant`; `none` is the error `UnknownParticipant`.
  unfoldable pub fetch_participant : Participant → NodeState C → Option ParticipantInfo
  fetch_participant p (running s) = Map.get p s.participants
  fetch_participant p (generating s) = Map.get p s.participants
  fetch_participant p (waiting_for_consensus s) = Map.get p s.participants
  fetch_participant p (resharing s) =
      or_else (Map.get p s.new_participants) (Map.get p s.old_participants)
  fetch_participant p (joining s) = Map.get p s.participants
  fetch_participant p _ = none

  -- `NodeState::find_participant_info`
  unfoldable pub find_info : AccountId → NodeState C → Option ParticipantInfo
  find_info account_id starting = none
  find_info account_id (started _) = none
  find_info account_id (generating s) = find_participant_info account_id s.participants
  find_info account_id (waiting_for_consensus s) = find_participant_info account_id s.participants
  find_info account_id (running s) = find_participant_info account_id s.participants
  find_info account_id (resharing s) =
      or_else (find_participant_info account_id s.new_participants)
        (find_participant_info account_id s.old_participants)
  find_info account_id (joining s) = find_participant_info account_id s.participants
