-- ===== src/Node/Message.antt =====
-- node/src/protocol/message.rs, the messages between nodes; node/src/http_client.rs, the queue of
-- messages to be sent.
use mpc_recovery.Prelude.{ℕ, List}
use mpc_recovery.Node.Participants.{Participant, ParticipantInfo}
use mpc_recovery.Node.CaitSith.{CaitSith}

pub record GeneratingMessage (C : CaitSith) : Type 0 where
  pub from : Participant
  pub body : C.Data

pub record ResharingMessage (C : CaitSith) : Type 0 where
  pub epoch : ℕ
  pub from : Participant
  pub body : C.Data

pub record TripleMessage (C : CaitSith) : Type 0 where
  pub id : ℕ
  pub epoch : ℕ
  pub from : Participant
  pub body : C.Data

pub record PresignatureMessage (C : CaitSith) : Type 0 where
  pub id : ℕ
  pub triple0 : ℕ
  pub triple1 : ℕ
  pub epoch : ℕ
  pub from : Participant
  pub body : C.Data

pub record SignatureMessage (C : CaitSith) : Type 0 where
  pub receipt_id : ℕ
  pub proposer : Participant
  pub presignature_id : ℕ
  pub msg_hash : ℕ
  pub epsilon : C.Scalar
  pub delta : C.Scalar
  pub epoch : ℕ
  pub from : Participant
  pub body : C.Data

pub data MpcMessage (C : CaitSith) : Type 0 where
  generating : GeneratingMessage C → MpcMessage C
  resharing : ResharingMessage C → MpcMessage C
  triple : TripleMessage C → MpcMessage C
  presignature : PresignatureMessage C → MpcMessage C
  signature : SignatureMessage C → MpcMessage C

-- `MessageQueue`: the oldest message first.
abbrev pub MessageQueue : CaitSith → Type 0
MessageQueue C = List (ParticipantInfo × MpcMessage C)
