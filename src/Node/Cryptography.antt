-- ===== src/Node/Cryptography.antt =====
-- node/src/protocol/cryptography.rs: how the node that generates or reshares the key, or waits for
-- the contract, makes progress; node/src/types.rs: how a failed protocol is started again.
pub mod Running
pub mod Signing
pub mod Rounds
pub mod Requests
pub mod Handover
pub mod Generation
use mpc_recovery.Prelude.{
  ℕ, ◌+◌, Bool, true, false, List, [], Option, none, some, u64, if◌then◌else◌,
}
use mpc_recovery.Node.Participants.{Participant, ParticipantInfo}
use mpc_recovery.Node.CaitSith.{CaitSith, ok, err}
use mpc_recovery.Node.Message.{MpcMessage, MessageQueue}
use mpc_recovery.Node.State.{
  NodeState, KeygenProtocol, ReshareProtocol, PersistentNodeData, GeneratingState,
  WaitingForConsensusState, ResharingState, generating, waiting_for_consensus, resharing,
}
use mpc_recovery.Node.SignQueue.{SignQueue, Chooser}
use mpc_recovery.Node.Outbox.{Flush, send_encrypted}
use mpc_recovery.Node.Drive.{
  Halt, waits, returns, fails, unknown, lost, exhausted, drive, send_many_to, send_private_to,
}

pub data CryptographicError (C : CaitSith) : Type 0 where
  unknown_participant : Participant → CryptographicError C
  cait_sith_initialization_error : C.InitializationError → CryptographicError C
  cait_sith_protocol_error : C.ProtocolError → CryptographicError C
  rpc_error : CryptographicError C
  secret_storage_error : CryptographicError C
  data_conversion : CryptographicError C
  encryption : CryptographicError C

-- What `progress` asks of the node around it: its number (`none` is the panic of
-- `get_my_participant`), how the attempts to send end, before and after the work, whether the key
-- share can be stored, how the transactions with signatures end, two random ids, the seeded choice of
-- signers, and the fuel of the loops.
pub record CryptographicCtx : Type 0 where
  pub me : Option Participant
  pub before : List Bool
  pub after : List Bool
  pub stores : Bool
  pub published : List Bool
  pub triple_id : ℕ
  pub presignature_id : ℕ
  pub chooser : Chooser
  pub fuel : ℕ

pub data Progress (C : CaitSith) : Type 0 where
  progressed : NodeState C → Progress C
  refused : CryptographicError C → Progress C
  panicked : Progress C
  -- the fuel is spent
  stalled : Progress C

-- The outcome; the state that the node has kept, whose protocols, managers and messages are shared
-- with the one that makes progress; what was sent and what was stored.
pub record Progressed (C : CaitSith) : Type 0 where
  pub outcome : Progress C
  pub kept : NodeState C
  pub sent : MessageQueue C
  pub stored : Option (PersistentNodeData C)

module _ (C : CaitSith) where
  -- A message of the generating, and of the resharing node.
  abbrev pub generating_message : C.Data → Participant → MpcMessage C
  generating_message d from = MpcMessage.generating (record { from = from; body = d })

  abbrev pub resharing_message : ℕ → C.Data → Participant → MpcMessage C
  resharing_message old_epoch d from =
      MpcMessage.resharing (record { epoch = old_epoch; from = from; body = d })

  -- `KeygenProtocol::refresh`; where it fails the protocol stays as it is.
  unfoldable pub refresh_keygen : KeygenProtocol C → KeygenProtocol C
  refresh_keygen k = elim (C.new_keygen k.participants k.me k.threshold) [
    | err e ↦ k
    | ok protocol ↦ record k { protocol = protocol }
  ]

  -- `ReshareProtocol::refresh`
  unfoldable pub refresh_reshare : ReshareProtocol C → ReshareProtocol C
  refresh_reshare r =
      elim (C.new_reshare r.old_participants r.threshold r.new_participants r.threshold r.me
        r.private_share r.root_pk) [ err e ↦ r | ok protocol ↦ record r { protocol = protocol } ]

  -- Nothing was sent or stored.
  abbrev pub silently : Progress C → NodeState C → Progressed C
  silently outcome kept = record { outcome = outcome; kept = kept; sent = []; stored = none }

  -- The messages are sent as far as possible, then the node is in the state that `next` makes of
  -- the rest.
  unfoldable pub flush_then :
      CryptographicCtx
      → (MessageQueue C → NodeState C)
      → (MessageQueue C → NodeState C)
      → Option (PersistentNodeData C)
      → MessageQueue C
      → Progressed C
  unfolding send_encrypted
  flush_then ctx kept next stored queue = elim ctx.me [
    | none ↦ record { outcome = panicked; kept = kept queue; sent = []; stored = stored }
    | some me ↦
        let f = send_encrypted C ctx.after queue in
        record {
          outcome = progressed (next f.left);
          kept = kept f.left;
          sent = f.sent;
          stored = stored;
        }
  ]

  abbrev pub with_keygen : GeneratingState C → C.keygen.State → MessageQueue C → GeneratingState C
  with_keygen g s queue = record g {
    protocol = record g.protocol { protocol = s };
    messages = queue;
  }

  -- The end of the loop of `GeneratingState::progress`. The share of a new key is stored before the
  -- node waits for the contract.
  unfoldable pub settle_generating :
      CryptographicCtx
      → GeneratingState C
      → Halt C.keygen.State C.ProtocolError (C.Scalar × ℕ) × MessageQueue C
      → Progressed C
  unfolding flush_then refresh_keygen
  settle_generating ctx g (waits s, queue) =
      let next : MessageQueue C → NodeState C = λ left. generating (with_keygen g s left) in
      flush_then ctx next next none queue
  settle_generating ctx g (returns s (private_share, public_key), queue) =
      if ctx.stores
      then flush_then ctx (λ left. generating (with_keygen g s left))
          (λ left. waiting_for_consensus (record {
            epoch = 0;
            participants = g.participants;
            threshold = g.threshold;
            private_share = private_share;
            public_key = public_key;
            messages = left;
          }))
          (some (record { epoch = 0; private_share = private_share; public_key = public_key }))
          queue
      else silently (refused secret_storage_error) (generating (with_keygen g s queue))
  settle_generating ctx g (fails s e, queue) =
      let g' = with_keygen g s queue in
      silently (refused (cait_sith_protocol_error e))
        (generating (record g' { protocol = refresh_keygen g'.protocol }))
  settle_generating ctx g (unknown s p, queue) =
      silently (refused (unknown_participant p)) (generating (with_keygen g s queue))
  settle_generating ctx g (lost s, queue) = silently panicked (generating (with_keygen g s queue))
  settle_generating ctx g (exhausted s, queue) =
      silently stalled (generating (with_keygen g s queue))

  -- `GeneratingState::progress`
  unfoldable pub progress_generating : CryptographicCtx → GeneratingState C → Progressed C
  unfolding settle_generating drive send_many_to send_private_to
  progress_generating ctx g = settle_generating ctx g (
      drive C.keygen (λ d. send_many_to ctx.me g.participants (generating_message d))
        (λ p d. send_private_to ctx.me g.participants p (generating_message d)) ctx.fuel
        g.protocol.protocol g.messages)

  -- `WaitingForConsensusState::progress`
  unfoldable pub progress_waiting : CryptographicCtx → WaitingForConsensusState C → Progressed C
  unfolding flush_then
  progress_waiting ctx w =
      let next : MessageQueue C → NodeState C =
        λ left. waiting_for_consensus (record w { messages = left }) in
      flush_then ctx next next none w.messages

  abbrev pub with_reshare : ResharingState C → C.reshare.State → MessageQueue C → ResharingState C
  with_reshare r s queue = record r {
    protocol = record r.protocol { protocol = s };
    messages = queue;
  }

  -- The end of the loop of `ResharingState::progress`.
  unfoldable pub settle_resharing :
      CryptographicCtx
      → ResharingState C
      → Halt C.reshare.State C.ProtocolError C.Scalar × MessageQueue C
      → Progressed C
  unfolding flush_then refresh_reshare
  settle_resharing ctx r (waits s, queue) =
      let next : MessageQueue C → NodeState C = λ left. resharing (with_reshare r s left) in
      flush_then ctx next next none queue
  settle_resharing ctx r (returns s private_share, queue) =
      flush_then ctx (λ left. resharing (with_reshare r s left))
        (λ left. waiting_for_consensus (record {
          epoch = u64 (r.old_epoch + 1);
          participants = r.new_participants;
          threshold = r.threshold;
          private_share = private_share;
          public_key = r.public_key;
          messages = left;
        }))
        none queue
  settle_resharing ctx r (fails s e, queue) =
      let r' = with_reshare r s queue in
      silently (refused (cait_sith_protocol_error e))
        (resharing (record r' { protocol = refresh_reshare r'.protocol }))
  settle_resharing ctx r (unknown s p, queue) =
      silently (refused (unknown_participant p)) (resharing (with_reshare r s queue))
  settle_resharing ctx r (lost s, queue) = silently panicked (resharing (with_reshare r s queue))
  settle_resharing ctx r (exhausted s, queue) =
      silently stalled (resharing (with_reshare r s queue))

  -- `ResharingState::progress`
  unfoldable pub progress_resharing : CryptographicCtx → ResharingState C → Progressed C
  unfolding settle_resharing drive send_many_to send_private_to
  progress_resharing ctx r = settle_resharing ctx r (
      drive C.reshare
        (λ d. send_many_to ctx.me r.new_participants (resharing_message r.old_epoch d))
        (λ p d. send_private_to ctx.me r.new_participants p (resharing_message r.old_epoch d))
        ctx.fuel r.protocol.protocol r.messages)
