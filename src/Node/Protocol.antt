-- ===== src/Node/Protocol.antt =====
-- node/src/protocol/mod.rs: the loop in which the node makes progress, advances with the contract and
-- handles messages; node/src/storage.rs: the stored key share.
pub mod Storage
pub mod Agreement
use mpc_recovery.Prelude.{
  ℕ, Bool, true, false, List, [], ◌∷◌, ◌++◌, Option, none, some, if◌then◌else◌,
}
use mpc_recovery.Node.Participants.{AccountId, Participant}
use mpc_recovery.Node.CaitSith.{CaitSith}
use mpc_recovery.Node.Message.{MpcMessage, MessageQueue}
use mpc_recovery.Node.ContractState.{ProtocolState}
use mpc_recovery.Node.State.{NodeState, PersistentNodeData, starting, running, find_info}
use mpc_recovery.Node.SignQueue
use mpc_recovery.Node.SignQueue.{SignQueue, SignRequest}
use mpc_recovery.Node.Queue
use mpc_recovery.Node.Queue.{MpcMessageQueue}
use mpc_recovery.Node.Intake.{Stop, failed, crashed}
use mpc_recovery.Node.Running.{Handling, handle}
use mpc_recovery.Node.Consensus.{Ctx, Effect, Advance, Outcome, advanced, refused, panicked}
use mpc_recovery.Node.Consensus.Phases.{advance}
use mpc_recovery.Node.Cryptography.{CryptographicCtx, Progress, progressed, stalled, Progressed}
use mpc_recovery.Node.Cryptography.Rounds.{Round, progress}

-- `MpcSignProtocol`: the node's state, the received messages that are not handled yet, the queue of
-- requests, and the stored key share.
pub record MpcSignProtocol (C : CaitSith) : Type 0 where
  pub state : NodeState C
  pub queue : MpcMessageQueue C
  pub sign_queue : SignQueue C
  pub secret_storage : Option (PersistentNodeData C)

-- What one turn of the loop meets: the requests that the indexer has added since the last one; the
-- contract's state, if it can be fetched; the received messages, and whether the channel is closed
-- after them; whether the stored share can be loaded; and what the work and the calls to the outside
-- meet.
pub record Meeting (C : CaitSith) : Type 0 where
  pub requested : List (SignRequest C)
  pub contract : Option ProtocolState
  pub received : List (MpcMessage C)
  pub disconnected : Bool
  pub loads : Bool
  pub near_key : ℕ → ℕ
  pub succeeds : Effect → Bool
  pub work : CryptographicCtx

pub data Verdict : Type 0 where
  -- the new state is stored
  stored : Verdict
  -- an error, after which the loop starts again
  repeats : Verdict
  -- the channel is closed
  ends : Verdict
  panics : Verdict
  -- the fuel of a loop is spent
  stalls : Verdict

abbrev pub goes_on : Verdict → Bool
goes_on stored = true
goes_on repeats = true
goes_on _ = false

pub record Turn (C : CaitSith) : Type 0 where
  pub protocol : MpcSignProtocol C
  pub verdict : Verdict

module _ (C : CaitSith) where
  -- `MpcSignProtocol::init`, with what the storage holds.
  abbrev pub init : SignQueue C → Option (PersistentNodeData C) → MpcSignProtocol C
  init sign_queue data_stored = record {
    state = starting;
    queue = record {
      generating = [];
      resharing_bins = [];
      triple_bins = [];
      presignature_bins = [];
      signature_bins = [];
    };
    sign_queue = sign_queue;
    secret_storage = data_stored;
  }

  unfoldable pub receive : List (MpcMessage C) → MpcMessageQueue C → MpcMessageQueue C
  unfolding Queue.push
  receive [] queue = queue
  receive (message ∷ messages) queue = receive messages (Queue.push C message queue)

  unfoldable pub add_all : List (SignRequest C) → SignQueue C → SignQueue C
  unfolding SignQueue.add
  add_all [] q = q
  add_all (request ∷ requests) q = add_all requests (SignQueue.add C request q)

  -- `store`, where something is stored.
  abbrev pub overwrite :
      Option (PersistentNodeData C) → Option (PersistentNodeData C) → Option (PersistentNodeData C)
  overwrite none old = old
  overwrite (some d) old = some d

  -- The managers of a running state are shared with the state that was read at the turn's start.
  unfoldable pub kept_after : NodeState C → NodeState C → NodeState C
  kept_after (running _) (running r) = running r
  kept_after old new = old

module _ (C : CaitSith) (my_account_id : AccountId) where
  -- `get_my_participant`; `none` is its panic.
  unfoldable pub get_my_participant : NodeState C → Option Participant
  unfolding find_info
  get_my_participant n = elim (find_info C my_account_id n) [
    | none ↦ none
    | some info ↦ some info.id
  ]

  -- The last part of a turn: the messages are handled and the state is stored.
  unfoldable pub finish : MpcSignProtocol C → NodeState C → Turn C
  unfolding handle kept_after
  finish p n =
      let h = handle C n p.queue in
      elim h.stop [
        | none ↦ record {
          protocol = record p { state = h.state; queue = h.queue };
          verdict = stored;
        }
        | some (failed _) ↦ record {
          protocol = record p { state = kept_after C p.state h.state; queue = h.queue };
          verdict = repeats;
        }
        | some crashed ↦ record {
          protocol = record p { state = kept_after C p.state h.state; queue = h.queue };
          verdict = panics;
        }
      ]

  abbrev pub consensus_ctx : Meeting C → Option (PersistentNodeData C) → Ctx C
  consensus_ctx m data_stored = record {
    my_account_id = my_account_id;
    load = if m.loads then some data_stored else none;
    near_key = m.near_key;
    succeeds = m.succeeds;
  }

  -- The part after `progress`.
  unfoldable pub go_on : MpcSignProtocol C → Outcome C → Turn C
  unfolding finish
  go_on p (advanced n) = finish p n
  go_on p (refused _) = record { protocol = p; verdict = repeats }
  go_on p panicked = record { protocol = p; verdict = panics }

  unfoldable pub after_progress :
      Meeting C → ProtocolState → MpcSignProtocol C → Progress C → Turn C
  unfolding advance go_on
  after_progress m contract p (progressed n) =
      go_on p (advance C (consensus_ctx m p.secret_storage) n contract).outcome
  after_progress m contract p (Progress.refused _) = record { protocol = p; verdict = repeats }
  after_progress m contract p Progress.panicked = record { protocol = p; verdict = panics }
  after_progress m contract p stalled = record { protocol = p; verdict = stalls }

  -- The work of a turn, on the state as it was read.
  unfoldable pub work : Meeting C → MpcSignProtocol C → Round C
  unfolding get_my_participant progress
  work m p = progress C (record m.work { me = get_my_participant p.state }) p.sign_queue p.state

  abbrev pub with_work : MpcSignProtocol C → Round C → MpcSignProtocol C
  with_work p round = record p {
    state = round.progress.kept;
    sign_queue = round.queue;
    secret_storage = overwrite C round.progress.stored p.secret_storage;
  }

  unfoldable pub take_part : Meeting C → ProtocolState → MpcSignProtocol C → Turn C
  unfolding work after_progress
  take_part m contract p =
      let round = work m p in after_progress m contract (with_work p round) round.progress.outcome

  -- A turn from the contract's state on: the messages are received, unless the channel is closed.
  unfoldable pub attend : Meeting C → ProtocolState → MpcSignProtocol C → Turn C
  unfolding take_part receive
  attend m contract p =
      let p' = record p { queue = receive C m.received p.queue } in
      if m.disconnected then record { protocol = p'; verdict = ends } else take_part m contract p'

  -- One turn of the loop of `run`.
  unfoldable pub turn : Meeting C → MpcSignProtocol C → Turn C
  unfolding attend add_all
  turn m p =
      let p' = record p { sign_queue = add_all C m.requested p.sign_queue } in
      elim m.contract [
        | none ↦ record { protocol = p'; verdict = repeats }
        | some contract ↦ attend m contract p'
      ]

  -- `run`, turn by turn, as long as it goes on.
  unfoldable pub run : List (Meeting C) → MpcSignProtocol C → MpcSignProtocol C
  unfolding turn
  run [] p = p
  run (m ∷ meetings) p =
      let t = turn m p in
      let rest = run meetings t.protocol in if goes_on t.verdict then rest else t.protocol
