-- ===== src/Node/Running.antt =====
-- node/src/protocol/message.rs: how the running node handles the queue of received messages, and the
-- node in any phase.
pub mod Postponed
use mpc_recovery.Prelude.{ℕ, List, [], ◌∷◌, ◌++◌, Option, none, some}
use mpc_recovery.Collections.Map
use mpc_recovery.Collections.Map.{Map}
use mpc_recovery.Node.CaitSith.{CaitSith}
use mpc_recovery.Node.Message.{PresignatureMessage, SignatureMessage}
use mpc_recovery.Node.Triple.{TripleManager}
use mpc_recovery.Node.Presignature
use mpc_recovery.Node.Presignature.{PresignatureManager}
use mpc_recovery.Node.Signature
use mpc_recovery.Node.Signature.{SignatureManager}
use mpc_recovery.Node.State.{
  NodeState, RunningState, starting, started, generating, waiting_for_consensus, running, resharing,
  joining,
}
use mpc_recovery.Node.Queue.{
  MpcMessageQueue, bin, handle_triples, handle_generating, handle_resharing,
}
use mpc_recovery.Node.Intake.{Stop, failed, handle_presignatures, handle_signatures}

-- The node and the queue after `handle`, and whether it ended early.
pub record Handling (C : CaitSith) (S : Type 0) : Type 0 where
  pub state : S
  pub queue : MpcMessageQueue C
  pub stop : Option (Stop C)

module _ (C : CaitSith) where
  -- `RunningState::handle`, one loop after the other.
  unfoldable pub handle_running_signatures :
      RunningState C → MpcMessageQueue C → Handling C (RunningState C)
  unfolding handle_signatures
  handle_running_signatures r q =
      let p =
        handle_signatures C (bin r.epoch q.signature_bins) r.presignature_manager
          r.signature_manager in
      record {
        state = record r { presignature_manager = p.presignatures; signature_manager = p.manager };
        queue = record q { signature_bins = Map.insert r.epoch p.left q.signature_bins };
        stop = p.stop;
      }

  unfoldable pub handle_running_presignatures :
      RunningState C → MpcMessageQueue C → Handling C (RunningState C)
  unfolding handle_presignatures handle_running_signatures
  handle_running_presignatures r q =
      let p =
        handle_presignatures C r.public_key r.private_share (bin r.epoch q.presignature_bins)
          r.triple_manager r.presignature_manager in
      let r' = record r { triple_manager = p.triples; presignature_manager = p.manager } in
      let q' = record q { presignature_bins = Map.insert r.epoch p.left q.presignature_bins } in
      elim p.stop [
        | some stop ↦ record { state = r'; queue = q'; stop = some stop }
        | none ↦ handle_running_signatures r' q'
      ]

  unfoldable pub handle_running : RunningState C → MpcMessageQueue C → Handling C (RunningState C)
  unfolding handle_triples handle_running_presignatures
  handle_running r q =
      let h = handle_triples C (bin r.epoch q.triple_bins) r.triple_manager in
      let r' = record r { triple_manager = h.manager } in
      let q' = record q { triple_bins = Map.insert r.epoch h.bins q.triple_bins } in
      elim h.error [
        | some e ↦ record { state = r'; queue = q'; stop = some (failed e) }
        | none ↦ handle_running_presignatures r' q'
      ]

  -- `NodeState::handle`
  unfoldable pub handle : NodeState C → MpcMessageQueue C → Handling C (NodeState C)
  unfolding handle_generating handle_resharing handle_running
  handle (generating s) q =
      let (s', q') = handle_generating C s q in
      record { state = generating s'; queue = q'; stop = none }
  handle (resharing s) q =
      let (s', q') = handle_resharing C s q in
      record { state = resharing s'; queue = q'; stop = none }
  handle (running s) q =
      let h = handle_running s q in
      record { state = running h.state; queue = h.queue; stop = h.stop }
  handle s q = record { state = s; queue = q; stop = none }
