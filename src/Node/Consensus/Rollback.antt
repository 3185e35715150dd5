-- ===== src/Node/Consensus/Rollback.antt =====
-- A node never follows the contract back to an earlier epoch (node/src/protocol/consensus.rs).
use mpc_recovery.Prelude.{ℕ, ◌+◌, ◌<◌, ◌≡◌, Option, none, some, arith, u64, ◌⊎◌}
use mpc_recovery.Node.CaitSith.{CaitSith}
use mpc_recovery.Node.ContractState.{ProtocolState, RunningContractState}
use mpc_recovery.Node.State.{
  NodeState, started, starting, generating, waiting_for_consensus, running, resharing, joining,
}
use mpc_recovery.Node.Consensus.{
  Ctx, Advance, refused, epoch_rollback, mismatched_public_key, quietly, started_with,
}
use mpc_recovery.Node.Consensus.Phases.{
  advance, advance_waiting, advance_running, advance_resharing,
}

module _ (C : CaitSith) where
  -- The epoch of a running contract that a node with a key share waits for or works in.
  abbrev pub expected_epoch : NodeState C → Option ℕ
  expected_epoch (started (some d)) = some d.epoch
  expected_epoch (waiting_for_consensus w) = some w.epoch
  expected_epoch (running r) = some r.epoch
  expected_epoch (resharing q) = some (u64 (q.old_epoch + 1))
  expected_epoch _ = none

  -- Refused as a rollback, or before that for another key.
  abbrev pub IsRefusal : Advance C → Type 0
  IsRefusal a =
      (a ≡ quietly C (refused epoch_rollback)) ⊎ (a ≡ quietly C (refused mismatched_public_key))

  -- A node with a key share refuses a running contract of an earlier epoch than its own, and makes
  -- no call to the outside.
  pub rollback_refused :
      (ctx : Ctx C) (n : NodeState C) (s : RunningContractState) (epoch : ℕ)
      → expected_epoch n ≡ some epoch
      → s.epoch < epoch
      → IsRefusal (advance C ctx n (ProtocolState.running s))
  unfolding advance started_with advance_waiting advance_running advance_resharing
  rollback_refused ctx (started (some d)) s epoch e lt = ground arith
  rollback_refused ctx (started none) s epoch e lt = absurd (ground arith)
  rollback_refused ctx (waiting_for_consensus w) s epoch e lt = ground arith
  rollback_refused ctx (running r) s epoch e lt = ground arith
  rollback_refused ctx (resharing q) s epoch e lt = ground arith
  rollback_refused ctx starting s epoch e lt = absurd (ground arith)
  rollback_refused ctx (generating g) s epoch e lt = absurd (ground arith)
  rollback_refused ctx (joining j) s epoch e lt = absurd (ground arith)
