-- ===== src/Node/Resharing.antt =====
-- A resharing from its end at the node to the running node: contract/src/lib.rs and
-- node/src/protocol/{cryptography,consensus}.rs together.
use mpc_recovery.Prelude.{◌+◌, ◌≡◌, inl, inr, some, arith, Option-cases, u64}
use mpc_recovery.Contract.State.{
  ResharingContractState as OnChainResharing, RunningContractState as OnChainRunning,
  ProtocolContractState, Env,
}
use mpc_recovery.Contract.Calls.{Call, step_protocol}
use mpc_recovery.Contract.Invariant.{IsValidResharing}
use mpc_recovery.Contract.Quorum.{running-IsQuorum, Completes}
use mpc_recovery.Node.Participants.{Participant, find_participant}
use mpc_recovery.Node.Participants.Laws.{eq_participants_sound, eq_participants_refl}
use mpc_recovery.Node.CaitSith.{CaitSith}
use mpc_recovery.Node.Message.{MessageQueue}
use mpc_recovery.Node.ContractState.{
  Conversions, RunningContractState, ResharingContractState, ProtocolState, participants_from,
  candidates_from, running_from, resharing_from,
}
use mpc_recovery.Node.State.{
  ResharingState, WaitingForConsensusState, resharing, waiting_for_consensus, running,
}
use mpc_recovery.Node.Drive.{Halt, waits, returns, fails, unknown, lost, exhausted}
use mpc_recovery.Node.Cryptography.{
  CryptographicCtx, progressed, flush_then, settle_resharing, progress_resharing,
}
use mpc_recovery.Node.Consensus.{Ctx, advanced, quietly, start_running}
use mpc_recovery.Node.Consensus.Phases.{advance_waiting, advance_resharing, reach_consensus}

module _ (k : Conversions) where
  resharing_from-fields :
      (q : OnChainResharing) (read : ResharingContractState)
      → resharing_from k q ≡ some read
      → (participants_from k q.new_participants ≡ some read.new_participants)
        × (k.affine_point q.public_key ≡ some read.public_key)
        × (read.old_epoch ≡ q.old_epoch)
        × (read.threshold ≡ q.threshold)
  unfolding resharing_from
  resharing_from-fields q read e = elim (Option-cases (participants_from k q.old_participants)) [
    | inl missing ↦ absurd (ground arith)
    | inr (old, old_found) ↦ elim (Option-cases (participants_from k q.new_participants)) [
      | inl missing ↦ absurd (ground arith)
      | inr (new, found) ↦ elim (Option-cases (k.affine_point q.public_key)) [
        | inl no_point ↦ absurd (ground arith)
        | inr (point, decoded_key) ↦ ground arith
      ]
    ]
  ]

  running_from-fields :
      (r : OnChainRunning) (read : RunningContractState)
      → running_from k r ≡ some read
      → (participants_from k r.participants ≡ some read.participants)
        × (k.affine_point r.public_key ≡ some read.public_key)
        × (read.epoch ≡ r.epoch)
        × (read.threshold ≡ r.threshold)
  unfolding running_from
  running_from-fields r read e = elim (Option-cases (participants_from k r.participants)) [
    | inl missing ↦ absurd (ground arith)
    | inr (ps, found) ↦ elim (Option-cases (k.affine_point r.public_key)) [
      | inl no_point ↦ absurd (ground arith)
      | inr (point, decoded_key) ↦ elim (Option-cases (candidates_from k r.candidates)) [
        | inl missing ↦ absurd (ground arith)
        | inr (c, candidates) ↦ ground arith
      ]
    ]
  ]

  -- What a node reads of the contract before and after the resharing is completed.
  Completes-read :
      (q : OnChainResharing) (r : OnChainRunning) (read : ResharingContractState)
      (read_after : RunningContractState)
      → Completes q r
      → resharing_from k q ≡ some read
      → running_from k r ≡ some read_after
      → (read_after.epoch ≡ u64 (read.old_epoch + 1))
        × (read_after.participants ≡ read.new_participants)
        × (read_after.threshold ≡ read.threshold)
        × (read_after.public_key ≡ read.public_key)
  Completes-read q r read read_after c before after =
      let (new, point, epoch, threshold) = resharing_from-fields q read before in
      let (new', point', epoch', threshold') = running_from-fields r read_after after in
      ground (arith, c.epoch, c.participants, c.threshold, c.public_key)

module _ (C : CaitSith) where
  -- The node waits with what it has reshared to.
  abbrev ReachesEnd : ResharingState C → WaitingForConsensusState C → Type 0
  ReachesEnd n w =
      (w.epoch ≡ u64 (n.old_epoch + 1))
      × (w.participants ≡ n.new_participants)
      × (w.threshold ≡ n.threshold)
      × (w.public_key ≡ n.public_key)

  settle_resharing-end :
      (ctx : CryptographicCtx) (n : ResharingState C) (w : WaitingForConsensusState C)
      (h : Halt C.reshare.State C.ProtocolError C.Scalar) (queue : MessageQueue C)
      → (settle_resharing C ctx n (h, queue)).outcome ≡ progressed (waiting_for_consensus w)
      → ReachesEnd n w
  unfolding settle_resharing flush_then
  settle_resharing-end ctx n w (waits s) queue e = elim (Option-cases ctx.me) [
    | inl missing ↦ absurd (ground arith)
    | inr (me, known) ↦ absurd (ground arith)
  ]
  settle_resharing-end ctx n w (returns s x) queue e = elim (Option-cases ctx.me) [
    | inl missing ↦ absurd (ground arith)
    | inr (me, known) ↦ ground arith
  ]
  settle_resharing-end ctx n w (fails s x) queue e = absurd (ground arith)
  settle_resharing-end ctx n w (unknown s p) queue e = absurd (ground arith)
  settle_resharing-end ctx n w (lost s) queue e = absurd (ground arith)
  settle_resharing-end ctx n w (exhausted s) queue e = absurd (ground arith)

  -- The resharing state that a node keeps is the contract's.
  advance_resharing-kept :
      (n : ResharingState C) (read : ResharingContractState)
      → advance_resharing C n (ProtocolState.resharing read) ≡ advanced (resharing n)
      → (n.old_epoch ≡ read.old_epoch)
        × (n.new_participants ≡ read.new_participants)
        × (n.threshold ≡ read.threshold)
        × (n.public_key ≡ read.public_key)
  unfolding advance_resharing
  advance_resharing-kept n read e =
      ground (arith, eq_participants_sound read.new_participants n.new_participants)

module _ (k : Conversions) (C : CaitSith) (ctx : Ctx C) where
  -- A node that reshares as the resharing contract asks it to, and whose protocol comes to its end,
  -- runs as soon as it reads the running contract that a report makes of it, if it is then among the
  -- participants: with the share that it has got, in the contract's epoch, and with new managers.
  pub resharing_agrees :
      (env : Env) (call : Call) (q : OnChainResharing) (r : OnChainRunning)
      (read : ResharingContractState) (read_after : RunningContractState) (work : CryptographicCtx)
      (n : ResharingState C) (w : WaitingForConsensusState C) (me : Participant)
      → IsValidResharing q
      → resharing_from k q ≡ some read
      → advance_resharing C n (ProtocolState.resharing read) ≡ advanced (resharing n)
      → (progress_resharing C work n).outcome ≡ progressed (waiting_for_consensus w)
      → step_protocol env call (ProtocolContractState.resharing q) ≡ ProtocolContractState.running r
      → running_from k r ≡ some read_after
      → find_participant ctx.my_account_id read_after.participants ≡ some me
      → advance_waiting C ctx w (ProtocolState.running read_after)
        ≡ quietly C (
            advanced (
              running (
                start_running C read_after.epoch read_after.participants read_after.threshold
                  w.private_share read_after.public_key read_after.public_key me w.messages)))
  unfolding progress_resharing advance_waiting reach_consensus
  resharing_agrees env call q r read read_after work n w me v before kept ends e after member =
      let completes = running-IsQuorum env call q r v e in
      let agreed = Completes-read k q r read read_after completes.1 before after in
      let asked = advance_resharing-kept C n read kept in
      let waiting = settle_resharing-end C work n w _ _ ends in
      ground (arith, eq_participants_refl read_after.participants)
