-- ===== src/Node/Protocol/Agreement.antt =====
-- What a turn of the loop makes of the node's phase (node/src/protocol/mod.rs).
use mpc_recovery.Prelude.{
  ◌≡◌, refl, sym, ap, subst, inl, inr, some, arith, Option-cases, Bool-cases, ◌∙◌,
}
use mpc_recovery.Node.Participants.{AccountId}
use mpc_recovery.Node.CaitSith.{CaitSith}
use mpc_recovery.Node.ContractState.{ProtocolState, RunningContractState}
use mpc_recovery.Node.State.{
  NodeState, RunningState, starting, started, generating, waiting_for_consensus, running, resharing,
  joining,
}
use mpc_recovery.Node.Queue.{MpcMessageQueue, bin, handle_triples}
use mpc_recovery.Node.Intake.{failed, crashed, handle_presignatures}
use mpc_recovery.Node.Running.{
  handle, handle_running, handle_running_presignatures, handle_running_signatures,
}
use mpc_recovery.Node.Consensus.{Outcome, advanced, refused, panicked}
use mpc_recovery.Node.Consensus.Phases.{advance}
use mpc_recovery.Node.Consensus.Agreement.{Agrees, AgreesWith, outcome-AgreesWith}
use mpc_recovery.Node.Cryptography.{Progress, progressed, stalled}
use mpc_recovery.Node.Protocol.{
  MpcSignProtocol, Meeting, Turn, stored, finish, go_on, after_progress, take_part, turn, work,
  with_work, consensus_ctx, attend, receive, add_all,
}

module _ (C : CaitSith) where
  handle_running_presignatures-Agrees :
      (r : RunningState C) (q : MpcMessageQueue C) (c : RunningContractState)
      → Agrees C r c
      → Agrees C (handle_running_presignatures C r q).state c
  unfolding handle_running_presignatures handle_running_signatures
  handle_running_presignatures-Agrees r q c h =
      elim (Option-cases
        (handle_presignatures C r.public_key r.private_share (bin r.epoch q.presignature_bins)
          r.triple_manager r.presignature_manager).stop) [
            | inl e ↦ ground arith
            | inr (stop, e) ↦ ground arith
          ]

  handle_running-Agrees :
      (r : RunningState C) (q : MpcMessageQueue C) (c : RunningContractState)
      → Agrees C r c
      → Agrees C (handle_running C r q).state c
  unfolding handle_running
  handle_running-Agrees r q c h =
      elim (Option-cases (handle_triples C (bin r.epoch q.triple_bins) r.triple_manager).error) [
        | inl e ↦ ground (
          arith,
          handle_running_presignatures-Agrees (record r {
            triple_manager =
                (handle_triples C (bin r.epoch q.triple_bins) r.triple_manager).manager;
          }),
        )
        | inr (stop, e) ↦ ground arith
      ]

  handle-AgreesWith :
      (s : ProtocolState) (n : NodeState C) (q : MpcMessageQueue C)
      → AgreesWith C s (advanced n)
      → AgreesWith C s (advanced (handle C n q).state)
  unfolding handle
  handle-AgreesWith (ProtocolState.running c) (running r) q h = handle_running-Agrees r q c h
  handle-AgreesWith (ProtocolState.initializing c) (running r) q h = h
  handle-AgreesWith (ProtocolState.resharing c) (running r) q h = h
  handle-AgreesWith (ProtocolState.running c) starting q h = tt
  handle-AgreesWith (ProtocolState.running c) (started _) q h = tt
  handle-AgreesWith (ProtocolState.running c) (generating _) q h = tt
  handle-AgreesWith (ProtocolState.running c) (waiting_for_consensus _) q h = tt
  handle-AgreesWith (ProtocolState.running c) (resharing _) q h = tt
  handle-AgreesWith (ProtocolState.running c) (joining _) q h = tt
  handle-AgreesWith (ProtocolState.initializing c) starting q h = tt
  handle-AgreesWith (ProtocolState.initializing c) (started _) q h = tt
  handle-AgreesWith (ProtocolState.initializing c) (generating _) q h = tt
  handle-AgreesWith (ProtocolState.initializing c) (waiting_for_consensus _) q h = tt
  handle-AgreesWith (ProtocolState.initializing c) (resharing _) q h = tt
  handle-AgreesWith (ProtocolState.initializing c) (joining _) q h = tt
  handle-AgreesWith (ProtocolState.resharing c) starting q h = tt
  handle-AgreesWith (ProtocolState.resharing c) (started _) q h = tt
  handle-AgreesWith (ProtocolState.resharing c) (generating _) q h = tt
  handle-AgreesWith (ProtocolState.resharing c) (waiting_for_consensus _) q h = tt
  handle-AgreesWith (ProtocolState.resharing c) (resharing _) q h = tt
  handle-AgreesWith (ProtocolState.resharing c) (joining _) q h = tt

  running_contract :
      (s : ProtocolState) (r : RunningState C)
      → AgreesWith C s (advanced (running r))
      → (c : RunningContractState) × (s ≡ ProtocolState.running c) × Agrees C r c
  running_contract (ProtocolState.running c) r h = (c, refl, h)
  running_contract (ProtocolState.initializing c) r h = absurd h
  running_contract (ProtocolState.resharing c) r h = absurd h

  module _ (my_account_id : AccountId) where
    -- The state of a turn that stores one.
    abbrev StoredAgrees : ProtocolState → Turn C → Type 0
    StoredAgrees s t = t.verdict ≡ stored → AgreesWith C s (advanced t.protocol.state)

    go_on-Agrees :
        (s : ProtocolState) (p : MpcSignProtocol C) (o : Outcome C)
        → AgreesWith C s o
        → StoredAgrees s (go_on C my_account_id p o)
    unfolding go_on finish
    go_on-Agrees s p (advanced n) h v =
        let kept = handle-AgreesWith s n p.queue h in
        elim (Option-cases (handle C n p.queue).stop) [
          | inl e ↦ ground arith
          | inr (failed x, e) ↦ ground arith
          | inr (crashed, e) ↦ ground arith
        ]
    go_on-Agrees s p (refused e) h v = ground arith
    go_on-Agrees s p panicked h v = ground arith

    after_progress-Agrees :
        (m : Meeting C) (s : ProtocolState) (p : MpcSignProtocol C) (o : Progress C)
        → StoredAgrees s (after_progress C my_account_id m s p o)
    unfolding after_progress
    after_progress-Agrees m s p (progressed n) v =
        let ctx = consensus_ctx C my_account_id m p.secret_storage in
        go_on-Agrees s p (advance C ctx n s).outcome (outcome-AgreesWith C ctx n s) v
    after_progress-Agrees m s p (Progress.refused e) v = ground arith
    after_progress-Agrees m s p Progress.panicked v = ground arith
    after_progress-Agrees m s p stalled v = ground arith

    attend-Agrees :
        (m : Meeting C) (s : ProtocolState) (p : MpcSignProtocol C)
        → StoredAgrees s (attend C my_account_id m s p)
    unfolding attend take_part
    attend-Agrees m s p v =
        let p' : MpcSignProtocol C = record p { queue = receive C m.received p.queue } in
        let round = work C my_account_id m p' in
        elim (Bool-cases m.disconnected) [
          | inl e ↦ ground arith
          | inr e ↦ ground (
            arith,
            after_progress-Agrees m s (with_work C my_account_id p' round) round.progress.outcome,
          )
        ]

    -- A node that stores a running state at the end of a turn has met the running contract in that
    -- turn, and it works in the contract's epoch, with its participants, threshold and public key.
    pub turn_running-Agrees :
        (m : Meeting C) (p : MpcSignProtocol C) (r : RunningState C)
        → (turn C my_account_id m p).verdict ≡ stored
        → (turn C my_account_id m p).protocol.state ≡ running r
        → (c : RunningContractState) × (m.contract ≡ some (ProtocolState.running c)) × Agrees C r c
    unfolding turn
    turn_running-Agrees m p r v e = elim (Option-cases m.contract) [
      | inl missing ↦ ground arith
      | inr (s, met) ↦
          let p' : MpcSignProtocol C = record p {
            sign_queue = add_all C m.requested p.sign_queue;
          } in
          let now : turn C my_account_id m p ≡ attend C my_account_id m s p' = ground arith in
          let agrees = subst (StoredAgrees s) (sym now) (attend-Agrees m s p') v in
          let (c, same, h) =
            running_contract s r (subst (λ n. AgreesWith C s (advanced n)) e agrees) in
          (c, met ∙ ap some same, h)
    ]
