-- ===== src/Node/Protocol/Storage.antt =====
-- What a node keeps of the key over its lives (node/src/protocol/mod.rs, node/src/storage.rs).
use mpc_recovery.Prelude.{
  ℕ, ◌≡◌, ◌<◌, refl, List, [], ◌∷◌, Option, none, some, arith, ◌==◌, if◌then◌else◌, inl, inr,
  Option-cases, subst, sym,
}
use mpc_recovery.Node.Participants.{AccountId}
use mpc_recovery.Node.CaitSith.{CaitSith}
use mpc_recovery.Node.Message.{MessageQueue}
use mpc_recovery.Node.ContractState.{ProtocolState, RunningContractState}
use mpc_recovery.Node.State.{
  NodeState, PersistentNodeData, GeneratingState, ResharingState, starting, started, generating,
  waiting_for_consensus, running, resharing, joining,
}
use mpc_recovery.Node.SignQueue.{SignQueue}
use mpc_recovery.Node.Drive.{Halt, waits, returns, fails, unknown, lost, exhausted}
use mpc_recovery.Node.Consensus.{
  Ctx, Outcome, advanced, refused, panicked, quietly, join_again, started_with,
  mismatched_public_key,
}
use mpc_recovery.Node.Consensus.Phases.{advance}
use mpc_recovery.Node.Cryptography.{
  CryptographicCtx, Progress, progressed, stalled, flush_then, settle_generating,
  progress_generating, progress_waiting, settle_resharing, progress_resharing,
}
use mpc_recovery.Node.Cryptography.Running.{Step, done, fails}
use mpc_recovery.Node.Cryptography.Rounds.{settle_running, progress_running, progress}
use mpc_recovery.Node.Protocol.{
  MpcSignProtocol, Meeting, finish, go_on, after_progress, take_part, turn, run, work, with_work,
  attend, get_my_participant, init, overwrite,
}
use mpc_recovery.Node.Intake.{failed, crashed}
use mpc_recovery.Node.Running.{handle}

module _ (C : CaitSith) where
  -- The stored share, if any, is one of epoch 0.
  abbrev pub IsFirst : Option (PersistentNodeData C) → Type 0
  IsFirst none = Unit
  IsFirst (some d) = d.epoch ≡ 0

  settle_generating-IsFirst :
      (ctx : CryptographicCtx) (g : GeneratingState C)
      (h : Halt C.keygen.State C.ProtocolError (C.Scalar × ℕ)) (queue : MessageQueue C)
      → IsFirst (settle_generating C ctx g (h, queue)).stored
  unfolding settle_generating flush_then
  settle_generating-IsFirst ctx g (waits s) queue = elim (Option-cases ctx.me) [
    | inl e ↦ ground arith
    | inr (me, e) ↦ ground arith
  ]
  settle_generating-IsFirst ctx g (returns s (x, y)) queue = elim (Option-cases ctx.me) [
    | inl e ↦ ground arith
    | inr (me, e) ↦ ground arith
  ]
  settle_generating-IsFirst ctx g (fails s e) queue = tt
  settle_generating-IsFirst ctx g (unknown s p) queue = tt
  settle_generating-IsFirst ctx g (lost s) queue = tt
  settle_generating-IsFirst ctx g (exhausted s) queue = tt

  settle_resharing-IsFirst :
      (ctx : CryptographicCtx) (r : ResharingState C)
      (h : Halt C.reshare.State C.ProtocolError C.Scalar) (queue : MessageQueue C)
      → IsFirst (settle_resharing C ctx r (h, queue)).stored
  unfolding settle_resharing flush_then
  settle_resharing-IsFirst ctx r (waits s) queue = elim (Option-cases ctx.me) [
    | inl e ↦ ground arith
    | inr (me, e) ↦ ground arith
  ]
  settle_resharing-IsFirst ctx r (returns s x) queue = elim (Option-cases ctx.me) [
    | inl e ↦ ground arith
    | inr (me, e) ↦ ground arith
  ]
  settle_resharing-IsFirst ctx r (fails s e) queue = tt
  settle_resharing-IsFirst ctx r (unknown s p) queue = tt
  settle_resharing-IsFirst ctx r (lost s) queue = tt
  settle_resharing-IsFirst ctx r (exhausted s) queue = tt

  settle_running-IsFirst :
      (ctx : CryptographicCtx) (sent : MessageQueue C) (s : Step C)
      → IsFirst (settle_running C ctx sent s).progress.stored
  unfolding settle_running
  settle_running-IsFirst ctx sent (done w) = tt
  settle_running-IsFirst ctx sent (Step.fails e w) = tt
  settle_running-IsFirst ctx sent (Step.panics w) = tt
  settle_running-IsFirst ctx sent (Step.stalls w) = tt

  progress-IsFirst :
      (ctx : CryptographicCtx) (queue : SignQueue C) (n : NodeState C)
      → IsFirst (progress C ctx queue n).progress.stored
  unfolding progress progress_generating progress_waiting progress_resharing progress_running
      flush_then
  progress-IsFirst ctx queue starting = tt
  progress-IsFirst ctx queue (started d) = tt
  progress-IsFirst ctx queue (generating g) = settle_generating-IsFirst ctx g _ _
  progress-IsFirst ctx queue (waiting_for_consensus w) = elim (Option-cases ctx.me) [
    | inl e ↦ ground arith
    | inr (me, e) ↦ ground arith
  ]
  progress-IsFirst ctx queue (running r) = elim (Option-cases ctx.me) [
    | inl e ↦ ground arith
    | inr (me, e) ↦ ground (arith, settle_running-IsFirst ctx)
  ]
  progress-IsFirst ctx queue (resharing r) = settle_resharing-IsFirst ctx r _ _
  progress-IsFirst ctx queue (joining j) = tt

  overwrite-IsFirst :
      (new old : Option (PersistentNodeData C))
      → IsFirst new
      → IsFirst old
      → IsFirst (overwrite C new old)
  overwrite-IsFirst none old h k = k
  overwrite-IsFirst (some d) old h k = h

  module _ (my_account_id : AccountId) where
    finish-secret_storage :
        (p : MpcSignProtocol C) (n : NodeState C)
        → (finish C my_account_id p n).protocol.secret_storage ≡ p.secret_storage
    unfolding finish
    finish-secret_storage p n = elim (Option-cases (handle C n p.queue).stop) [
      | inl e ↦ ground arith
      | inr (failed x, e) ↦ ground arith
      | inr (crashed, e) ↦ ground arith
    ]

    go_on-secret_storage :
        (p : MpcSignProtocol C) (o : Outcome C)
        → (go_on C my_account_id p o).protocol.secret_storage ≡ p.secret_storage
    unfolding go_on
    go_on-secret_storage p (advanced n) = finish-secret_storage p n
    go_on-secret_storage p (refused e) = refl
    go_on-secret_storage p panicked = refl

    after_progress-secret_storage :
        (m : Meeting C) (s : ProtocolState) (p : MpcSignProtocol C) (o : Progress C)
        → (after_progress C my_account_id m s p o).protocol.secret_storage ≡ p.secret_storage
    unfolding after_progress
    after_progress-secret_storage m s p (progressed n) = go_on-secret_storage p _
    after_progress-secret_storage m s p (Progress.refused e) = refl
    after_progress-secret_storage m s p Progress.panicked = refl
    after_progress-secret_storage m s p stalled = refl

    take_part-IsFirst :
        (m : Meeting C) (s : ProtocolState) (p : MpcSignProtocol C)
        → IsFirst p.secret_storage
        → IsFirst (take_part C my_account_id m s p).protocol.secret_storage
    unfolding take_part work
    take_part-IsFirst m s p h =
        let round = work C my_account_id m p in
        subst IsFirst
          (sym (
            after_progress-secret_storage m s (with_work C my_account_id p round)
              round.progress.outcome))
          (overwrite-IsFirst round.progress.stored p.secret_storage
            (progress-IsFirst (record m.work { me = get_my_participant C my_account_id p.state })
              p.sign_queue p.state)
            h)

    turn-IsFirst :
        (m : Meeting C) (p : MpcSignProtocol C)
        → IsFirst p.secret_storage
        → IsFirst (turn C my_account_id m p).protocol.secret_storage
    unfolding turn attend
    turn-IsFirst m p h = elim (Option-cases m.contract) [
      | inl e ↦ ground arith
      | inr (s, e) ↦ ground (arith, take_part-IsFirst m s)
    ]

    run-IsFirst :
        (meetings : List (Meeting C)) (p : MpcSignProtocol C)
        → IsFirst p.secret_storage
        → IsFirst (run C my_account_id meetings p).secret_storage
    unfolding run
    run-IsFirst [] p h = h
    run-IsFirst (m ∷ meetings) p h =
        let first = turn-IsFirst m p h in
        ground (arith, run-IsFirst meetings (turn C my_account_id m p).protocol first)

    -- One life after the other, each from what the storage holds.
    unfoldable pub lives :
        List (SignQueue C × List (Meeting C))
        → Option (PersistentNodeData C)
        → Option (PersistentNodeData C)
    unfolding run
    lives [] d = d
    lives ((queue, meetings) ∷ rest) d =
        lives rest (run C my_account_id meetings (init C queue d)).secret_storage

    lives-IsFirst :
        (histories : List (SignQueue C × List (Meeting C))) (d : Option (PersistentNodeData C))
        → IsFirst d
        → IsFirst (lives histories d)
    unfolding lives
    lives-IsFirst [] d h = h
    lives-IsFirst ((queue, meetings) ∷ rest) d h =
        lives-IsFirst rest _ (run-IsFirst meetings (init C queue d) h)

    -- The bug: a share that comes from a resharing is never stored. A node that began with an empty
    -- storage, whatever it has been through in its lives since, and that starts again with a stored
    -- share while the contract runs in an epoch after the first, has no share of the contract's key:
    -- it joins anew, or is refused where the keys differ.
    pub reshared_share_forgotten :
        (histories : List (SignQueue C × List (Meeting C))) (d : PersistentNodeData C) (ctx : Ctx C)
        (s : RunningContractState)
        → lives histories none ≡ some d
        → 0 < s.epoch
        → advance C ctx (started (some d)) (ProtocolState.running s)
          ≡ quietly C (
              if s.public_key == d.public_key
              then join_again C s.participants d.public_key
              else refused mismatched_public_key)
    unfolding advance started_with
    reshared_share_forgotten histories d ctx s e after =
        let first = subst IsFirst e (lives-IsFirst histories none tt) in ground arith
