-- ===== src/Node/Cryptography/Rounds.antt =====
-- node/src/protocol/cryptography.rs: how the running node, and the node in any phase, makes progress.
use mpc_recovery.Prelude.{ℕ, List, [], ◌++◌, none, some}
use mpc_recovery.Node.Participants.{Participant}
use mpc_recovery.Node.CaitSith.{CaitSith}
use mpc_recovery.Node.Message.{MessageQueue}
use mpc_recovery.Node.SignQueue.{SignQueue}
use mpc_recovery.Node.State.{
  NodeState, RunningState, generating, waiting_for_consensus, running, resharing,
}
use mpc_recovery.Node.Outbox.{send_encrypted}
use mpc_recovery.Node.Cryptography.{
  CryptographicCtx, Progress, progressed, refused, panicked, stalled, Progressed,
  progress_generating, progress_waiting, progress_resharing,
}
use mpc_recovery.Node.Cryptography.Running.{
  Working, Step, done, fails, panics, stalls, and_then, with_messages, begin_triple, poke_triples,
  begin_presignature, poke_presignatures,
}
use mpc_recovery.Node.Cryptography.Signing.{
  organize_requests, sign_requests, poke_signatures, publish_signatures,
}

-- What `progress` does, with the queue of requests after it and the signatures sent.
pub record Round (C : CaitSith) : Type 0 where
  pub progress : Progressed C
  pub queue : SignQueue C
  pub published : List (ℕ × ℕ × C.FullSignature)

module _ (C : CaitSith) where
  -- The work of the running node between its two attempts to send messages.
  unfoldable pub work : CryptographicCtx → Participant → Working C → Step C
  unfolding begin_triple poke_triples begin_presignature poke_presignatures organize_requests
      sign_requests poke_signatures publish_signatures
  work ctx me w = and_then C (begin_triple C ctx.triple_id w) (λ w.
      and_then C (poke_triples C ctx.fuel w) (λ w.
        and_then C (begin_presignature C ctx.presignature_id w) (λ w.
          and_then C (poke_presignatures C ctx.fuel w) (λ w.
            and_then C (organize_requests C ctx me w) (λ w. and_then C (sign_requests C me w) (λ w.
              and_then C (poke_signatures C ctx.fuel w) (publish_signatures C ctx.published)))))))

  abbrev pub stop : Progress C → Working C → MessageQueue C → Round C
  stop outcome w sent = record {
    progress = record { outcome = outcome; kept = running w.state; sent = sent; stored = none };
    queue = w.queue;
    published = w.published;
  }

  unfoldable pub settle_running : CryptographicCtx → MessageQueue C → Step C → Round C
  unfolding send_encrypted
  settle_running ctx sent (fails e w) = stop (refused e) w sent
  settle_running ctx sent (panics w) = stop panicked w sent
  settle_running ctx sent (stalls w) = stop stalled w sent
  settle_running ctx sent (done w) =
      let f = send_encrypted C ctx.after w.state.messages in
      let w' = with_messages C w f.left in stop (progressed (running w'.state)) w' (sent ++ f.sent)

  -- `RunningState::progress`
  unfoldable pub progress_running : CryptographicCtx → SignQueue C → RunningState C → Round C
  unfolding settle_running work send_encrypted
  progress_running ctx queue s = elim ctx.me [
    | none ↦ stop panicked (record { state = s; queue = queue; published = [] }) []
    | some me ↦
        let f = send_encrypted C ctx.before s.messages in
        settle_running ctx f.sent (
          work ctx me
            (record { state = record s { messages = f.left }; queue = queue; published = [] }))
  ]

  abbrev pub alone : SignQueue C → Progressed C → Round C
  alone queue p = record { progress = p; queue = queue; published = [] }

  -- `NodeState::progress`
  unfoldable pub progress : CryptographicCtx → SignQueue C → NodeState C → Round C
  unfolding progress_generating progress_waiting progress_resharing progress_running
  progress ctx queue (generating g) = alone queue (progress_generating C ctx g)
  progress ctx queue (resharing r) = alone queue (progress_resharing C ctx r)
  progress ctx queue (running s) = progress_running ctx queue s
  progress ctx queue (waiting_for_consensus w) = alone queue (progress_waiting C ctx w)
  progress ctx queue n =
      alone queue (record { outcome = progressed n; kept = n; sent = []; stored = none })
