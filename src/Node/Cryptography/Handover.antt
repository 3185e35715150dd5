-- ===== src/Node/Cryptography/Handover.antt =====
-- What the node's work hands over: the new share to the storage (node/src/protocol/cryptography.rs),
-- and the signatures to the contract (node/src/protocol/signature.rs).
use mpc_recovery.Prelude.{
  ℕ, suc, ◌≡◌, refl, Bool, true, false, List, [], ◌∷◌, some, arith, inl, inr, Option-cases, ap, ltb,
  length, if◌then◌else◌,
}
use mpc_recovery.Node.CaitSith.{CaitSith}
use mpc_recovery.Node.Message.{MessageQueue}
use mpc_recovery.Node.State.{GeneratingState, WaitingForConsensusState, waiting_for_consensus}
use mpc_recovery.Node.Drive.{Halt, waits, returns, unknown, lost, exhausted}
use mpc_recovery.Node.Cryptography.{
  rpc_error, CryptographicCtx, progressed, Progressed, flush_then, settle_generating,
  progress_generating,
}
use mpc_recovery.Node.Cryptography.Running.{Working, done, fails, with_signatures}
use mpc_recovery.Node.Cryptography.Signing.{publish, publish_signatures}

module _ (C : CaitSith) where
  -- The node waits with the participants and the threshold of the generation, in the first epoch,
  -- and its share is stored, which has succeeded.
  abbrev pub HandsOver :
      CryptographicCtx → GeneratingState C → WaitingForConsensusState C → Progressed C → Type 0
  HandsOver ctx g w p =
      (ctx.stores ≡ true)
      × (p.stored
          ≡ some (record { epoch = 0; private_share = w.private_share; public_key = w.public_key }))
      × (w.epoch ≡ 0)
      × (w.participants ≡ g.participants)
      × (w.threshold ≡ g.threshold)

  settle_generating-HandsOver :
      (ctx : CryptographicCtx) (g : GeneratingState C) (w : WaitingForConsensusState C)
      (h : Halt C.keygen.State C.ProtocolError (C.Scalar × ℕ)) (queue : MessageQueue C)
      → (settle_generating C ctx g (h, queue)).outcome ≡ progressed (waiting_for_consensus w)
      → HandsOver ctx g w (settle_generating C ctx g (h, queue))
  unfolding settle_generating flush_then
  settle_generating-HandsOver ctx g w (waits s) queue e = elim (Option-cases ctx.me) [
    | inl missing ↦ absurd (ground arith)
    | inr (me, known) ↦ absurd (ground arith)
  ]
  settle_generating-HandsOver ctx g w (returns s (x, y)) queue e = elim (Option-cases ctx.me) [
    | inl missing ↦ absurd (ground arith)
    | inr (me, known) ↦ ground arith
  ]
  settle_generating-HandsOver ctx g w (Halt.fails s x) queue e = absurd (ground arith)
  settle_generating-HandsOver ctx g w (unknown s p) queue e = absurd (ground arith)
  settle_generating-HandsOver ctx g w (lost s) queue e = absurd (ground arith)
  settle_generating-HandsOver ctx g w (exhausted s) queue e = absurd (ground arith)

  -- A generating node that makes progress to waiting for the contract has stored the share and the
  -- public key with which it waits, under the first epoch, and storing them has succeeded; it waits with the participants and the
  -- threshold with which it has generated them.
  pub generated_share_stored :
      (ctx : CryptographicCtx) (g : GeneratingState C) (w : WaitingForConsensusState C)
      → (progress_generating C ctx g).outcome ≡ progressed (waiting_for_consensus w)
      → HandsOver ctx g w (progress_generating C ctx g)
  unfolding progress_generating
  generated_share_stored ctx g w e = settle_generating-HandsOver ctx g w _ _ e

  -- The transactions that end well before the first that fails.
  abbrev pub successes : List Bool → ℕ
  successes (true ∷ answers) = suc (successes answers)
  successes _ = 0

  abbrev pub first : ℕ → List (ℕ × ℕ × C.FullSignature) → List (ℕ × ℕ × C.FullSignature)
  first (suc n) (s ∷ signatures) = s ∷ first n signatures
  first _ _ = []

  publish-first :
      (answers : List Bool) (signatures : List (ℕ × ℕ × C.FullSignature))
      → ((publish C answers signatures).sent ≡ first (successes answers) signatures)
        × ((publish C answers signatures).failed ≡ ltb (successes answers) (length signatures))
  unfolding publish
  publish-first [] [] = (refl, ground arith)
  publish-first (true ∷ answers) [] = (refl, ground arith)
  publish-first (false ∷ answers) [] = (refl, ground arith)
  publish-first [] (s ∷ signatures) = (refl, ground arith)
  publish-first (false ∷ answers) (s ∷ signatures) = (refl, ground arith)
  publish-first (true ∷ answers) (s ∷ signatures) =
      let (sent, failure) = publish-first answers signatures in
      (ap (λ l. s ∷ l) sent, ground (arith, failure))

  -- The bug: where a transaction with a signature fails, this signature and all behind it are neither
  -- published nor kept. Published are exactly as many, from the front, as there are successes before
  -- the first failure; the result is an error if they are not all. The manager has no signature left
  -- in either case, and the request is not filed again.
  pub unpublished_lost :
      (answers : List Bool) (w : Working C)
      → let signatures = w.state.signature_manager.signatures in
        (w' : Working C) × (publish_signatures C answers w
          ≡ (if ltb (successes answers) (length signatures) then fails rpc_error w' else done w'))
        × (w'.published ≡ first (successes answers) signatures)
        × (w'.state.signature_manager.signatures ≡ [])
        × (w'.queue ≡ w.queue)
  unfolding publish_signatures
  unpublished_lost answers w =
      let p = publish C answers w.state.signature_manager.signatures in
      let w' : Working C =
        record (with_signatures C w (record w.state.signature_manager { signatures = [] })) {
          published = p.sent;
        } in
      let (sent, failure) = publish-first answers w.state.signature_manager.signatures in
      (w', rw failure refl, sent, refl, refl)
