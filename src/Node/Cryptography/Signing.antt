-- ===== src/Node/Cryptography/Signing.antt =====
-- node/src/protocol/cryptography.rs: how the running node makes signatures.
-- node/src/protocol/signature.rs: `my_requests` and `publish`.
use mpc_recovery.Prelude.{ℕ, Bool, true, false, List, [], ◌∷◌, none, some, ltb, if◌then◌else◌}
use mpc_recovery.Collections.Map
use mpc_recovery.Collections.Map.{Map}
use mpc_recovery.Node.Participants.{Participant, keys}
use mpc_recovery.Node.CaitSith.{CaitSith, ok, err}
use mpc_recovery.Node.Message.{MpcMessage}
use mpc_recovery.Node.Poke.{protocol_error, spent}
use mpc_recovery.Node.Presignature
use mpc_recovery.Node.Presignature.{Presignature, PresignatureManager, Picked}
use mpc_recovery.Node.SignQueue
use mpc_recovery.Node.SignQueue.{SignQueue, SignRequest}
use mpc_recovery.Node.Signature
use mpc_recovery.Node.Signature.Pass as SignaturePass
use mpc_recovery.Node.Signature.{SignatureManager}
use mpc_recovery.Node.Cryptography.{
  cait_sith_initialization_error, cait_sith_protocol_error, rpc_error, CryptographicCtx,
}
use mpc_recovery.Node.Cryptography.Running.{
  Working, Step, done, fails, panics, stalls, with_messages, with_presignatures, with_signatures,
  push_to,
}

-- The requests that are left, and how the loop over them ends.
pub record Signing (C : CaitSith) : Type 0 where
  pub left : Map (SignRequest C)
  pub step : Step C

pub record Publication (C : CaitSith) : Type 0 where
  pub sent : List (ℕ × ℕ × C.FullSignature)
  pub failed : Bool

module _ (C : CaitSith) where
  -- `sign_queue.organize`, then `my_requests`, which makes an entry for the node.
  unfoldable pub organize_requests : CryptographicCtx → Participant → Working C → Step C
  unfolding SignQueue.organize SignQueue.requests_of
  organize_requests ctx me w =
      elim (SignQueue.organize C ctx.chooser (keys w.state.participants) w.state.threshold me
        w.queue) [
          | none ↦ panics w
          | some q ↦ done (record w {
            queue = record q {
              requests = Map.insert me (SignQueue.requests_of C me q.requests) q.requests;
            };
          })
        ]

  -- `signature_manager.generate` for one request.
  unfoldable pub begin_signature : ℕ → SignRequest C → Presignature C → Working C → Step C
  unfolding Signature.generate
  begin_signature receipt_id request presignature w =
      let (m, outcome) =
        Signature.generate C receipt_id presignature w.state.public_key request.msg_hash
          request.epsilon request.delta w.state.signature_manager in
      elim outcome [
        | Signature.Joined.joined _ ↦ done (with_signatures C w m)
        | Signature.Joined.presignature_is_missing ↦ done (with_signatures C w m)
        | Signature.Joined.initialization_error e ↦
            fails (cait_sith_initialization_error e) (with_signatures C w m)
        | Signature.Joined.crashed ↦ panics (with_signatures C w m)
      ]

  -- The rest of the loop, where the signature is begun.
  abbrev pub continue : (Working C → Signing C) → Map (SignRequest C) → Step C → Signing C
  continue again rest (done w) = again w
  continue again rest (fails e w) = record { left = rest; step = fails e w }
  continue again rest (panics w) = record { left = rest; step = panics w }
  continue again rest (stalls w) = record { left = rest; step = stalls w }

  -- One round of the loop, from what `take_mine` has found. The request is removed after it.
  unfoldable pub spend_mine :
      (Working C → Signing C)
      → ℕ
      → SignRequest C
      → Map (SignRequest C)
      → Working C
      → Picked C
      → Signing C
  unfolding begin_signature
  spend_mine again receipt_id request rest w Picked.nothing = record {
    left = (receipt_id, request) ∷ rest;
    step = done w;
  }
  spend_mine again receipt_id request rest w Picked.crashed = record {
    left = (receipt_id, request) ∷ rest;
    step = panics w;
  }
  spend_mine again receipt_id request rest w (Picked.picked presignature) =
      continue again rest (begin_signature receipt_id request presignature w)

  -- The loop over the node's requests, in their order, while it has own presignatures.
  unfoldable pub begin_signatures : Map (SignRequest C) → Working C → Signing C
  unfolding spend_mine Presignature.take_mine
  begin_signatures [] w = record { left = []; step = done w }
  begin_signatures ((receipt_id, request) ∷ rest) w =
      let (m, found) = Presignature.take_mine C w.state.presignature_manager in
      elim (ltb 0 (Presignature.my_len C w.state.presignature_manager)) [
        | false ↦ record { left = (receipt_id, request) ∷ rest; step = done w }
        | true ↦
            spend_mine (begin_signatures rest) receipt_id request rest (with_presignatures C w m)
              found
      ]

  abbrev pub with_requests : Participant → Map (SignRequest C) → Working C → Working C
  with_requests me left w = record w {
    queue = record w.queue { requests = Map.insert me left w.queue.requests };
  }

  abbrev pub on_working : (Working C → Working C) → Step C → Step C
  on_working f (done w) = done (f w)
  on_working f (fails e w) = fails e (f w)
  on_working f (panics w) = panics (f w)
  on_working f (stalls w) = stalls (f w)

  -- The requests that are taken are gone from the queue.
  unfoldable pub sign_requests : Participant → Working C → Step C
  unfolding begin_signatures SignQueue.requests_of
  sign_requests me w =
      let signing = begin_signatures (SignQueue.requests_of C me w.queue.requests) w in
      on_working (with_requests me signing.left) signing.step

  -- A message for a participant who is not known panics here.
  unfoldable pub poke_signatures : ℕ → Working C → Step C
  unfolding SignaturePass.poke push_to
  poke_signatures fuel w =
      let (m, result) = SignaturePass.poke C fuel w.state.signature_manager in
      let w' = with_signatures C w m in
      elim result [
        | err (protocol_error e) ↦ fails (cait_sith_protocol_error e) w'
        | err spent ↦ stalls w'
        | ok messages ↦
            let q = push_to C w.state.participants MpcMessage.signature messages w.state.messages in
            elim q.unknown [
              | none ↦ done (with_messages C w' q.messages)
              | some p ↦ panics (with_messages C w' q.messages)
            ]
      ]

  -- `SignatureManager::publish`: the transactions are sent up to one that fails, and the signatures
  -- are drained in any case. The list says how each transaction ends; where it is over, the next one
  -- fails.
  unfoldable pub publish : List Bool → List (ℕ × ℕ × C.FullSignature) → Publication C
  publish answers [] = record { sent = []; failed = false }
  publish [] (signature ∷ rest) = record { sent = []; failed = true }
  publish (false ∷ answers) (signature ∷ rest) = record { sent = []; failed = true }
  publish (true ∷ answers) (signature ∷ rest) =
      let p = publish answers rest in record p { sent = signature ∷ p.sent }

  unfoldable pub publish_signatures : List Bool → Working C → Step C
  unfolding publish
  publish_signatures answers w =
      let p = publish answers w.state.signature_manager.signatures in
      let w' = record (with_signatures C w (record w.state.signature_manager { signatures = [] })) {
        published = p.sent;
      } in
      if p.failed then fails rpc_error w' else done w'
