-- ===== src/Node/Queue/Filing.antt =====
-- Where a received message is kept (node/src/protocol/message.rs: `MpcMessageQueue::push`).
use mpc_recovery.Prelude.{ℕ, ◌≡◌, List, [], ◌∷◌, ◌++◌, ◌&&◌, ◌==◌, if◌then◌else◌, arith}
use mpc_recovery.Collections.Map
use mpc_recovery.Collections.Map.{Map}
use mpc_recovery.Node.CaitSith.{CaitSith}
use mpc_recovery.Node.Message.{TripleMessage, PresignatureMessage, SignatureMessage, MpcMessage}
use mpc_recovery.Node.Queue.{MpcMessageQueue, bin, push, push_back, push_back_in}

module _ {A : Type 0} where
  pub bin-push_back :
      (key other : ℕ) (a : A) (bins : Map (List A))
      → bin other (push_back key a bins)
        ≡ (if key == other then bin other bins ++ a ∷ [] else bin other bins)
  unfolding push_back
  bin-push_back key other a bins =
      ground (arith, Map.get-insert key other (bin key bins ++ a ∷ []) bins)

  bin-push_back_in :
      (epoch id e i : ℕ) (a : A) (bins : Map (Map (List A)))
      → bin i (bin e (push_back_in epoch id a bins))
        ≡ (if epoch == e && id == i then bin i (bin e bins) ++ a ∷ [] else bin i (bin e bins))
  unfolding push_back_in
  bin-push_back_in epoch id e i a bins = ground (
    arith,
    Map.get-insert epoch e (push_back id a (bin epoch bins)) bins,
    bin-push_back id i a (bin epoch bins),
  )

module _ (C : CaitSith) where
  -- A message about a triple, a presignature or a signature goes to the end of the bin of its own
  -- epoch and id, and no other bin of its kind changes.
  push_files :
      (e id : ℕ) (t : TripleMessage C) (p : PresignatureMessage C) (s : SignatureMessage C)
      (q : MpcMessageQueue C)
      → (bin id (bin e (push C (MpcMessage.triple t) q).triple_bins) ≡ (
          if t.epoch == e && t.id == id
          then bin id (bin e q.triple_bins) ++ t ∷ []
          else bin id (bin e q.triple_bins)))
        × (bin id (bin e (push C (MpcMessage.presignature p) q).presignature_bins) ≡ (
            if p.epoch == e && p.id == id
            then bin id (bin e q.presignature_bins) ++ p ∷ []
            else bin id (bin e q.presignature_bins)))
        × (bin id (bin e (push C (MpcMessage.signature s) q).signature_bins) ≡ (
            if s.epoch == e && s.receipt_id == id
            then bin id (bin e q.signature_bins) ++ s ∷ []
            else bin id (bin e q.signature_bins)))
  unfolding push
  push_files e id t p s q = (
    bin-push_back_in t.epoch t.id e id t q.triple_bins,
    bin-push_back_in p.epoch p.id e id p q.presignature_bins,
    bin-push_back_in s.epoch s.receipt_id e id s q.signature_bins,
  )
