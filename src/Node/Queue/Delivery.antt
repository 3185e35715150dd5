-- ===== src/Node/Queue/Delivery.antt =====
-- What reaches the protocols (node/src/protocol/message.rs: `push`, then `handle`).
use mathlib.Core.List.{append-nil, append_assoc, map-append}
use mpc_recovery.Prelude.{ℕ, ◌≡◌, refl, sym, ap, ◌∙◌, List, [], ◌∷◌, ◌++◌, map, All, arith}
use mpc_recovery.Collections.Map
use mpc_recovery.Collections.Map.{Map}
use mpc_recovery.Node.CaitSith.{CaitSith, Protocol}
use mpc_recovery.Node.Message.{ResharingMessage, MpcMessage}
use mpc_recovery.Node.State.{ResharingState}
use mpc_recovery.Node.Queue.{MpcMessageQueue, bin, push, deliver, handle_resharing}
use mpc_recovery.Node.Queue.Filing.{bin-push_back}

deliver-append :
    {E D Output : Type 0} (π : Protocol E D Output) (s : π.State) (a b : List (ℕ × D))
    → deliver π s (a ++ b) ≡ deliver π (deliver π s a) b
unfolding deliver
deliver-append π s [] b = refl
deliver-append π s ((from, d) ∷ a) b = deliver-append π (π.message s from d) a b

module _ (C : CaitSith) where
  -- The messages, pushed one after the other.
  abbrev pub push_all : List (ResharingMessage C) → MpcMessageQueue C → MpcMessageQueue C
  push_all [] q = q
  push_all (m ∷ ms) q = push_all ms (push C (MpcMessage.resharing m) q)

  bin-push_all :
      (epoch : ℕ) (ms : List (ResharingMessage C)) (q : MpcMessageQueue C)
      → All (λ m. m.epoch ≡ epoch) ms
      → bin epoch (push_all ms q).resharing_bins ≡ bin epoch q.resharing_bins ++ ms
  unfolding push
  bin-push_all epoch [] q same = sym (append-nil _)
  bin-push_all epoch (m ∷ ms) q same =
      bin-push_all epoch ms (push C (MpcMessage.resharing m) q) same.1
      ∙ ap (λ b. b ++ ms) (ground (arith, bin-push_back m.epoch epoch m q.resharing_bins, same.0))
      ∙ append_assoc (bin epoch q.resharing_bins) (m ∷ []) ms

  -- Messages of the epoch in which a node reshares reach its protocol in the order in which they
  -- were pushed, after those that were waiting, and each once: the bin is empty afterwards.
  handle_resharing_in_order :
      (s : ResharingState C) (ms : List (ResharingMessage C)) (q : MpcMessageQueue C)
      → All (λ m. m.epoch ≡ s.old_epoch) ms
      → ((handle_resharing C s (push_all ms q)).0.protocol.protocol
          ≡ deliver C.reshare
              (handle_resharing C s q).0.protocol.protocol
              (map (λ m. (m.from, m.body)) ms))
        × (bin s.old_epoch (handle_resharing C s (push_all ms q)).1.resharing_bins ≡ [])
  unfolding handle_resharing
  handle_resharing_in_order s ms q same =
      let contents : ResharingMessage C → ℕ × C.Data = λ m. (m.from, m.body) in
      let waiting = bin s.old_epoch q.resharing_bins in
      (
        ap (λ b. deliver C.reshare s.protocol.protocol (map contents b))
              (bin-push_all s.old_epoch ms q same)
            ∙ ap (deliver C.reshare s.protocol.protocol) (map-append contents waiting ms)
            ∙ deliver-append C.reshare s.protocol.protocol (map contents waiting) (map contents ms),
        ground (arith, Map.get-insert s.old_epoch s.old_epoch [] (push_all ms q).resharing_bins),
      )
