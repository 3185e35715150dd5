-- ===== src/Node/Queue.antt =====
-- node/src/protocol/message.rs: the queue of messages that a node has received, how the generating
-- and the resharing node handle it, and the first of the three loops of the running node.
pub mod Filing
pub mod Delivery
use mpc_recovery.Prelude.{ℕ, List, [], ◌∷◌, ◌++◌, Option, none, some, map}
use mpc_recovery.Collections.Map
use mpc_recovery.Collections.Map.{Map}
use mpc_recovery.Node.CaitSith.{CaitSith, Protocol, ok, err}
use mpc_recovery.Node.Message.{
  GeneratingMessage, ResharingMessage, TripleMessage, PresignatureMessage, SignatureMessage,
  MpcMessage,
}
use mpc_recovery.Node.State.{GeneratingState, ResharingState}
use mpc_recovery.Node.Triple
use mpc_recovery.Node.Triple.{TripleManager}

pub record MpcMessageQueue (C : CaitSith) : Type 0 where
  pub generating : List (GeneratingMessage C)
  pub resharing_bins : Map (List (ResharingMessage C))
  pub triple_bins : Map (Map (List (TripleMessage C)))
  pub presignature_bins : Map (Map (List (PresignatureMessage C)))
  pub signature_bins : Map (Map (List (SignatureMessage C)))

-- `entry(key).or_default()`, read
abbrev pub or_default {ℓ} : {A : Type ℓ} → Option (List A) → List A
or_default none = []
or_default (some a) = a

abbrev pub bin {ℓ} : {A : Type ℓ} → ℕ → Map (List A) → List A
bin key bins = or_default (Map.get key bins)

module _ {A : Type 0} where
  -- `entry(key).or_default().push_back(message)`
  unfoldable pub push_back : ℕ → A → Map (List A) → Map (List A)
  push_back key message bins = Map.insert key (bin key bins ++ message ∷ []) bins

  -- The same in a bin of an epoch and an id.
  unfoldable pub push_back_in : ℕ → ℕ → A → Map (Map (List A)) → Map (Map (List A))
  unfolding push_back
  push_back_in epoch id message bins = Map.insert epoch (push_back id message (bin epoch bins)) bins

-- `while let Some(msg) = queue.pop_front() { protocol.message(msg.from, msg.data) }`
unfoldable pub deliver :
    {E D Output : Type 0} (π : Protocol E D Output) → π.State → List (ℕ × D) → π.State
deliver π s [] = s
deliver π s ((from, d) ∷ messages) = deliver π (π.message s from d) messages

-- What a pass over the bins of triples leaves: the bins, and the error that ended it.
pub record Handled (C : CaitSith) : Type 0 where
  pub manager : TripleManager C
  pub bins : Map (List (TripleMessage C))
  pub error : Option C.InitializationError

module _ (C : CaitSith) where
  -- `MpcMessageQueue::push`
  unfoldable pub push : MpcMessage C → MpcMessageQueue C → MpcMessageQueue C
  unfolding push_back push_back_in
  push (MpcMessage.generating message) q = record q { generating = q.generating ++ message ∷ [] }
  push (MpcMessage.resharing message) q = record q {
    resharing_bins = push_back message.epoch message q.resharing_bins;
  }
  push (MpcMessage.triple message) q = record q {
    triple_bins = push_back_in message.epoch message.id message q.triple_bins;
  }
  push (MpcMessage.presignature message) q = record q {
    presignature_bins = push_back_in message.epoch message.id message q.presignature_bins;
  }
  push (MpcMessage.signature message) q = record q {
    signature_bins = push_back_in message.epoch message.receipt_id message q.signature_bins;
  }

  -- `GeneratingState::handle`
  unfoldable pub handle_generating :
      GeneratingState C → MpcMessageQueue C → GeneratingState C × MpcMessageQueue C
  unfolding deliver
  handle_generating g q = (
    record g {
      protocol = record g.protocol {
        protocol = deliver C.keygen g.protocol.protocol (map (λ m. (m.from, m.body)) q.generating);
      };
    },
    record q { generating = [] },
  )

  -- `ResharingState::handle`
  unfoldable pub handle_resharing :
      ResharingState C → MpcMessageQueue C → ResharingState C × MpcMessageQueue C
  unfolding deliver
  handle_resharing s q = (
    record s {
      protocol = record s.protocol {
        protocol =
            deliver C.reshare s.protocol.protocol
              (map (λ m. (m.from, m.body)) (bin s.old_epoch q.resharing_bins));
      };
    },
    record q { resharing_bins = Map.insert s.old_epoch [] q.resharing_bins },
  )

  -- The messages of one bin, handed to the protocol that `get_or_generate` has found, if any.
  unfoldable pub feed :
      ℕ → List (TripleMessage C) → TripleManager C × Option C.triple.State → TripleManager C
  unfolding deliver
  feed id messages (m, none) = m
  feed id messages (m, some protocol) = record m {
    generators =
        Map.insert id (deliver C.triple protocol (map (λ a. (a.from, a.body)) messages))
          m.generators;
  }

  abbrev pub unread :
      List (TripleMessage C) → TripleManager C × Option C.triple.State → List (TripleMessage C)
  unread messages (m, none) = messages
  unread messages (m, some protocol) = []

  -- The loop of `RunningState::handle` over the triples' bins of its epoch. The bin of a triple that
  -- is already generated is left as it is, and an error ends the loop.
  unfoldable pub handle_triples : Map (List (TripleMessage C)) → TripleManager C → Handled C
  unfolding feed Triple.get_or_generate
  handle_triples [] m = record { manager = m; bins = []; error = none }
  handle_triples ((id, messages) ∷ rest) m = elim (Triple.get_or_generate C id m) [
    | err e ↦ record { manager = m; bins = (id, messages) ∷ rest; error = some e }
    | ok found ↦
        let h = handle_triples rest (feed id messages found) in
        record { manager = h.manager; bins = (id, unread messages found) ∷ h.bins; error = h.error }
  ]
