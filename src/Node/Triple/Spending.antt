-- ===== src/Node/Triple/Spending.antt =====
-- A triple or presignature is used once (node/src/protocol/{triple,presignature}.rs).
use mpc_recovery.Prelude.{ℕ, ◌≡◌, List, ◌∷◌, none, some, arith}
use mpc_recovery.Collections.Map
use mpc_recovery.Collections.Map.{get-remove_self}
use mpc_recovery.Node.CaitSith.{CaitSith}
use mpc_recovery.Node.Triple.{TripleManager, Triple, take_two}
use mpc_recovery.Node.Presignature.{
  PresignatureManager, Joined, Picked, get_or_generate, join_with, take, take_mine, take_queued,
}

module _ (C : CaitSith) where
  -- The bug: two triples are asked for with one id. The check for presence passes for both, and the
  -- second removal panics. A peer's message with `triple0` equal to `triple1`, the id of a triple
  -- that is there, so makes a node panic that has not yet seen this presignature.
  pub equal_triples_panic :
      (id triple_id public_key : ℕ) (private_share : C.Scalar) (t : Triple C)
      (triples : TripleManager C) (m : PresignatureManager C)
      → Map.IsSorted triples.triples
      → Map.get triple_id triples.triples ≡ some t
      → Map.get id m.presignatures ≡ none
      → Map.get id m.generators ≡ none
      → (get_or_generate C id triple_id triple_id triples public_key private_share m).2
        ≡ Joined.crashed
  unfolding get_or_generate join_with take_two
  equal_triples_panic id triple_id public_key private_share t triples m sorted there unknown idle =
      ground (arith, get-remove_self 0 triple_id triples.triples sorted)

  -- The bug: a presignature that waits in the queue `mine` and is then taken by its id, as for a
  -- signature that a peer proposes with it, stays in the queue, and the next `take_mine` panics.
  pub taken_by_peer_panics :
      (id : ℕ) (rest : List ℕ) (m : PresignatureManager C)
      → Map.IsSorted m.presignatures
      → m.mine ≡ id ∷ rest
      → (take_mine C (take C id m).0).1 ≡ Picked.crashed
  unfolding take_mine take_queued take
  taken_by_peer_panics id rest m sorted e =
      rw e (ground (arith, get-remove_self 0 id m.presignatures sorted))
