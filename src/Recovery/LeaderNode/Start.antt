-- ===== src/Recovery/LeaderNode/Start.antt =====
-- mpc-recovery/src/leader_node/mod.rs: the leader gathers the public keys of the sign nodes and sends
-- them the set.
use mpc_recovery.Prelude.{ℕ, zero, suc, List, [], ◌∷◌, map, leb, if◌then◌else◌}
use mpc_recovery.Recovery.Answer.{ok, err, panicked}
use mpc_recovery.Recovery.LeaderNode.{Leader, Reply, call_all_nodes, timeout_gathering_public_keys}

-- In front of the entries whose index is not smaller: the sort is stable.
unfoldable pub insert_by_key : ℕ × ℕ → List (ℕ × ℕ) → List (ℕ × ℕ)
insert_by_key p [] = p ∷ []
insert_by_key p (q ∷ l) =
    let rest = insert_by_key p l in if leb p.0 q.0 then p ∷ q ∷ l else q ∷ rest

-- `sort_by_key`
unfoldable pub sort_by_key : List (ℕ × ℕ) → List (ℕ × ℕ)
unfolding insert_by_key
sort_by_key [] = []
sort_by_key (p ∷ l) = insert_by_key p (sort_by_key l)

-- `gather_sign_node_pk_shares`: as many attempts as there is time for, one each second.
unfoldable pub gather_sign_node_pk_shares :
    (ℕ → ℕ → Reply (ℕ × ℕ)) → List ℕ → ℕ → ℕ → Leader (List ℕ)
unfolding call_all_nodes sort_by_key
gather_sign_node_pk_shares public_key_node sign_nodes zero attempt =
    err timeout_gathering_public_keys
gather_sign_node_pk_shares public_key_node sign_nodes (suc more) attempt =
    elim (call_all_nodes (public_key_node attempt) sign_nodes) [
      | ok results ↦ ok (map (λ p. p.1) (sort_by_key results))
      | err e ↦ gather_sign_node_pk_shares public_key_node sign_nodes more (suc attempt)
      | panicked ↦ panicked
    ]

-- `broadcast_pk_set`
unfoldable pub broadcast_pk_set :
    {T : Type 0} → (List ℕ → ℕ → Reply T) → List ℕ → List ℕ → Leader (List T)
unfolding call_all_nodes
broadcast_pk_set accept_pk_set sign_nodes pk_set = call_all_nodes (accept_pk_set pk_set) sign_nodes
