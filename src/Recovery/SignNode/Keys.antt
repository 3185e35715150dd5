-- ===== src/Recovery/SignNode/Keys.antt =====
-- The keys of the nodes, in memory and in the datastore (mpc-recovery/src/sign_node/mod.rs).
use mpc_recovery.Prelude.{ℕ, ◌≡◌, Bool, false, List, none, some, arith}
use mpc_recovery.Collections.HashMap
use mpc_recovery.Collections.HashMap.{number}
use mpc_recovery.Recovery.AggregateSigner.{get}
use mpc_recovery.Recovery.Oauth.{eq_text_same}
use mpc_recovery.Recovery.SignNode.{SignNodeState, Meeting, Services}
use mpc_recovery.Recovery.SignNode.Handlers.{
  keys_not_saved, already_initialized, responds, eq_keys, set_keys, accept_pk_set, start,
}

module _ (S : Services) where
  -- The bug: keys that cannot be stored stay in memory. The first call is answered with an error; when
  -- it is repeated the node says that it is initialised with these keys, and stores nothing; and after
  -- a start anew it has no keys.
  pub unsaved_keys_forgotten :
      (m m' : Meeting) (keys : List ℕ) (s : SignNodeState) (reads : Bool)
      → get keys s.node_info.our_index ≡ some (S.eddsa.public_key S.node_key)
      → s.node_info.nodes_public_keys ≡ none
      → HashMap.get number s.node_info.our_index s.gcp_service.pk_sets ≡ none
      → m.writes_pk_set ≡ false
      → let s' : SignNodeState = record s {
        node_info = record s.node_info { nodes_public_keys = some keys };
      } in
        (accept_pk_set S m keys s ≡ (s', responds 500 (some keys_not_saved)))
        × (accept_pk_set S m' keys s' ≡ (s', responds 200 (some already_initialized)))
        × ((start S reads s'.gcp_service s'.node_info.our_index).node_info.nodes_public_keys ≡ none)
  unfolding accept_pk_set set_keys eq_keys start
  unsaved_keys_forgotten m m' keys s reads own unset absent fails =
      ground (arith, eq_text_same keys)
