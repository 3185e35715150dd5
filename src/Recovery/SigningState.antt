-- ===== src/Recovery/SigningState.antt =====
-- mpc-recovery/src/sign_node/aggregate_signer.rs: the sign node's nonces between its three calls.
pub mod Burning
pub mod Shares
use mpc_recovery.Prelude.{ℕ, List, [], ◌∷◌, Option, none, some, length}
use mpc_recovery.Collections.HashMap
use mpc_recovery.Collections.HashMap.{number, pair}
use mpc_recovery.Recovery.EdDsa.{EdDsa, SignSecondMsg}
use mpc_recovery.Recovery.AggregateSigner.{
  Signing, ok, err, panicked, invalid_commitment_numbers, invalid_reveal_numbers,
  commitment_not_found, reveal_not_found, SignedCommitment, Committed, Revealed, NodeInfo,
  SigningState, key_of, get, commit, reveal, combine,
}

-- A call on the signing state.
pub data Call : Type 0 where
  -- our key, the node's key, the message, what the random generator gives
  asks_commitment : ℕ → ℕ → List ℕ → ℕ → Call
  asks_reveal : NodeInfo → List SignedCommitment → Call
  asks_share : NodeInfo → List SignSecondMsg → Call

module _ (C : EdDsa) where
  unfoldable pub keep_committed :
      Signing (SignedCommitment × Committed)
      → SigningState
      → SigningState × Signing SignedCommitment
  unfolding HashMap.insert
  keep_committed (ok (c, state)) s =
      (record s { committed = HashMap.insert number c.commitment state s.committed }, ok c)
  keep_committed (err e) s = (s, err e)
  keep_committed panicked s = (s, panicked)

  -- `get_commitment_with_rng`
  unfoldable pub get_commitment :
      ℕ → ℕ → List ℕ → ℕ → SigningState → SigningState × Signing SignedCommitment
  unfolding keep_committed commit
  get_commitment our_key node_key message random s =
      keep_committed (commit C our_key node_key message random) s

  unfoldable pub keep_revealed :
      Signing (SignSecondMsg × Revealed) → SigningState → SigningState × Signing SignSecondMsg
  unfolding HashMap.insert
  keep_revealed (ok (r, state)) s =
      (record s { revealed = HashMap.insert pair (key_of r) state s.revealed }, ok r)
  keep_revealed (err e) s = (s, err e)
  keep_revealed panicked s = (s, panicked)

  -- The commitment is removed before anything else is checked.
  unfoldable pub reveal_ours :
      NodeInfo
      → List SignedCommitment
      → SignedCommitment
      → SigningState
      → SigningState × Signing SignSecondMsg
  unfolding keep_revealed reveal HashMap.get HashMap.remove
  reveal_ours info received ours s = elim (HashMap.get number ours.commitment s.committed) [
    | none ↦ (s, err (commitment_not_found ours.commitment))
    | some state ↦
        keep_revealed (reveal C info received state)
          (record s { committed = HashMap.remove number ours.commitment s.committed })
  ]

  unfoldable pub get_reveal :
      NodeInfo → List SignedCommitment → SigningState → SigningState × Signing SignSecondMsg
  unfolding get reveal_ours
  get_reveal info received s = elim (get received info.our_index) [
    | none ↦ (s, err (invalid_commitment_numbers info.our_index (length received)))
    | some ours ↦ reveal_ours info received ours s
  ]

  unfoldable pub sign_ours :
      NodeInfo → List SignSecondMsg → SignSecondMsg → SigningState → SigningState × Signing ℕ
  unfolding combine HashMap.get HashMap.remove
  sign_ours info parts ours s = elim (HashMap.get pair (key_of ours) s.revealed) [
    | none ↦ (s, err (reveal_not_found ours))
    | some state ↦ (
      record s { revealed = HashMap.remove pair (key_of ours) s.revealed },
      combine C state parts info,
    )
  ]

  unfoldable pub get_signature_share :
      NodeInfo → List SignSecondMsg → SigningState → SigningState × Signing ℕ
  unfolding get sign_ours
  get_signature_share info parts s = elim (get parts info.our_index) [
    | none ↦ (s, err (invalid_reveal_numbers info.our_index (length parts)))
    | some ours ↦ sign_ours info parts ours s
  ]

  unfoldable pub step : Call → SigningState → SigningState
  unfolding get_commitment get_reveal get_signature_share
  step (asks_commitment our_key node_key message random) s =
      (get_commitment our_key node_key message random s).0
  step (asks_reveal info received) s = (get_reveal info received s).0
  step (asks_share info parts) s = (get_signature_share info parts s).0

  unfoldable pub run : List Call → SigningState → SigningState
  unfolding step
  run [] s = s
  run (call ∷ calls) s = run calls (step call s)
