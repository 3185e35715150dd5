-- ===== src/Recovery/SigningState/Shares.antt =====
-- No nonce signs twice (mpc-recovery/src/sign_node/aggregate_signer.rs).
use mpc_recovery.Prelude.{ℕ, suc, ◌+◌, List, [], ◌∷◌, length}
use mpc_recovery.Collections.HashMap
use mpc_recovery.Collections.HashMap.{length-remove_le}
use mpc_recovery.Recovery.EdDsa.{EdDsa}
use mpc_recovery.Recovery.AggregateSigner.{Signing, ok, SigningState}
use mpc_recovery.Recovery.SigningState.{
  Call, asks_commitment, asks_share, get_signature_share, step,
}

module _ (C : EdDsa) where
  -- A commitment that is asked for.
  abbrev pub commits : List Call → ℕ
  commits [] = 0
  commits (asks_commitment _ _ _ _ ∷ calls) = suc (commits calls)
  commits (_ ∷ calls) = commits calls

  abbrev pub one_if_ok : {T : Type 0} → Signing T → ℕ
  one_if_ok (ok t) = 1
  one_if_ok _ = 0

  -- The shares that are signed on the way.
  unfoldable pub shares : List Call → SigningState → ℕ
  unfolding step get_signature_share
  shares [] s = 0
  shares (asks_share info parts ∷ calls) s =
      one_if_ok (get_signature_share C info parts s).1
      + shares calls (step C (asks_share info parts) s)
  shares (call ∷ calls) s = shares calls (step C call s)

  -- The nonces that the node holds.
  abbrev pub nonces : SigningState → ℕ
  nonces s = length s.committed + length s.revealed
