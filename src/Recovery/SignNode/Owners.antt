-- ===== src/Recovery/SignNode/Owners.antt =====
-- A token's shares are for the key that has claimed it (mpc-recovery/src/sign_node/mod.rs).
use mpc_recovery.Prelude.{
  ℕ, ◌≡◌, refl, sym, ap, subst, ◌∙◌, List, none, some, arith, inl, inr, Option-cases, Bool-cases,
}
use mpc_recovery.Collections.HashMap
use mpc_recovery.Collections.HashMap.{pair, get-insert_same}
use mpc_recovery.Recovery.Answer.{Answer, ok, err, panicked, Answer-cases}
use mpc_recovery.Recovery.AggregateSigner.{SignedCommitment}
use mpc_recovery.Recovery.Oauth.{Text, IdTokenClaims, verify_oidc_token}
use mpc_recovery.Recovery.Utils.{
  digest_hash, check_digest_signature, claim_oidc_request_digest, claim_oidc_response_digest,
  sign_request_digest,
}
use mpc_recovery.Recovery.SignNode.{
  OidcDigest, eq_digest, SignNodeError, SignNodeState, SignShareNodeRequest, ClaimOidcNodeRequest,
  Meeting, Services, Handled, and_then,
}
use mpc_recovery.Recovery.SignNode.Process.{
  claim, commit_to, process_claim, check_claimed, check_request, process_share, stored_digest,
  own_digest,
}
use mpc_recovery.Recovery.SignNode.Handlers.{Event, run}
use mpc_recovery.Recovery.SignNode.Claims.{run-Continues}

module _ (S : Services) where
  and_then-ok :
      {A B : Type 0} (s : SignNodeState) (a : Answer SignNodeError A) (next : A → Handled B) (t : B)
      → (and_then s a next).1 ≡ ok t
      → (x : A) × (a ≡ ok x) × ((next x).1 ≡ ok t) × ((and_then s a next).0 ≡ (next x).0)
  unfolding and_then
  and_then-ok s (ok x) next t e = (x, refl, e, refl)
  and_then-ok s (err x) next t e = absurd (ground arith)
  and_then-ok s panicked next t e = absurd (ground arith)

  -- What is stored for a digest has this key.
  abbrev pub IsClaimedBy : SignNodeState → ℕ → ℕ → Type 0
  IsClaimedBy s hash public_key =
      (d : OidcDigest) × (HashMap.get pair (s.node_info.our_index, hash) s.gcp_service.digests
        ≡ some d)
      × (d.public_key ≡ public_key)

  claim-IsClaimedBy :
      (m : Meeting) (hash public_key : ℕ) (s : SignNodeState)
      → (claim S m (own_digest S hash public_key s) s).1 ≡ ok tt
      → IsClaimedBy (claim S m (own_digest S hash public_key s) s).0 hash public_key
  unfolding claim and_then
  claim-IsClaimedBy m hash public_key s e =
      let d = own_digest S hash public_key s in
      elim (Bool-cases m.reads_digest) [
        | inr down ↦ absurd (ground arith)
        | inl up ↦ elim (Option-cases (stored_digest S d s)) [
          | inl free ↦ elim (Bool-cases m.writes_digest) [
            | inr fails ↦ absurd (ground arith)
            | inl writes ↦
                rw (claim, and_then, up, free, writes)
                  (d, get-insert_same pair (d.node_id, d.digest) d s.gcp_service.digests, refl)
          ]
          | inr (stored, found) ↦ elim (Bool-cases (eq_digest stored d)) [
            | inr away ↦ absurd (ground arith)
            | inl same ↦ rw (claim, and_then, up, found, same) (stored, found, ground arith)
          ]
        ]
      ]

  process_claim-IsClaimedBy :
      (m : Meeting) (request : ClaimOidcNodeRequest) (s : SignNodeState) (c : SignedCommitment)
      → (process_claim S m request s).1 ≡ ok c
      → IsClaimedBy (process_claim S m request s).0 request.oidc_token_hash request.public_key
  unfolding process_claim commit_to
  process_claim-IsClaimedBy m request s c e =
      elim (Bool-cases (
        check_digest_signature S.digests request.public_key request.signature
          (claim_oidc_request_digest S.digests request.oidc_token_hash request.public_key))) [
            | inr bad ↦ absurd (ground arith)
            | inl good ↦
                let d = own_digest S request.oidc_token_hash request.public_key s in
                let s' = (claim S m d s).0 in
                let answer = (claim S m d s).1 in
                let next : Unit {0} → Handled SignedCommitment = λ _.
                  commit_to S S.node_key (claim_oidc_response_digest S.digests request.signature) m
                    s' in
                let now : process_claim S m request s ≡ and_then s' answer next =
                  rw (process_claim, good) refl in
                let (x, claimed, _, after) =
                  and_then-ok s' answer next c (ap (λ h. h.1) (sym now) ∙ e) in
                subst (λ n. IsClaimedBy n request.oidc_token_hash request.public_key)
                  (sym (ap (λ h. h.0) now ∙ after))
                  (claim-IsClaimedBy m request.oidc_token_hash request.public_key s claimed)
          ]

  check_request-IsClaimedBy :
      (m : Meeting) (token : Text) (key signature digest : ℕ) (s : SignNodeState)
      (claims : IdTokenClaims)
      → check_request S m token key signature digest s ≡ ok claims
      → IsClaimedBy s (digest_hash S.digests token) key
  unfolding check_request check_claimed
  check_request-IsClaimedBy m token key signature digest s claims e =
      let d = own_digest S (digest_hash S.digests token) key s in
      elim (Answer-cases (verify_oidc_token S.jwt token none m.fetched)) [
        | inr (inl (x, bad)) ↦ absurd (ground arith)
        | inr (inr bad) ↦ absurd (ground arith)
        | inl (found, verified) ↦
            elim (Bool-cases (check_digest_signature S.digests key signature digest)) [
              | inr bad ↦ absurd (ground arith)
              | inl good ↦ elim (Bool-cases m.reads_digest) [
                | inr down ↦ absurd (ground arith)
                | inl up ↦ elim (Option-cases (stored_digest S d s)) [
                  | inl free ↦ absurd (ground arith)
                  | inr (stored, found) ↦ elim (Bool-cases (eq_digest stored d)) [
                    | inr away ↦ absurd (ground arith)
                    | inl same ↦ (stored, found, ground arith)
                  ]
                ]
              ]
            ]
      ]

  process_share-IsClaimedBy :
      (m : Meeting) (request : SignShareNodeRequest) (s : SignNodeState) (c : SignedCommitment)
      → (process_share S m request s).1 ≡ ok c
      → IsClaimedBy s (digest_hash S.digests request.oidc_token) request.frp_public_key
  unfolding process_share
  process_share-IsClaimedBy m request s c e =
      let (claims, checked, _, _) = and_then-ok s _ _ c e in
      check_request-IsClaimedBy m request.oidc_token request.frp_public_key request.frp_signature
        (sign_request_digest S.digests request.delegate_action request.oidc_token
          request.frp_public_key)
        s claims checked

  -- A claim is exclusive: once a claim of a token's hash has been answered with a commitment, a share
  -- for a token with that hash is only ever signed for the key that has claimed it, whatever requests
  -- and restarts there are in between.
  pub claim_is_exclusive :
      (m m' : Meeting) (claims : ClaimOidcNodeRequest) (shares : SignShareNodeRequest)
      (events : List Event) (s : SignNodeState) (c c' : SignedCommitment)
      → (process_claim S m claims s).1 ≡ ok c
      → digest_hash S.digests shares.oidc_token ≡ claims.oidc_token_hash
      → (process_share S m' shares (run S events (process_claim S m claims s).0)).1 ≡ ok c'
      → shares.frp_public_key ≡ claims.public_key
  claim_is_exclusive m m' claims shares events s c c' claimed same signed =
      let s' = (process_claim S m claims s).0 in
      let (d, found, key) = process_claim-IsClaimedBy m claims s c claimed in
      let on = run-Continues S events s' in
      let (d', found', key') = process_share-IsClaimedBy m' shares (run S events s') c' signed in
      let still = on.claimed (s'.node_info.our_index, claims.oidc_token_hash) d found in
      ground (arith, on.our_index)
