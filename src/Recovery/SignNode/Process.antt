-- ===== src/Recovery/SignNode/Process.antt =====
-- mpc-recovery/src/sign_node/mod.rs: how the sign node processes claims, requests for shares and for
-- public keys.
use mpc_recovery.Prelude.{ℕ, Bool, true, false, List, [], ◌∷◌, Option, none, some, if◌then◌else◌}
use mpc_recovery.Collections.HashMap
use mpc_recovery.Collections.HashMap.{Equality, number, pair, both}
use mpc_recovery.Recovery.Answer.{Answer, ok, err, panicked, map_err}
use mpc_recovery.Recovery.AggregateSigner.{SignedCommitment}
use mpc_recovery.Recovery.SigningState.{get_commitment}
use mpc_recovery.Recovery.Oauth.{Text, IdTokenClaims, verify_oidc_token, get_internal_account_id}
use mpc_recovery.Recovery.Utils.{
  claim_oidc_request_digest, claim_oidc_response_digest, sign_request_digest,
  user_credentials_request_digest, check_digest_signature, digest_hash,
}
use mpc_recovery.Recovery.UserCredentials
use mpc_recovery.Recovery.UserCredentials.{
  EncryptedUserCredentials, Cipher, Other, decrypt_key_pair,
}
use mpc_recovery.Recovery.SignNode.{
  OidcDigest, eq_digest, SignNodeError, text, SignNodeState, ClaimOidcNodeRequest,
  SignShareNodeRequest, PublicKeyNodeRequest, Meeting, Services, Handled, and_then, read,
  digest_signature_verification_failed, oidc_verification_failed, oidc_token_already_claimed,
  oidc_token_claimed_with_another_key, oidc_token_not_claimed, other,
}

module _ (S : Services) where
  abbrev pub with_digests : SignNodeState → List ((ℕ × ℕ) × OidcDigest) → SignNodeState
  with_digests s digests = record s { gcp_service = record s.gcp_service { digests = digests } }

  abbrev pub stored_digest : OidcDigest → SignNodeState → Option OidcDigest
  stored_digest d s = HashMap.get pair (d.node_id, d.digest) s.gcp_service.digests

  abbrev pub own_digest : ℕ → ℕ → SignNodeState → OidcDigest
  own_digest hash public_key s = record {
    node_id = s.node_info.our_index;
    digest = hash;
    public_key = public_key;
  }

  -- The digest is stored, unless it is there already with the same key.
  unfoldable pub claim : Meeting → OidcDigest → SignNodeState → Handled (Unit {0})
  unfolding HashMap.get HashMap.insert
  claim m d s = and_then s (read m.reads_digest (stored_digest d s)) (λ found. elim found [
    | some stored ↦
        if eq_digest stored d then (s, ok tt) else (s, err (oidc_token_already_claimed d))
    | none ↦
        if m.writes_digest
        then (
          with_digests s (HashMap.insert pair (d.node_id, d.digest) d s.gcp_service.digests),
          ok tt,
        )
        else (s, err other)
  ])

  -- `get_commitment`, whose errors become anonymous.
  unfoldable pub commit_to : ℕ → ℕ → Meeting → SignNodeState → Handled SignedCommitment
  unfolding get_commitment
  commit_to our_key payload m s =
      let (signing_state, answer) =
        get_commitment S.eddsa our_key S.node_key (payload ∷ []) m.random s.signing_state in
      (record s { signing_state = signing_state }, map_err (λ _. other) answer)

  -- `process_commit` of `SignNodeRequest::ClaimOidc`
  unfoldable pub process_claim :
      Meeting → ClaimOidcNodeRequest → SignNodeState → Handled SignedCommitment
  unfolding claim commit_to claim_oidc_request_digest claim_oidc_response_digest
      check_digest_signature
  process_claim m request s =
      let digest = claim_oidc_request_digest S.digests request.oidc_token_hash request.public_key in
      if check_digest_signature S.digests request.public_key request.signature digest
      then (let (s', answer) =
            claim m (own_digest request.oidc_token_hash request.public_key s) s in
          and_then s' answer (λ _.
            commit_to S.node_key (claim_oidc_response_digest S.digests request.signature) m s'))
      else (s, err digest_signature_verification_failed)

  -- The token is claimed with this key.
  unfoldable pub check_claimed :
      Meeting → OidcDigest → SignNodeState → Answer SignNodeError (Unit {0})
  unfolding HashMap.get
  check_claimed m d s = elim (read m.reads_digest (stored_digest d s)) [
    | err e ↦ err e
    | panicked ↦ panicked
    | ok none ↦ err (oidc_token_not_claimed d)
    | ok (some stored) ↦
        if eq_digest stored d then ok tt else err (oidc_token_claimed_with_another_key d)
  ]

  abbrev pub with_credentials :
      SignNodeState → List ((ℕ × Text) × EncryptedUserCredentials) → SignNodeState
  with_credentials s credentials = record s {
    gcp_service = record s.gcp_service { credentials = credentials };
  }

  unfoldable pub get_or_generate_user_creds :
      Meeting → Text → SignNodeState → Handled EncryptedUserCredentials
  unfolding UserCredentials.new HashMap.get HashMap.insert
  get_or_generate_user_creds m account s =
      let name : ℕ × Text = (s.node_info.our_index, account) in
      and_then s
        (read m.reads_credentials (HashMap.get (both number text) name s.gcp_service.credentials))
        (λ found. elim found [
          | some c ↦ (s, ok c)
          | none ↦
              and_then s
                (map_err (λ _. other)
                  (UserCredentials.new S.eddsa S.cipher s.node_info.our_index account m.key_pair))
                (λ c.
                  if m.writes_credentials
                  then (
                    with_credentials s
                        (HashMap.insert (both number text) name c s.gcp_service.credentials),
                    ok c,
                  )
                  else (s, err other))
        ])

  abbrev pub checked : SignNodeError → Bool → Answer SignNodeError (Unit {0})
  checked e true = ok tt
  checked e false = err e

  -- The tests of a token, of the signature of the request's digest, and of the claim, in their order.
  unfoldable pub check_request :
      Meeting → Text → ℕ → ℕ → ℕ → SignNodeState → Answer SignNodeError IdTokenClaims
  unfolding verify_oidc_token check_digest_signature digest_hash check_claimed
  check_request m token frp_pk signature digest s =
      elim (verify_oidc_token S.jwt token none m.fetched) [
        | err e ↦ err (oidc_verification_failed e)
        | panicked ↦ panicked
        | ok claims ↦
            if check_digest_signature S.digests frp_pk signature digest
            then (elim (check_claimed m (own_digest (digest_hash S.digests token) frp_pk s) s) [
              | ok _ ↦ ok claims
              | err e ↦ err e
              | panicked ↦ panicked
            ])
            else err digest_signature_verification_failed
      ]

  abbrev pub serialized : Option ℕ → Answer SignNodeError ℕ
  serialized none = err other
  serialized (some hash) = ok hash

  -- `process_commit` of `SignNodeRequest::SignShare`
  unfoldable pub process_share :
      Meeting → SignShareNodeRequest → SignNodeState → Handled SignedCommitment
  unfolding check_request get_or_generate_user_creds commit_to sign_request_digest
      get_internal_account_id decrypt_key_pair
  process_share m request s =
      let digest =
        sign_request_digest S.digests request.delegate_action request.oidc_token
          request.frp_public_key in
      and_then s
        (check_request m request.oidc_token request.frp_public_key request.frp_signature digest s)
        (λ claims.
          let (s', answer) = get_or_generate_user_creds m (get_internal_account_id claims) s in
          and_then s' answer (λ c.
            and_then s' (serialized (S.signable_hash request.delegate_action)) (λ payload.
              and_then s' (map_err (λ _. other) (decrypt_key_pair S.eddsa S.cipher c))
                (λ key_pair. commit_to key_pair payload m s'))))

  unfoldable pub process_public_key : Meeting → PublicKeyNodeRequest → SignNodeState → Handled ℕ
  unfolding check_request get_or_generate_user_creds user_credentials_request_digest
      get_internal_account_id
  process_public_key m request s =
      let digest =
        user_credentials_request_digest S.digests request.oidc_token request.frp_public_key in
      and_then s
        (check_request m request.oidc_token request.frp_public_key request.frp_signature digest s)
        (λ claims.
          let (s', answer) = get_or_generate_user_creds m (get_internal_account_id claims) s in
          and_then s' answer (λ c. (s', ok c.public_key)))
