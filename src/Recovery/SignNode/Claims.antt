-- ===== src/Recovery/SignNode/Claims.antt =====
-- Who can have a token's signature shares (mpc-recovery/src/sign_node/mod.rs).
use mpc_recovery.Prelude.{
  ℕ, ◌≡◌, refl, ap, ◌∙◌, List, [], ◌∷◌, none, some, arith, inl, inr, Option-cases, Bool-cases,
  is_some,
}
use mpc_recovery.Collections.HashMap
use mpc_recovery.Collections.HashMap.{pair, number, both, get-insert_kept}
use mpc_recovery.Recovery.Answer.{Answer, ok, err, panicked}
use mpc_recovery.Recovery.Oauth.{Text, get_internal_account_id}
use mpc_recovery.Recovery.Utils.{
  check_digest_signature, claim_oidc_request_digest, claim_oidc_response_digest,
}
use mpc_recovery.Recovery.SignNode.{
  OidcDigest, eq_digest, SignNodeError, SignNodeState, SignShareNodeRequest, ClaimOidcNodeRequest,
  PublicKeyNodeRequest, Meeting, Services, Handled, and_then,
}
use mpc_recovery.Recovery.SignNode.Process.{
  claim, commit_to, process_claim, get_or_generate_user_creds, process_share, process_public_key,
  stored_digest, own_digest, with_digests,
}
use mpc_recovery.Recovery.SignNode.Handlers.{
  SignNodeRequest, claim_oidc, sign_share, process_commit, when_ready, commit, reveal,
  signature_share, public_key, set_keys, accept_pk_set, start, Event, commits, reveals, shares,
  asks_public_key, accepts, starts, step, run, Response,
}

module _ (S : Services) where
  -- What is kept of the state: the digests, and the number of the node.
  pub record Keeps (s s' : SignNodeState) : Type 0 where
    pub digests : s'.gcp_service.digests ≡ s.gcp_service.digests
    pub our_index : s'.node_info.our_index ≡ s.node_info.our_index

  Keeps-refl : (s : SignNodeState) → Keeps s s
  Keeps-refl s = record { digests = refl; our_index = refl }

  and_then-Keeps :
      {A B : Type 0} (s s' : SignNodeState) (a : Answer SignNodeError A) (next : A → Handled B)
      → Keeps s s'
      → ((x : A) → Keeps s (next x).0)
      → Keeps s (and_then s' a next).0
  unfolding and_then
  and_then-Keeps s s' (ok x) next h k = k x
  and_then-Keeps s s' (err e) next h k = h
  and_then-Keeps s s' panicked next h k = h

  commit_to-Keeps :
      (our_key payload : ℕ) (m : Meeting) (s : SignNodeState)
      → Keeps s (commit_to S our_key payload m s).0
  unfolding commit_to
  commit_to-Keeps our_key payload m s = record { digests = refl; our_index = refl }

  creds-Keeps :
      (m : Meeting) (account : Text) (s : SignNodeState)
      → Keeps s (get_or_generate_user_creds S m account s).0
  unfolding get_or_generate_user_creds and_then
  creds-Keeps m account s = record { digests = ground arith; our_index = ground arith }

  Keeps-trans : (s s' s'' : SignNodeState) → Keeps s s' → Keeps s' s'' → Keeps s s''
  Keeps-trans s s' s'' h k = record {
    digests = k.digests ∙ h.digests;
    our_index = k.our_index ∙ h.our_index;
  }

  process_share-Keeps :
      (m : Meeting) (request : SignShareNodeRequest) (s : SignNodeState)
      → Keeps s (process_share S m request s).0
  unfolding process_share
  process_share-Keeps m request s = and_then-Keeps s s _ _ (Keeps-refl s) λ claims.
      let made = creds-Keeps m (get_internal_account_id claims) s in
      let s' = (get_or_generate_user_creds S m (get_internal_account_id claims) s).0 in
      and_then-Keeps s s' _ _ made λ c. and_then-Keeps s s' _ _ made λ payload.
        and_then-Keeps s s' _ _ made
          λ key_pair. Keeps-trans s s' _ made (commit_to-Keeps key_pair payload m s')

  process_public_key-Keeps :
      (m : Meeting) (request : PublicKeyNodeRequest) (s : SignNodeState)
      → Keeps s (process_public_key S m request s).0
  unfolding process_public_key
  process_public_key-Keeps m request s = and_then-Keeps s s _ _ (Keeps-refl s) λ claims.
      let made = creds-Keeps m (get_internal_account_id claims) s in
      let s' = (get_or_generate_user_creds S m (get_internal_account_id claims) s).0 in
      and_then-Keeps s s' _ _ made λ c. made

  -- The node's number stays, and what is stored for a digest stays.
  pub record Continues (s s' : SignNodeState) : Type 0 where
    pub our_index : s'.node_info.our_index ≡ s.node_info.our_index
    pub claimed :
        (name : ℕ × ℕ) (d : OidcDigest)
        → HashMap.get pair name s.gcp_service.digests ≡ some d
        → HashMap.get pair name s'.gcp_service.digests ≡ some d

  Keeps-Continues : (s s' : SignNodeState) → Keeps s s' → Continues s s'
  Keeps-Continues s s' h = record {
    our_index = h.our_index;
    claimed = λ name d e. ap (HashMap.get pair name) h.digests ∙ e;
  }

  Continues-refl : (s : SignNodeState) → Continues s s
  Continues-refl s = Keeps-Continues s s (Keeps-refl s)

  Continues-trans : (s s' s'' : SignNodeState) → Continues s s' → Continues s' s'' → Continues s s''
  Continues-trans s s' s'' h k = record {
    our_index = k.our_index ∙ h.our_index;
    claimed = λ name d e. k.claimed name d (h.claimed name d e);
  }

  insert-Continues :
      (s : SignNodeState) (name : ℕ × ℕ) (d : OidcDigest)
      → HashMap.get pair name s.gcp_service.digests ≡ none
      → Continues s (with_digests S s (HashMap.insert pair name d s.gcp_service.digests))
  insert-Continues s name d free = record {
    our_index = refl;
    claimed = λ other w e. elim (Bool-cases (pair.test other name)) [
      | inl same ↦ absurd (
          ground (
            arith,
            ap (λ n. HashMap.get pair n s.gcp_service.digests) (pair.sound other name same),
          ))
      | inr away ↦ get-insert_kept pair name other d w s.gcp_service.digests away e
    ];
  }

  claim-Continues :
      (m : Meeting) (d : OidcDigest) (s : SignNodeState) → Continues s (claim S m d s).0
  unfolding claim and_then
  claim-Continues m d s = elim (Bool-cases m.reads_digest) [
    | inl up ↦ elim (Option-cases (stored_digest S d s)) [
      | inl free ↦ elim (Bool-cases m.writes_digest) [
        | inl writes ↦
            rw (claim, and_then, up, free, writes) (insert-Continues s (d.node_id, d.digest) d free)
        | inr fails ↦ rw (claim, and_then, up, free, fails) (Continues-refl s)
      ]
      | inr (stored, found) ↦ elim (Bool-cases (eq_digest stored d)) [
        | inl same ↦ rw (claim, and_then, up, found, same) (Continues-refl s)
        | inr away ↦ rw (claim, and_then, up, found, away) (Continues-refl s)
      ]
    ]
    | inr down ↦ rw (claim, and_then, down) (Continues-refl s)
  ]

  and_then-Continues :
      {A B : Type 0} (s s' : SignNodeState) (a : Answer SignNodeError A) (next : A → Handled B)
      → Continues s s'
      → ((x : A) → Continues s (next x).0)
      → Continues s (and_then s' a next).0
  unfolding and_then
  and_then-Continues s s' (ok x) next h k = k x
  and_then-Continues s s' (err e) next h k = h
  and_then-Continues s s' panicked next h k = h

  process_claim-Continues :
      (m : Meeting) (request : ClaimOidcNodeRequest) (s : SignNodeState)
      → Continues s (process_claim S m request s).0
  unfolding process_claim
  process_claim-Continues m request s =
      let d = own_digest S request.oidc_token_hash request.public_key s in
      let claimed = claim-Continues m d s in
      let s' = (claim S m d s).0 in
      elim (Bool-cases (
        check_digest_signature S.digests request.public_key request.signature
          (claim_oidc_request_digest S.digests request.oidc_token_hash request.public_key))) [
            | inl good ↦
                rw (process_claim, good)
                  (and_then-Continues s s' _ _ claimed λ _. Continues-trans s s' _ claimed (
                    Keeps-Continues s' _ (
                      commit_to-Keeps S.node_key
                        (claim_oidc_response_digest S.digests request.signature) m s')))
            | inr bad ↦ rw (process_claim, bad) (Continues-refl s)
          ]

  when_ready-Continues :
      {T : Type 0} (s : SignNodeState) (handled : SignNodeState × Response T)
      → Continues s handled.0
      → Continues s (when_ready S s handled).0
  unfolding when_ready
  when_ready-Continues s handled h = elim (Bool-cases (is_some s.node_info.nodes_public_keys)) [
    | inl known ↦ rw (when_ready, known) h
    | inr unknown ↦ rw (when_ready, unknown) (Continues-refl s)
  ]

  process_commit-Continues :
      (m : Meeting) (request : SignNodeRequest) (s : SignNodeState)
      → Continues s (process_commit S m request s).0
  unfolding process_commit
  process_commit-Continues m (claim_oidc request) s = process_claim-Continues m request s
  process_commit-Continues m (sign_share request) s =
      Keeps-Continues s _ (process_share-Keeps m request s)

  accept_pk_set-Keeps :
      (m : Meeting) (keys : List ℕ) (s : SignNodeState) → Keeps s (accept_pk_set S m keys s).0
  unfolding accept_pk_set set_keys
  accept_pk_set-Keeps m keys s = record { digests = ground arith; our_index = ground arith }

  step-Continues : (event : Event) (s : SignNodeState) → Continues s (step S event s)
  unfolding step commit reveal signature_share public_key start
  step-Continues (commits m request) s =
      when_ready-Continues s _ (process_commit-Continues m request s)
  step-Continues (reveals commitments) s =
      when_ready-Continues s _ (Keeps-Continues s _ (record { digests = refl; our_index = refl }))
  step-Continues (shares parts) s =
      when_ready-Continues s _ (Keeps-Continues s _ (record { digests = refl; our_index = refl }))
  step-Continues (asks_public_key m request) s =
      Keeps-Continues s _ (process_public_key-Keeps m request s)
  step-Continues (accepts m keys) s = Keeps-Continues s _ (accept_pk_set-Keeps m keys s)
  step-Continues (starts reads) s =
      Keeps-Continues s _ (record { digests = refl; our_index = refl })

  pub run-Continues : (events : List Event) (s : SignNodeState) → Continues s (run S events s)
  unfolding run
  run-Continues [] s = Continues-refl s
  run-Continues (event ∷ events) s =
      Continues-trans s (step S event s) _ (step-Continues event s)
        (run-Continues events (step S event s))
