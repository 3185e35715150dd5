-- ===== src/Recovery/LeaderNode/Refusals.antt =====
-- What the leader node asks for before it hands out a signature (mpc-recovery/src/leader_node/mod.rs,
-- transaction.rs).
use mpc_recovery.Prelude.{
  ℕ, zero, suc, ◌≡◌, ◌≢◌, ◌<◌, ◌≤◌, refl, ◌∙◌, List, [], ◌∷◌, some, map, arith, inl, inr,
  Option-cases, All, ◌+◌,
}
use mpc_recovery.Recovery.Answer.{ok, err, panicked, Answer-cases, ◌>>=◌}
use mpc_recovery.Recovery.AggregateSigner.{SignedCommitment, to_dalek_signature}
use mpc_recovery.Recovery.EdDsa.{SignSecondMsg}
use mpc_recovery.Recovery.Oauth.{IdTokenClaims, verify_oidc_token}
use mpc_recovery.Recovery.SignNode.Handlers.{SignNodeRequest, sign_share}
use mpc_recovery.Recovery.LeaderNode.{
  Leader, Reply, unreachable, unreadable, good, bad, read_reply, call_all_nodes, retry, Action,
  delete_key, delete_account, another, delete_key_actions, delete_account_actions, SignRequest,
  Network, LeaderState, oidc_providers, sign_payload_with_mpc, check_delete_keys,
  check_delete_accounts, verified, recovery_pk, credentials_of, get_mpc_signature, process_sign,
}

read_reply-good : {T : Type 0} (r : Reply T) (t : T) → read_reply r ≡ ok t → r ≡ good t
unfolding read_reply
read_reply-good (unreachable status) t e = absurd (ground arith)
read_reply-good unreadable t e = absurd (ground arith)
read_reply-good (good x) t e = ground arith
read_reply-good (bad status) t e = absurd (ground arith)

call_all_nodes-good :
    {T : Type 0} (call : ℕ → Reply T) (nodes : List ℕ) (results : List T)
    → call_all_nodes call nodes ≡ ok results
    → map call nodes ≡ map good results
unfolding call_all_nodes
call_all_nodes-good call [] results e = let now : results ≡ [] = ground arith in rw now refl
call_all_nodes-good call (node ∷ nodes) results e = elim (Answer-cases (read_reply (call node))) [
  | inl (t, read) ↦ elim (Answer-cases (call_all_nodes call nodes)) [
    | inl (rest, all) ↦
        let now : results ≡ t ∷ rest = ground arith in
        rw (now, read_reply-good (call node) t read, call_all_nodes-good call nodes rest all) refl
    | inr (inl (x, failure)) ↦ absurd (ground arith)
    | inr (inr failure) ↦ absurd (ground arith)
  ]
  | inr (inl (x, failure)) ↦ absurd (ground arith)
  | inr (inr failure) ↦ absurd (ground arith)
]

-- A check that is passed, before the rest.
ok_unit :
    {T : Type 0} (checked : Leader (Unit {0})) (rest : Leader T) (t : T)
    → (checked >>= (λ _. rest)) ≡ ok t
    → (checked ≡ ok tt) × (rest ≡ ok t)
ok_unit (ok tt) rest t e = (refl, e)
ok_unit (err x) rest t e = absurd (ground arith)
ok_unit panicked rest t e = absurd (ground arith)

-- A task that succeeds in the end has succeeded at one of its attempts.
pub retry-ok :
    {T : Type 0} (task : ℕ → Leader T) (more attempt : ℕ) (t : T)
    → retry task more attempt ≡ ok t
    → (n : ℕ) × (attempt ≤ n) × (n ≤ attempt + more) × (task n ≡ ok t)
unfolding retry
retry-ok task zero attempt t e = (attempt, omega arith, omega arith, e)
retry-ok task (suc more) attempt t e = elim (Answer-cases (task attempt)) [
  | inl (x, success) ↦ (attempt, omega arith, omega arith, success ∙ ground arith)
  | inr (inl (x, failure)) ↦
      let (n, low, high, success) = retry-ok task more (suc attempt) t (ground arith) in
      (n, omega arith, omega arith, success)
  | inr (inr failure) ↦ absurd (ground arith)
]

-- The action deletes neither this key nor the account.
abbrev pub IsHarmless : ℕ → Action → Type 0
IsHarmless key (delete_key k) = k ≢ key
IsHarmless key (delete_account _) = ⊥
IsHarmless key (another _) = Unit

module _ (N : Network) where
  checked-IsHarmless :
      (key : ℕ) (actions : List Action)
      → check_delete_keys N key (delete_key_actions actions) ≡ ok tt
      → check_delete_accounts N (delete_account_actions actions) ≡ ok tt
      → All (IsHarmless key) actions
  unfolding check_delete_keys check_delete_accounts delete_key_actions delete_account_actions
  checked-IsHarmless key [] keys accounts = tt
  checked-IsHarmless key (delete_key k ∷ actions) keys accounts =
      (ground arith, checked-IsHarmless key actions (ground arith) accounts)
  checked-IsHarmless key (delete_account b ∷ actions) keys accounts = absurd (ground arith)
  checked-IsHarmless key (another n ∷ actions) keys accounts =
      (tt, checked-IsHarmless key actions keys accounts)

  -- What stands behind the signature of a payload: at one attempt all nodes have committed to it,
  -- have revealed for the commitments of all, and have given their shares for all the reveals.
  pub record IsSignedByAll (nodes : List ℕ) (request : SignNodeRequest) (signature : ℕ)
      : Type 0 where
    pub attempt : ℕ
    pub few : attempt < 5
    pub commitments : List SignedCommitment
    pub reveals : List SignSecondMsg
    pub shares : List ℕ
    pub raw : ℕ
    pub committed : map (N.commit attempt request) nodes ≡ map good commitments
    pub revealed : map (N.reveal attempt commitments) nodes ≡ map good reveals
    pub shared : map (N.signature_share attempt reveals) nodes ≡ map good shares
    pub added : N.add_signature_parts shares ≡ some raw
    pub converted : to_dalek_signature N.eddsa raw ≡ ok signature

  sign_payload-IsSignedByAll :
      (nodes : List ℕ) (request : SignNodeRequest) (attempt signature : ℕ)
      → attempt < 5
      → sign_payload_with_mpc N nodes request attempt ≡ ok signature
      → IsSignedByAll nodes request signature
  unfolding sign_payload_with_mpc
  sign_payload-IsSignedByAll nodes request attempt signature few e =
      elim (Answer-cases (call_all_nodes (N.commit attempt request) nodes)) [
        | inr (inl (x, failure)) ↦ absurd (ground arith)
        | inr (inr failure) ↦ absurd (ground arith)
        | inl (commitments, first) ↦
            (elim (Answer-cases (call_all_nodes (N.reveal attempt commitments) nodes)) [
              | inr (inl (x, failure)) ↦ absurd (ground arith)
              | inr (inr failure) ↦ absurd (ground arith)
              | inl (reveals, second) ↦
                  (elim (Answer-cases (call_all_nodes (N.signature_share attempt reveals) nodes)) [
                    | inr (inl (x, failure)) ↦ absurd (ground arith)
                    | inr (inr failure) ↦ absurd (ground arith)
                    | inl (shares, third) ↦ (elim (Option-cases (N.add_signature_parts shares)) [
                      | inl missing ↦ absurd (ground arith)
                      | inr (raw, added) ↦ record {
                        attempt = attempt;
                        few = few;
                        commitments = commitments;
                        reveals = reveals;
                        shares = shares;
                        raw = raw;
                        committed = call_all_nodes-good _ nodes commitments first;
                        revealed = call_all_nodes-good _ nodes reveals second;
                        shared = call_all_nodes-good _ nodes shares third;
                        added = added;
                        converted = elim (Answer-cases (to_dalek_signature N.eddsa raw)) [
                          | inl (found, well) ↦ well ∙ ground arith
                          | inr (inl (x, failure)) ↦ absurd (ground arith)
                          | inr (inr failure) ↦ absurd (ground arith)
                        ];
                      }
                    ])
                  ])
            ])
      ]

  -- What stands behind the answer to a request: an action, a token for one of the partners, the
  -- recovery key of its user, and the signature of all nodes.
  pub record IsAuthorized (s : LeaderState) (request : SignRequest) (signature : ℕ) : Type 0 where
    pub action : ℕ
    pub claims : IdTokenClaims
    pub key : ℕ
    pub read : N.try_from_slice request.delegate_action ≡ some action
    pub token_verified :
        verify_oidc_token N.jwt request.oidc_token (some (oidc_providers s.partners)) s.fetched
        ≡ ok claims
    pub recovered : recovery_pk N s (credentials_of N request) ≡ ok key
    pub harmless : All (IsHarmless key) (N.actions action)
    pub signed :
        IsSignedByAll s.sign_nodes
          (sign_share (record {
            oidc_token = request.oidc_token;
            delegate_action = action;
            frp_signature = request.frp_signature;
            frp_public_key = request.frp_public_key;
          }))
          signature

  -- A signature that the leader hands out is authorised: the request holds an action, none of whose
  -- parts deletes the account or the recovery key of the user; the token is verified for one of the
  -- partners; and at one of at most five attempts all sign nodes have committed to the action, have
  -- revealed for the commitments of all, and have given the shares that the signature is made of.
  pub sign-IsAuthorized :
      (s : LeaderState) (request : SignRequest) (signature : ℕ)
      → process_sign N s request ≡ ok signature
      → IsAuthorized s request signature
  unfolding process_sign verified get_mpc_signature
  sign-IsAuthorized s request signature e =
      elim (Option-cases (N.try_from_slice request.delegate_action)) [
        | inl missing ↦ absurd (ground arith)
        | inr (action, read) ↦
            (elim (Answer-cases (
              verify_oidc_token N.jwt request.oidc_token (some (oidc_providers s.partners))
                s.fetched)) [
                  | inr (inl (x, failure)) ↦ absurd (ground arith)
                  | inr (inr failure) ↦ absurd (ground arith)
                  | inl (claims, token_verified) ↦
                      (elim (Answer-cases (recovery_pk N s (credentials_of N request))) [
                        | inr (inl (x, failure)) ↦ absurd (ground arith)
                        | inr (inr failure) ↦ absurd (ground arith)
                        | inl (key, recovered) ↦
                            let (keys, rest) =
                              ok_unit
                                (check_delete_keys N key (delete_key_actions (N.actions action))) _
                                signature (ground arith) in
                            let (accounts, last) =
                              ok_unit
                                (check_delete_accounts N
                                  (delete_account_actions (N.actions action)))
                                _ signature rest in
                            let (n, low, few, success) =
                              retry-ok (get_mpc_signature N s request action) 4 0 signature last in
                            record {
                              action = action;
                              claims = claims;
                              key = key;
                              read = read;
                              token_verified = token_verified;
                              recovered = recovered;
                              harmless = checked-IsHarmless key (N.actions action) keys accounts;
                              signed =
                                  sign_payload-IsSignedByAll s.sign_nodes _ n signature
                                    (omega arith) success;
                            }
                      ])
                ])
      ]
