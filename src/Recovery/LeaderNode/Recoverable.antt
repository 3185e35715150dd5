-- ===== src/Recovery/LeaderNode/Recoverable.antt =====
-- What stands behind an account that the leader node has created (mpc-recovery/src/leader_node/mod.rs).
use mpc_recovery.Prelude.{
  ℕ, ◌≡◌, ◌<◌, refl, ◌+◌, ◌&&◌, List, [], ◌∷◌, some, true, arith, u64, inl, inr, Option-cases,
  Bool-cases,
}
use mpc_recovery.Recovery.Answer.{ok, Answer-cases}
use mpc_recovery.Recovery.Oauth.{
  IdTokenClaims, verify_oidc_token, get_internal_account_id, eq_text, eq_text_sound,
}
use mpc_recovery.Recovery.LeaderNode.{
  FastAuthPartner, Network, LeaderState, oidc_providers, verified, recovery_pk,
}
use mpc_recovery.Recovery.LeaderNode.Refusals.{retry-ok}
use mpc_recovery.Recovery.LeaderNode.Accounts.{
  NewAccountRequest, CreateAccountAction, DelegateAction, CreateAccountAtomicRequest, NewAccount,
  Chain, find, options_for, create_account, new_create_account_delegate_action, credentials_for,
  is_from_user, process_new_account,
}

-- A partner who is found has the issuer and the audience.
find_sound :
    (issuer audience : List ℕ) (partners : List FastAuthPartner) (p : FastAuthPartner)
    → find issuer audience partners ≡ some p
    → (p.oidc_provider.issuer ≡ issuer) × (p.oidc_provider.audience ≡ audience)
unfolding find
find_sound issuer audience [] p e = absurd (ground arith)
find_sound issuer audience (q ∷ partners) p e =
    elim (Bool-cases
      (eq_text q.oidc_provider.issuer issuer && eq_text q.oidc_provider.audience audience)) [
        | inl found ↦
            let same : q ≡ p = ground arith in
            ground (
              arith,
              eq_text_sound q.oidc_provider.issuer issuer,
              eq_text_sound q.oidc_provider.audience audience,
            )
        | inr missed ↦ find_sound issuer audience partners p (ground arith)
      ]

module _ (N : Network) (K : Chain) where
  -- The relayer has created the account at an attempt, by a delegate action with these options.
  pub record IsCreated (request : NewAccountRequest) (claims : IdTokenClaims)
      (partner : FastAuthPartner) (key : ℕ) (made : NewAccount) : Type 0 where
    pub attempt : ℕ
    pub few : attempt < 5
    pub sent : CreateAccountAtomicRequest
    pub for_user : sent.oauth_token ≡ get_internal_account_id claims
    pub for_account :
        (sent.account_id ≡ request.near_account_id)
        × (sent.signed_delegate_action.delegate_action.action.new_account_id
            ≡ request.near_account_id)
    pub with_options :
        sent.signed_delegate_action.delegate_action.action.options ≡ options_for N K request key
    pub created : K.create_account_atomic attempt sent partner.relayer ≡ true
    pub answered : made ≡ record {
      create_account_options = options_for N K request key;
      user_recovery_public_key = key;
      near_account_id = request.near_account_id;
    }

  create_account-IsCreated :
      (request : NewAccountRequest) (claims : IdTokenClaims) (partner : FastAuthPartner)
      (key attempt : ℕ) (made : NewAccount)
      → attempt < 5
      → create_account N K request claims partner key attempt ≡ ok made
      → IsCreated request claims partner key made
  unfolding create_account new_create_account_delegate_action
  create_account-IsCreated request claims partner key attempt made few e =
      elim (Option-cases (K.access_key attempt (K.signer attempt))) [
        | inl missing ↦ absurd (ground arith)
        | inr ((height, nonce), found) ↦
            let call : CreateAccountAction = record {
              new_account_id = request.near_account_id;
              options = options_for N K request key;
              gas = 300000000000000;
              deposit = 0;
            } in
            let action : DelegateAction = record {
              sender_id = (K.signer attempt).0;
              receiver_id = K.near_root_account;
              action = call;
              nonce = nonce;
              max_block_height = u64 (height + 100);
              public_key = (K.signer attempt).1;
            } in
            let sent : CreateAccountAtomicRequest = record {
              account_id = request.near_account_id;
              allowance = 300000000000000;
              oauth_token = get_internal_account_id claims;
              signed_delegate_action = record {
                delegate_action = action;
                signature = K.signs (K.signer attempt) action;
              };
            } in
            elim (Bool-cases (K.is_non_delegate call)) [
              | inr refused ↦ absurd (ground arith)
              | inl accepted ↦
                  (elim (Bool-cases (K.create_account_atomic attempt sent partner.relayer)) [
                    | inr refused ↦ absurd (ground arith)
                    | inl done ↦ record {
                      attempt = attempt;
                      few = few;
                      sent = sent;
                      for_user = refl;
                      for_account = (refl, refl);
                      with_options = refl;
                      created = done;
                      answered = ground arith;
                    }
                  ])
            ]
      ]

  -- What stands behind the answer: a token for one of the partners, which the key of the request has
  -- signed for, the recovery key of its user, and the account.
  pub record IsRecoverable (s : LeaderState) (request : NewAccountRequest) (made : NewAccount)
      : Type 0 where
    pub claims : IdTokenClaims
    pub partner : FastAuthPartner
    pub key : ℕ
    pub token_verified :
        verify_oidc_token N.jwt request.oidc_token (some (oidc_providers s.partners)) s.fetched
        ≡ ok claims
    pub from_user : is_from_user N K request ≡ true
    pub of_partner :
        (partner.oidc_provider.issuer ≡ claims.iss) × (partner.oidc_provider.audience ≡ claims.aud)
    pub recovered : recovery_pk N s (credentials_for N K request) ≡ ok key
    pub made_for : IsCreated request claims partner key made

  -- An account that the leader reports as created can be recovered: at one of at most five attempts
  -- the relayer of the token's partner has created the account that was asked for, with the recovery
  -- key that the sign nodes hold for the verified user behind the keys that were asked for; and the key
  -- of the request has signed for the token.
  pub new_account-IsRecoverable :
      (s : LeaderState) (request : NewAccountRequest) (made : NewAccount)
      → process_new_account N K s request ≡ ok made
      → IsRecoverable s request made
  unfolding process_new_account verified
  new_account-IsRecoverable s request made e =
      elim (Answer-cases
        (verify_oidc_token N.jwt request.oidc_token (some (oidc_providers s.partners)) s.fetched)) [
          | inr (inl (x, failure)) ↦ absurd (ground arith)
          | inr (inr failure) ↦ absurd (ground arith)
          | inl (claims, token_verified) ↦ (elim (Bool-cases (is_from_user N K request)) [
            | inr forged ↦ absurd (ground arith)
            | inl from_user ↦ (elim (Option-cases (find claims.iss claims.aud s.partners)) [
              | inl missing ↦ absurd (ground arith)
              | inr (partner, found) ↦
                  (elim (Answer-cases (recovery_pk N s (credentials_for N K request))) [
                    | inr (inl (x, failure)) ↦ absurd (ground arith)
                    | inr (inr failure) ↦ absurd (ground arith)
                    | inl (key, recovered) ↦
                        let (n, low, few, success) =
                          retry-ok (create_account N K request claims partner key) 4 0 made
                            (ground arith) in
                        record {
                          claims = claims;
                          partner = partner;
                          key = key;
                          token_verified = token_verified;
                          from_user = from_user;
                          of_partner = find_sound claims.iss claims.aud s.partners partner found;
                          recovered = recovered;
                          made_for =
                              create_account-IsCreated request claims partner key n made
                                (omega arith) success;
                        }
                  ])
            ])
          ])
        ]
