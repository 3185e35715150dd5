-- ===== src/Recovery/Oauth/Validity.antt =====
-- What the tests of an OIDC token come to (mpc-recovery/src/oauth.rs).
use mpc_recovery.Prelude.{
  ℕ, ◌≡◌, refl, ap, ◌∙◌, true, List, [], ◌∷◌, ◌++◌, Option, none, some, arith, inl, inr, Any,
  Option-cases,
}
use mpc_recovery.Recovery.Answer.{Answer, ok, err, panicked, Answer-cases}
use mpc_recovery.Recovery.Oauth.{
  Text, IdTokenClaims, rs256, OidcError, Jwt, OidcProvider, rsplit, decode, check_provider,
  validate_jwt, validate_any, verify_oidc_token, public_keys_not_found,
}

rsplit-join :
    (s before behind : Text) → rsplit s ≡ some (before, behind) → s ≡ before ++ 46 ∷ behind
unfolding rsplit
rsplit-join [] before behind e = absurd (ground arith)
rsplit-join (c ∷ s) before behind e = elim (Option-cases (rsplit s)) [
  | inl no_dot ↦ ground arith
  | inr ((front, back), found) ↦ ground (arith, rsplit-join s front back found)
]

module _ (J : Jwt) where
  -- A message of two parts with a signature behind it, which is good for the key; the second part
  -- holds the claims.
  pub record IsSignedBy (token : Text) (claims : IdTokenClaims) (key : ℕ) : Type 0 where
    pub header : Text
    pub payload : Text
    pub signature : Text
    pub bytes : List ℕ
    pub whole : token ≡ (header ++ 46 ∷ payload) ++ 46 ∷ signature
    pub decoded : J.b64_decode payload ≡ some bytes
    pub read : J.claims bytes ≡ some claims
    pub good : J.verify signature (header ++ 46 ∷ payload) key rs256 ≡ some true

  decode-IsSignedBy :
      (token : Text) (key : ℕ) (claims : IdTokenClaims)
      → decode J token key ≡ ok (rs256, claims)
      → IsSignedBy token claims key
  unfolding decode
  decode-IsSignedBy token key claims e = elim (Option-cases (rsplit token)) [
    | inl no_dot ↦ absurd (ground arith)
    | inr ((message, signature), split) ↦ elim (Option-cases (rsplit message)) [
      | inl no_dot ↦ absurd (ground arith)
      | inr ((header, payload), parts) ↦ elim (Option-cases (J.b64_decode header)) [
        | inl bad ↦ absurd (ground arith)
        | inr (header_bytes, header_decoded) ↦ elim (Option-cases (J.header header_bytes)) [
          | inl bad ↦ absurd (ground arith)
          | inr (alg, header_read) ↦ elim (Option-cases (J.b64_decode payload)) [
            | inl bad ↦ absurd (ground arith)
            | inr (bytes, decoded) ↦ elim (Option-cases (J.claims bytes)) [
              | inl bad ↦ absurd (ground arith)
              | inr (found, read) ↦ elim (Option-cases (J.verify signature message key alg)) [
                | inl bad ↦ absurd (ground arith)
                | inr (good, answer) ↦
                    let joined = rsplit-join message header payload parts in
                    record {
                      header = header;
                      payload = payload;
                      signature = signature;
                      bytes = bytes;
                      whole = rsplit-join token message signature split ∙ rw joined refl;
                      decoded = decoded;
                      read = ground arith;
                      good = rw⁻¹ joined (ground arith);
                    }
              ]
            ]
          ]
        ]
      ]
    ]
  ]

  validate_jwt-IsSignedBy :
      (token public_key : Text) (providers : Option (List OidcProvider)) (claims : IdTokenClaims)
      → validate_jwt J token public_key providers ≡ ok claims
      → (key : ℕ) × (J.from_rsa_pem public_key ≡ some key) × IsSignedBy token claims key
  unfolding validate_jwt
  validate_jwt-IsSignedBy token public_key providers claims e =
      elim (Option-cases (J.from_rsa_pem public_key)) [
        | inl bad ↦ absurd (ground arith)
        | inr (key, from) ↦ elim (Answer-cases (decode J token key)) [
          | inl ((alg, found), well) ↦
              let rest : (alg ≡ rs256) × (found ≡ claims) =
                elim (Answer-cases (check_provider J providers found)) [
                  | inl (_, listed) ↦ ground arith
                  | inr (inl (x, bad)) ↦ absurd (ground arith)
                  | inr (inr bad) ↦ absurd (ground arith)
                ] in
              (key, from, decode-IsSignedBy token key claims (rw (well, rest.0, rest.1) refl))
          | inr (inl (x, bad)) ↦ absurd (ground arith)
          | inr (inr bad) ↦ absurd (ground arith)
        ]
      ]

  -- The public key is that of a key pair that has signed the token.
  abbrev pub Signs : Text → IdTokenClaims → Text → Type 0
  Signs token claims public_key =
      (key : ℕ) × (J.from_rsa_pem public_key ≡ some key) × IsSignedBy token claims key

  validate_any-Signs :
      (token : Text) (keys : List Text) (providers : Option (List OidcProvider)) (last : OidcError)
      (claims : IdTokenClaims)
      → validate_any J token keys providers last ≡ ok claims
      → Any (Signs token claims) keys
  unfolding validate_any
  validate_any-Signs token [] providers last claims e = absurd (ground arith)
  validate_any-Signs token (public_key ∷ keys) providers last claims e =
      elim (Answer-cases (validate_jwt J token public_key providers)) [
        | inl (found, well) ↦
            let same : found ≡ claims = ground arith in
            inl (validate_jwt-IsSignedBy token public_key providers claims (well ∙ ap ok same))
        | inr (inl (x, bad)) ↦ inr (validate_any-Signs token keys providers x claims (ground arith))
        | inr (inr bad) ↦ absurd (ground arith)
      ]

  -- A token that is verified is signed: it is a message of two parts with a signature behind it, the
  -- second part holds the claims, and the signature is good, as RS256, for one of the fetched keys.
  pub verified_token_signed :
      (token : Text) (providers : Option (List OidcProvider)) (keys : List Text)
      (claims : IdTokenClaims)
      → verify_oidc_token J token providers (some keys) ≡ ok claims
      → Any (Signs token claims) keys
  unfolding verify_oidc_token
  verified_token_signed token providers keys claims e =
      validate_any-Signs token keys providers public_keys_not_found claims e

-- The time at which a token expires, read differently.
abbrev pub with_exp : ℕ → IdTokenClaims → IdTokenClaims
with_exp exp c = record c { exp = exp }

abbrev pub map_option : {A B : Type 0} → (A → B) → Option A → Option B
map_option f none = none
map_option f (some a) = some (f a)

abbrev pub map_answer : {E A B : Type 0} → (A → B) → Answer E A → Answer E B
map_answer f (ok a) = ok (f a)
map_answer f (err e) = err e
map_answer f panicked = panicked

module _ (J : Jwt) (exp : ℕ) where
  -- A reader of tokens that puts another time in each.
  abbrev pub redated : Jwt
  redated = record J { claims = λ b. map_option (with_exp exp) (J.claims b) }

  decode-redated :
      (token : Text) (key : ℕ)
      → decode redated token key ≡ map_answer (λ p. (p.0, with_exp exp p.1)) (decode J token key)
  unfolding decode
  decode-redated token key = ground arith

  validate_jwt-redated :
      (token public_key : Text) (providers : Option (List OidcProvider))
      → validate_jwt redated token public_key providers
        ≡ map_answer (with_exp exp) (validate_jwt J token public_key providers)
  unfolding validate_jwt check_provider
  validate_jwt-redated token public_key providers =
      elim (Option-cases (J.from_rsa_pem public_key)) [
        | inl bad ↦ rw (validate_jwt, bad) refl
        | inr (key, from) ↦
            let same = decode-redated token key in
            (elim (Answer-cases (decode J token key)) [
              | inl ((alg, found), well) ↦ ground arith
              | inr (inl (x, bad)) ↦ ground arith
              | inr (inr bad) ↦ ground arith
            ])
      ]

  validate_any-redated :
      (token : Text) (keys : List Text) (providers : Option (List OidcProvider)) (last : OidcError)
      → validate_any redated token keys providers last
        ≡ map_answer (with_exp exp) (validate_any J token keys providers last)
  unfolding validate_any
  validate_any-redated token [] providers last = refl
  validate_any-redated token (public_key ∷ keys) providers last =
      let same = validate_jwt-redated token public_key providers in
      elim (Answer-cases (validate_jwt J token public_key providers)) [
        | inl (found, well) ↦ ground arith
        | inr (inl (x, bad)) ↦ ground (arith, validate_any-redated token keys providers x)
        | inr (inr bad) ↦ ground arith
      ]

  -- The bug: the time at which a token expires plays no part. Were each token read with another time,
  -- the same tokens would be verified, and otherwise the same claims.
  pub expiration_ignored :
      (token : Text) (providers : Option (List OidcProvider)) (fetched : Option (List Text))
      → verify_oidc_token redated token providers fetched
        ≡ map_answer (with_exp exp) (verify_oidc_token J token providers fetched)
  unfolding verify_oidc_token
  expiration_ignored token providers none = refl
  expiration_ignored token providers (some keys) =
      validate_any-redated token keys providers public_keys_not_found
