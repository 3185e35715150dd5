-- ===== src/Recovery/Oauth.antt =====
-- mpc-recovery/src/oauth.rs: whether an OIDC token is valid; mpc-recovery/src/sign_node/oidc.rs: how it
-- is decoded; mpc-recovery/src/firewall/allowed.rs: the list of providers.
pub mod Validity
use mpc_recovery.Prelude.{
  ℕ, ◌≡◌, refl, arith, Bool, true, false, ◌&&◌, ◌||◌, not, List, [], ◌∷◌, ◌++◌, Option, none, some,
  ◌==◌, if◌then◌else◌,
}
use mpc_recovery.Recovery.Answer.{Answer, ok, err, panicked, ◌>>=◌, ok_or, check}

-- A string, as its characters.
abbrev pub Text : Type 0
Text = List ℕ

unfoldable pub eq_text : Text → Text → Bool
eq_text [] [] = true
eq_text (a ∷ s) (b ∷ t) = let rest = eq_text s t in (a == b) && rest
eq_text _ _ = false

pub eq_text_sound : (s t : Text) → eq_text s t ≡ true → s ≡ t
unfolding eq_text
eq_text_sound [] [] h = refl
eq_text_sound [] (_ ∷ _) h = ground arith
eq_text_sound (_ ∷ _) [] h = ground arith
eq_text_sound (a ∷ s) (b ∷ t) h = ground (arith, eq_text_sound s t)

pub eq_text_same : (s : Text) → eq_text s s ≡ true
unfolding eq_text
eq_text_same [] = refl
eq_text_same (a ∷ s) = ground (arith, eq_text_same s)

pub record IdTokenClaims : Type 0 where
  pub iss : Text
  pub sub : Text
  pub aud : Text
  pub exp : ℕ

-- `format!("{}:{}", self.iss, self.sub)`
unfoldable pub get_internal_account_id : IdTokenClaims → Text
get_internal_account_id c = c.iss ++ 58 ∷ c.sub

pub data Algorithm : Type 0 where
  rs256 : Algorithm
  other : ℕ → Algorithm

pub data OidcError : Type 0 where
  public_keys_unavailable : OidcError
  public_keys_not_found : OidcError
  invalid_decoding_key : OidcError
  could_not_split : OidcError
  undecodable : OidcError
  invalid_signature : OidcError
  unauthorized_token_issuer_or_audience : OidcError
  invalid_algorithm : OidcError

-- The libraries for JSON web tokens and their encoding; `none` is an error.
pub record Jwt : Type 0 where
  pub from_rsa_pem : Text → Option ℕ
  pub b64_decode : Text → Option (List ℕ)
  pub header : List ℕ → Option Algorithm
  pub claims : List ℕ → Option IdTokenClaims
  -- signature, message, key, algorithm
  pub verify : Text → Text → ℕ → Algorithm → Option Bool

pub record OidcProvider : Type 0 where
  pub issuer : Text
  pub audience : Text

-- `OidcProviderList::contains`
unfoldable pub contains : Text → Text → List OidcProvider → Bool
unfolding eq_text
contains issuer audience [] = false
contains issuer audience (p ∷ providers) =
    let rest = contains issuer audience providers in
    (eq_text p.issuer issuer && eq_text p.audience audience) || rest

-- `rsplitn(2, '.')`: what is before the last dot, and what is behind it.
unfoldable pub rsplit : Text → Option (Text × Text)
rsplit [] = none
rsplit (c ∷ s) = elim (rsplit s) [
  | some (before, behind) ↦ some (c ∷ before, behind)
  | none ↦ if c == 46 then some ([], s) else none
]

abbrev pub Verified : Type 0 → Type 0
Verified T = Answer OidcError T

module _ (J : Jwt) where
  -- `OidcToken::decode`
  unfoldable pub decode : Text → ℕ → Verified (Algorithm × IdTokenClaims)
  unfolding rsplit
  decode token key = do
    (message, signature) ← ok_or could_not_split (rsplit token)
    (header, payload) ← ok_or could_not_split (rsplit message)
    header_bytes ← ok_or undecodable (J.b64_decode header)
    alg ← ok_or undecodable (J.header header_bytes)
    payload_bytes ← ok_or undecodable (J.b64_decode payload)
    claims ← ok_or undecodable (J.claims payload_bytes)
    good ← ok_or undecodable (J.verify signature message key alg)
    _ ← check invalid_signature good
    ok (alg, claims)

  unfoldable pub check_provider : Option (List OidcProvider) → IdTokenClaims → Verified (Unit {0})
  unfolding contains
  check_provider none claims = ok tt
  check_provider (some providers) claims =
      check unauthorized_token_issuer_or_audience (contains claims.iss claims.aud providers)

  abbrev pub check_algorithm : Algorithm → Verified (Unit {0})
  check_algorithm rs256 = ok tt
  check_algorithm (other n) = err invalid_algorithm

  unfoldable pub validate_jwt : Text → Text → Option (List OidcProvider) → Verified IdTokenClaims
  unfolding decode check_provider
  validate_jwt token public_key providers = do
    key ← ok_or invalid_decoding_key (J.from_rsa_pem public_key)
    (alg, claims) ← decode token key
    _ ← check_provider providers claims
    _ ← check_algorithm alg
    ok claims

  -- The loop over the public keys: the first that validates the token, or the last error.
  unfoldable pub validate_any :
      Text → List Text → Option (List OidcProvider) → OidcError → Verified IdTokenClaims
  unfolding validate_jwt
  validate_any token [] providers last = err last
  validate_any token (public_key ∷ keys) providers last =
      elim (validate_jwt token public_key providers) [
        | ok claims ↦ ok claims
        | err e ↦ validate_any token keys providers e
        | panicked ↦ panicked
      ]

  -- `verify_oidc_token`, with the public keys that are fetched, if they are.
  unfoldable pub verify_oidc_token :
      Text → Option (List OidcProvider) → Option (List Text) → Verified IdTokenClaims
  unfolding validate_any
  verify_oidc_token token providers fetched = do
    keys ← ok_or public_keys_unavailable fetched
    validate_any token keys providers public_keys_not_found
