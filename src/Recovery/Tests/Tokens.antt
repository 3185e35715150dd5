-- ===== src/Recovery/Tests/Tokens.antt =====
-- A token with three parts (mpc-recovery/src/oauth.rs).
use mpc_recovery.Prelude.{◌≡◌, refl, [], ◌∷◌, none, some, Any}
use mpc_recovery.Recovery.Answer.{ok}
use mpc_recovery.Recovery.Oauth.{
  verify_oidc_token, validate_any, validate_jwt, decode, rsplit, check_provider,
}
use mpc_recovery.Recovery.Oauth.Validity.{
  Signs, verified_token_signed, with_exp, map_answer, redated, expiration_ignored,
}
use mpc_recovery.Recovery.Tests.{reader, token, claims}

is_verified : verify_oidc_token reader token none (some ((8 ∷ []) ∷ [])) ≡ ok claims
unfolding verify_oidc_token validate_any validate_jwt decode rsplit check_provider
is_verified = refl

verified_token_signed_example : Any (Signs reader token claims) ((8 ∷ []) ∷ [])
verified_token_signed_example =
    verified_token_signed reader token none ((8 ∷ []) ∷ []) claims is_verified

expiration_ignored_example :
    verify_oidc_token (redated reader 99) token none (some ((8 ∷ []) ∷ []))
    ≡ map_answer (with_exp 99) (verify_oidc_token reader token none (some ((8 ∷ []) ∷ [])))
expiration_ignored_example = expiration_ignored reader 99 token none (some ((8 ∷ []) ∷ []))
