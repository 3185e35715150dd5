-- ===== src/Recovery/Tests.antt =====
-- Small libraries for the tests of mpc-recovery/src: keys sign by their own number.
mod Signing
mod Tokens
mod Nodes
mod Values
mod Leader
use mpc_recovery.Prelude.{ℕ, ◌+◌, ◌==◌, List, [], ◌∷◌, some, length, true}
use mpc_recovery.Recovery.EdDsa.{EdDsa}
use mpc_recovery.Recovery.AggregateSigner.{SignedCommitment, NodeInfo}
use mpc_recovery.Recovery.Oauth.{Text, IdTokenClaims, rs256, Jwt}

abbrev pub toy : EdDsa
toy = record {
  public_key = λ k. k + 100;
  create_ephemeral_key_and_commit = λ k message random. (
    record { r = random; big_r = random + 1 },
    random + 50,
    record { r = random + 1; blind_factor = random + 2 },
  );
  sign_single = λ message k. k;
  dalek_signature = λ s. some s;
  dalek_public_key = λ p. some p;
  verify = λ key message signature. key == signature + 100;
  to_vec = λ c p. some (c ∷ p ∷ []);
  y_coord = λ p. some p;
  create_commitment_with_user_defined_randomness = λ y blind. y + 49;
  get_r_tot = λ rs. length rs;
  key_aggregation_n = λ keys i. some (record { apk = 7; hash = 8 });
  partial_sign = λ r k hash r_tot apk message. r + r_tot;
}

-- The nodes with the keys 5 and 6; this node is the first.
abbrev pub info : NodeInfo
info = record { nodes_public_keys = some (105 ∷ 106 ∷ []); our_index = 0 }

abbrev pub claims : IdTokenClaims
claims = record { iss = 1 ∷ []; sub = 2 ∷ []; aud = 3 ∷ []; exp = 0 }

abbrev pub reader : Jwt
reader = record {
  from_rsa_pem = λ t. some 1;
  b64_decode = λ t. some t;
  header = λ b. some rs256;
  claims = λ b. some claims;
  verify = λ signature message key alg. some true;
}

-- Three parts with dots between them.
abbrev pub token : Text
token = 5 ∷ 46 ∷ 6 ∷ 46 ∷ 7 ∷ []

abbrev pub ours : SignedCommitment
ours = record {
  commitment = 60;
  signing_public_key = 103;
  signing_public_key_sig = 3;
  signature = 5;
}

abbrev pub theirs : SignedCommitment
theirs = record {
  commitment = 70;
  signing_public_key = 104;
  signing_public_key_sig = 4;
  signature = 6;
}
