-- ===== src/Recovery/UserCredentials.antt =====
-- mpc-recovery/src/sign_node/user_credentials.rs: the encrypted key pair of a user.
use mpc_recovery.Prelude.{ℕ, List, [], ◌∷◌, Option}
use mpc_recovery.Recovery.Answer.{Answer, ok, ◌>>=◌, ok_or, unwrap}
use mpc_recovery.Recovery.EdDsa.{EdDsa}
use mpc_recovery.Recovery.Oauth.{Text}

-- The cipher, with its nonce, and JSON; `none` is an error.
pub record Cipher : Type 0 where
  pub encrypt : List ℕ → List ℕ → Option (List ℕ)
  pub decrypt : List ℕ → List ℕ → Option (List ℕ)
  pub to_vec : ℕ → Option (List ℕ)
  pub from_slice : List ℕ → Option ℕ

pub record EncryptedUserCredentials : Type 0 where
  pub node_id : ℕ
  pub internal_account_id : Text
  pub public_key : ℕ
  pub encrypted_key_pair : List ℕ

-- `[0u8; 12]`
abbrev nonce : List ℕ
nonce = 0 ∷ 0 ∷ 0 ∷ 0 ∷ 0 ∷ 0 ∷ 0 ∷ 0 ∷ 0 ∷ 0 ∷ 0 ∷ 0 ∷ []

-- `anyhow::Error`
pub data Other : Type 0 where
  other : Other

module _ (C : EdDsa) (A : Cipher) where
  -- `EncryptedUserCredentials::new`; `random` calls it with a new key pair.
  unfoldable pub new : ℕ → Text → ℕ → Answer Other EncryptedUserCredentials
  new node_id internal_account_id key_pair = do
    content ← ok_or other (A.to_vec key_pair)
    encrypted_key_pair ← unwrap (A.encrypt nonce content)
    ok (record {
      node_id = node_id;
      internal_account_id = internal_account_id;
      public_key = C.public_key key_pair;
      encrypted_key_pair = encrypted_key_pair;
    })

  unfoldable pub decrypt_key_pair : EncryptedUserCredentials → Answer Other ℕ
  decrypt_key_pair c = do
    content ← unwrap (A.decrypt nonce c.encrypted_key_pair)
    ok_or other (A.from_slice content)
