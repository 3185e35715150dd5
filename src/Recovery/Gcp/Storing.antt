-- ===== src/Recovery/Gcp/Storing.antt =====
-- What is stored is read back (mpc-recovery/src/gcp and sign_node/{oidc,pk_set,user_credentials}.rs).
use mpc_recovery.Prelude.{ℕ, ◌≡◌, refl, List, Option, none, some}
use mpc_recovery.Recovery.Answer.{ok}
use mpc_recovery.Recovery.Oauth.{Text, eq_text}
use mpc_recovery.Recovery.SignNode.{OidcDigest}
use mpc_recovery.Recovery.UserCredentials.{EncryptedUserCredentials}
use mpc_recovery.Recovery.Gcp.{Value, to_entity, entity_into_value, map_field}
use mpc_recovery.Recovery.Gcp.Records.{
  Texts, Converted, take, remove_entry, integer_from, string_from, digest_into_value,
  digest_from_value, digest_from_properties, credentials_into_value, credentials_from_value,
  credentials_from_properties, pk_set_into_value, pk_set_from_value, pk_set_from_properties,
}

module _ (T : Texts) where
  -- The texts are read back as they were written.
  pub record IsReadable : Type 0 where
    pub hex : (d : ℕ) → T.from_hex (T.hex d) ≡ some d
    pub key : (k : ℕ) → T.from_key (T.key k) ≡ some k
    pub bytes : (b : List ℕ) → T.from_bytes (T.bytes b) ≡ some b
    pub quoted : (t : Text) → T.from_quoted (T.quoted t) ≡ some t
    pub key_set : (keys : List ℕ) → T.from_key_set (T.key_set keys) ≡ some keys

  -- What is read of an entity that a value has become, if it has.
  abbrev pub read_back : {R : Type 0} → (Value → Converted R) → Value → Option (Converted R)
  read_back from v = elim (to_entity v) [
    | none ↦ none
    | some entity ↦ map_field from (entity_into_value entity)
  ]

  -- Each record of the sign node is read from the entity as which it is stored.
  pub stored_records_come_back :
      (d : OidcDigest) (c : EncryptedUserCredentials) (n : ℕ) (keys : List ℕ)
      → IsReadable
      → (read_back (digest_from_value T) (digest_into_value T d) ≡ some (ok d))
        × (read_back (credentials_from_value T) (credentials_into_value T c) ≡ some (ok c))
        × (read_back (pk_set_from_value T) (pk_set_into_value T n keys) ≡ some (ok (n, keys)))
  unfolding to_entity entity_into_value digest_into_value digest_from_value digest_from_properties
      credentials_into_value credentials_from_value credentials_from_properties pk_set_into_value
      pk_set_from_value pk_set_from_properties take remove_entry integer_from string_from eq_text
  stored_records_come_back d c n keys h = (
    rw (h.hex d.digest, h.key d.public_key) refl,
    rw (h.key c.public_key, h.quoted (T.bytes c.encrypted_key_pair), h.bytes c.encrypted_key_pair)
        refl,
    rw (h.key_set keys) refl,
  )
