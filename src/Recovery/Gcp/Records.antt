-- ===== src/Recovery/Gcp/Records.antt =====
-- mpc-recovery/src/sign_node/oidc.rs, pk_set.rs, user_credentials.rs: how the records of the sign node
-- become values of the datastore, and are read from them.
use mpc_recovery.Prelude.{ℕ, true, false, List, [], ◌∷◌, ◌++◌, Option, none, some}
use mpc_recovery.Recovery.Answer.{Answer, ok, err, ◌>>=◌, ok_or}
use mpc_recovery.Recovery.Oauth.{Text, eq_text}
use mpc_recovery.Recovery.SignNode.{OidcDigest}
use mpc_recovery.Recovery.UserCredentials.{EncryptedUserCredentials}
use mpc_recovery.Recovery.Gcp.{
  Key, Value, Properties, end, property, integer_value, string_value, entity_value,
}

pub data ConvertError : Type 0 where
  missing_property : Text → ConvertError
  unexpected_property_type : ConvertError
  malformed_property : Text → ConvertError

abbrev node_id : Text
node_id = 110 ∷ 111 ∷ 100 ∷ 101 ∷ 95 ∷ 105 ∷ 100 ∷ []

abbrev digest : Text
digest = 100 ∷ 105 ∷ 103 ∷ 101 ∷ 115 ∷ 116 ∷ []

abbrev public_key : Text
public_key = 112 ∷ 117 ∷ 98 ∷ 108 ∷ 105 ∷ 99 ∷ 95 ∷ 107 ∷ 101 ∷ 121 ∷ []

abbrev public_keys : Text
public_keys = 112 ∷ 117 ∷ 98 ∷ 108 ∷ 105 ∷ 99 ∷ 95 ∷ 107 ∷ 101 ∷ 121 ∷ 115 ∷ []

abbrev internal_account_id : Text
internal_account_id =
    105 ∷ 110 ∷ 116 ∷ 101 ∷ 114 ∷ 110 ∷ 97 ∷ 108 ∷ 95 ∷ 97 ∷ 99 ∷ 99 ∷ 111 ∷ 117 ∷ 110 ∷ 116 ∷ 95
    ∷ 105 ∷ 100 ∷ []

abbrev encrypted_key_pair : Text
encrypted_key_pair =
    101 ∷ 110 ∷ 99 ∷ 114 ∷ 121 ∷ 112 ∷ 116 ∷ 101 ∷ 100 ∷ 95 ∷ 107 ∷ 101 ∷ 121 ∷ 95 ∷ 112 ∷ 97 ∷ 105
    ∷ 114 ∷ []

-- `remove_entry`: the value under a name, and the other entries.
unfoldable pub remove_entry : Text → Properties → Option (Value × Properties)
unfolding eq_text
remove_entry name end = none
remove_entry name (property n v ps) = elim (eq_text n name) [
  | true ↦ some (v, ps)
  | false ↦ elim (remove_entry name ps) [
    | none ↦ none
    | some (w, rest) ↦ some (w, property n v rest)
  ]
]

abbrev pub Converted : Type 0 → Type 0
Converted T = Answer ConvertError T

unfoldable pub take : Text → Properties → Converted (Value × Properties)
unfolding remove_entry
take name ps = ok_or (missing_property name) (remove_entry name ps)

-- `i64::from_value`
unfoldable pub integer_from : Value → Converted ℕ
integer_from (integer_value n) = ok n
integer_from _ = err unexpected_property_type

-- `String::from_value`
unfoldable pub string_from : Value → Converted Text
string_from (string_value s) = ok s
string_from _ = err unexpected_property_type

-- The texts of numbers, of digests and of bytes in hexadecimal, and of texts, keys and key sets in
-- JSON.
pub record Texts : Type 0 where
  pub decimal : ℕ → Text
  pub hex : ℕ → Text
  pub from_hex : Text → Option ℕ
  pub key : ℕ → Text
  pub from_key : Text → Option ℕ
  pub bytes : List ℕ → Text
  pub from_bytes : Text → Option (List ℕ)
  pub quoted : Text → Text
  pub from_quoted : Text → Option Text
  pub key_set : List ℕ → Text
  pub from_key_set : Text → Option (List ℕ)

module _ (T : Texts) where
  abbrev pub keyed : Text → Text → Key
  keyed kind name = record {
    path = some (record { kind = some kind; name = some name; id = none } ∷ []);
    partition_id = none;
  }

  -- `OidcDigest::to_name`
  unfoldable pub to_name : OidcDigest → Text
  to_name d = T.decimal d.node_id ++ 47 ∷ T.hex d.digest

  -- `IntoValue for OidcDigest`; the number of the node as an `i64` has the same bits.
  unfoldable pub digest_into_value : OidcDigest → Value
  unfolding to_name
  digest_into_value d =
      entity_value (keyed (79 ∷ 105 ∷ 100 ∷ 99 ∷ 68 ∷ 105 ∷ 103 ∷ 101 ∷ 115 ∷ 116 ∷ []) (to_name d))
        (property node_id (integer_value d.node_id) (
          property digest (string_value (T.hex d.digest))
            (property public_key (string_value (T.key d.public_key)) end)))

  unfoldable pub digest_from_properties : Properties → Converted OidcDigest
  unfolding take integer_from string_from
  digest_from_properties ps = do
    (v, ps) ← take node_id ps
    n ← integer_from v
    (v, ps) ← take digest ps
    s ← string_from v
    d ← ok_or (malformed_property digest) (T.from_hex s)
    (v, ps) ← take public_key ps
    s ← string_from v
    k ← ok_or (malformed_property public_key) (T.from_key s)
    ok (record { node_id = n; digest = d; public_key = k })

  -- `FromValue for OidcDigest`
  unfoldable pub digest_from_value : Value → Converted OidcDigest
  unfolding digest_from_properties
  digest_from_value (entity_value key ps) = digest_from_properties ps
  digest_from_value _ = err unexpected_property_type

  -- `IntoValue for EncryptedUserCredentials`
  unfoldable pub credentials_into_value : EncryptedUserCredentials → Value
  credentials_into_value c =
      entity_value
        (keyed
          (69 ∷ 110 ∷ 99 ∷ 114 ∷ 121 ∷ 112 ∷ 116 ∷ 101 ∷ 100 ∷ 85 ∷ 115 ∷ 101 ∷ 114 ∷ 67 ∷ 114 ∷ 101
            ∷ 100 ∷ 101 ∷ 110 ∷ 116 ∷ 105 ∷ 97 ∷ 108 ∷ 115 ∷ [])
          (T.decimal c.node_id ++ 47 ∷ c.internal_account_id))
        (property node_id (integer_value c.node_id) (
          property internal_account_id (string_value c.internal_account_id) (
            property public_key (string_value (T.key c.public_key)) (
              property encrypted_key_pair (string_value (T.quoted (T.bytes c.encrypted_key_pair)))
                end))))

  unfoldable pub credentials_from_properties : Properties → Converted EncryptedUserCredentials
  unfolding take integer_from string_from
  credentials_from_properties ps = do
    (v, ps) ← take node_id ps
    n ← integer_from v
    (v, ps) ← take internal_account_id ps
    account ← string_from v
    (v, ps) ← take public_key ps
    s ← string_from v
    k ← ok_or (malformed_property public_key) (T.from_key s)
    (v, ps) ← take encrypted_key_pair ps
    s ← string_from v
    text ← ok_or (malformed_property encrypted_key_pair) (T.from_quoted s)
    pair ← ok_or (malformed_property encrypted_key_pair) (T.from_bytes text)
    ok (record {
      node_id = n;
      internal_account_id = account;
      public_key = k;
      encrypted_key_pair = pair;
    })

  -- `FromValue for EncryptedUserCredentials`
  unfoldable pub credentials_from_value : Value → Converted EncryptedUserCredentials
  unfolding credentials_from_properties
  credentials_from_value (entity_value key ps) = credentials_from_properties ps
  credentials_from_value _ = err unexpected_property_type

  -- `IntoValue for SignerNodePkSet`, of the node's number and the keys.
  unfoldable pub pk_set_into_value : ℕ → List ℕ → Value
  pk_set_into_value n keys =
      entity_value
        (keyed
          (83 ∷ 105 ∷ 103 ∷ 110 ∷ 101 ∷ 114 ∷ 78 ∷ 111 ∷ 100 ∷ 101 ∷ 80 ∷ 107 ∷ 83 ∷ 101 ∷ 116 ∷ [])
          (T.decimal n ++ 47 ∷ 109 ∷ 97 ∷ 105 ∷ 110 ∷ []))
        (property node_id (integer_value n)
          (property public_keys (string_value (T.key_set keys)) end))

  unfoldable pub pk_set_from_properties : Properties → Converted (ℕ × List ℕ)
  unfolding take integer_from string_from
  pk_set_from_properties ps = do
    (v, ps) ← take node_id ps
    n ← integer_from v
    (v, ps) ← take public_keys ps
    s ← string_from v
    keys ← ok_or (malformed_property public_keys) (T.from_key_set s)
    ok (n, keys)

  -- `FromValue for SignerNodePkSet`
  unfoldable pub pk_set_from_value : Value → Converted (ℕ × List ℕ)
  unfolding pk_set_from_properties
  pk_set_from_value (entity_value key ps) = pk_set_from_properties ps
  pk_set_from_value _ = err unexpected_property_type
