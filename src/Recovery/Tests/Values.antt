-- ===== src/Recovery/Tests/Values.antt =====
-- Values and records of the datastore (mpc-recovery/src/gcp).
use mpc_recovery.Prelude.{ℕ, ◌≡◌, refl, true, [], ◌∷◌, Option, none, some}
use mpc_recovery.Recovery.Answer.{ok}
use mpc_recovery.Recovery.Oauth.{Text}
use mpc_recovery.Recovery.SignNode.{OidcDigest}
use mpc_recovery.Recovery.UserCredentials.{EncryptedUserCredentials}
use mpc_recovery.Recovery.Gcp.{
  Value, Values, Properties, boolean_value, array_value, entity_value, default_key, from_api,
  to_api,
}
use mpc_recovery.Recovery.Gcp.RoundTrip.{value_comes_back}
use mpc_recovery.Recovery.Gcp.Records.{
  Texts, digest_into_value, digest_from_value, credentials_into_value, credentials_from_value,
  pk_set_into_value, pk_set_from_value,
}
use mpc_recovery.Recovery.Gcp.Storing.{read_back, stored_records_come_back}

abbrev a_value : Value
a_value = entity_value default_key (
    Properties.property (7 ∷ []) (array_value (Values.cons (boolean_value true) Values.nil))
      Properties.end)

value_comes_back_example : from_api (to_api a_value) ≡ some a_value
value_comes_back_example = value_comes_back a_value

abbrev head : Text → Option ℕ
head [] = none
head (n ∷ _) = some n

abbrev unquote : Text → Option Text
unquote [] = none
unquote (_ ∷ t) = some t

abbrev texts : Texts
texts = record {
  decimal = λ n. n ∷ [];
  hex = λ n. n ∷ [];
  from_hex = head;
  key = λ n. n ∷ [];
  from_key = head;
  bytes = λ b. b;
  from_bytes = λ t. some t;
  quoted = λ t. 34 ∷ t;
  from_quoted = unquote;
  key_set = λ keys. keys;
  from_key_set = λ t. some t;
}

abbrev a_digest : OidcDigest
a_digest = record { node_id = 0; digest = 1; public_key = 40 }

abbrev some_credentials : EncryptedUserCredentials
some_credentials = record {
  node_id = 0;
  internal_account_id = 1 ∷ 58 ∷ 2 ∷ [];
  public_key = 103;
  encrypted_key_pair = 3 ∷ [];
}

stored_records_come_back_example :
    (read_back texts (digest_from_value texts) (digest_into_value texts a_digest)
      ≡ some (ok a_digest))
    × (read_back texts
          (credentials_from_value texts)
          (credentials_into_value texts some_credentials)
        ≡ some (ok some_credentials))
    × (read_back texts (pk_set_from_value texts) (pk_set_into_value texts 0 (105 ∷ 106 ∷ []))
        ≡ some (ok (0, 105 ∷ 106 ∷ [])))
stored_records_come_back_example =
    stored_records_come_back texts a_digest some_credentials 0 (105 ∷ 106 ∷ []) (record {
      hex = λ d. refl;
      key = λ k. refl;
      bytes = λ b. refl;
      quoted = λ t. refl;
      key_set = λ keys. refl;
    })
