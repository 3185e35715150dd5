-- ===== src/Node/Hpke.antt =====
-- keys/src/hpke.rs: the encryption of messages to a node, over the library hpke.
use mpc_recovery.Prelude.{ℕ, List, [], ◌∷◌, Option, none, some, ◌≡◌, arith, Option-cases, inl, inr}

pub record Ciphered : Type 0 where
  pub encapped_key : ℕ
  pub text : List ℕ
  pub tag : ℕ

-- The library, whose contexts and keys stand as numbers; `none` is an error. The sender's side is
-- given what the random generator yields.
pub record Hpke : Type 0 where
  pub setup_sender : ℕ → List ℕ → ℕ → Option (ℕ × ℕ)
  pub setup_receiver : ℕ → ℕ → List ℕ → Option ℕ
  pub seal_in_place_detached : ℕ → List ℕ → List ℕ → Option (List ℕ × ℕ)
  pub open_in_place_detached : ℕ → List ℕ → List ℕ → ℕ → Option (List ℕ)

-- `INFO_ENTROPY`
abbrev info_entropy : List ℕ
info_entropy = 109 ∷ 112 ∷ 99 ∷ 45 ∷ 107 ∷ 101 ∷ 121 ∷ 45 ∷ 118 ∷ 49 ∷ []

-- What the library documents of a key pair: the receiver gets to a context, and opens what was sealed
-- in the sender's with the same associated data.
pub record IsKeyPair (H : Hpke) (sk pk : ℕ) : Type 0 where
  pub receives :
      (info : List ℕ) (random key sender : ℕ)
      → H.setup_sender pk info random ≡ some (key, sender)
      → (receiver : ℕ) × (H.setup_receiver sk key info ≡ some receiver)
        × ((msg associated text : List ℕ) (tag : ℕ)
            → H.seal_in_place_detached sender msg associated ≡ some (text, tag)
            → H.open_in_place_detached receiver text associated tag ≡ some msg)

module _ (H : Hpke) where
  -- `PublicKey::encrypt`
  unfoldable pub encrypt : ℕ → List ℕ → List ℕ → ℕ → Option Ciphered
  encrypt pk msg associated_data random = elim (H.setup_sender pk info_entropy random) [
    | none ↦ none
    | some (encapped_key, sender_ctx) ↦
        (elim (H.seal_in_place_detached sender_ctx msg associated_data) [
          | none ↦ none
          | some (ciphertext, tag) ↦
              some (record { encapped_key = encapped_key; text = ciphertext; tag = tag })
        ])
  ]

  -- `SecretKey::decrypt`
  unfoldable pub decrypt : ℕ → Ciphered → List ℕ → Option (List ℕ)
  decrypt sk cipher associated_data = elim (H.setup_receiver sk cipher.encapped_key info_entropy) [
    | none ↦ none
    | some receiver_ctx ↦
        H.open_in_place_detached receiver_ctx cipher.text associated_data cipher.tag
  ]

  pub decrypt-encrypt :
      (sk pk : ℕ) (msg associated_data : List ℕ) (random : ℕ) (cipher : Ciphered)
      → IsKeyPair H sk pk
      → encrypt pk msg associated_data random ≡ some cipher
      → decrypt sk cipher associated_data ≡ some msg
  unfolding encrypt decrypt
  decrypt-encrypt sk pk msg associated_data random cipher keys e =
      elim (Option-cases (H.setup_sender pk info_entropy random)) [
        | inl failure ↦ absurd (ground arith)
        | inr ((key, sender), begun) ↦
            let (receiver, ready, opens) = keys.receives info_entropy random key sender begun in
            (elim (Option-cases (H.seal_in_place_detached sender msg associated_data)) [
              | inl failure ↦ absurd (ground arith)
              | inr ((text, tag), sealed) ↦
                  ground (arith, ready, opens msg associated_data text tag sealed)
            ])
      ]
