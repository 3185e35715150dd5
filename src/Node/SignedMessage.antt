-- ===== src/Node/SignedMessage.antt =====
-- node/src/protocol/message.rs: `SignedMessage`, in which every message travels between the nodes.
use mpc_recovery.Prelude.{
  ℕ, ◌≡◌, Bool, true, List, [], Option, none, some, arith, Option-cases, inl, inr, if◌then◌else◌,
}
use mpc_recovery.Node.CaitSith.{CaitSith, Result, ok, err}
use mpc_recovery.Node.Participants.{Participant, ParticipantInfo}
use mpc_recovery.Node.State.{NodeState, fetch_participant}
use mpc_recovery.Node.Hpke
use mpc_recovery.Node.Hpke.{Hpke, Ciphered, IsKeyPair, decrypt-encrypt}
use mpc_recovery.Node.Cryptography.{
  CryptographicError, unknown_participant, data_conversion, encryption,
}

-- `SignedMessage<Vec<u8>>`
pub record SignedMessage : Type 0 where
  pub msg : List ℕ
  pub sig : ℕ
  pub from : Participant

-- The libraries: JSON for the messages and for signed messages, and signatures; `none` is an error.
pub record Sealing (T : Type 0) : Type 0 where
  pub hpke : Hpke
  pub to_vec : T → Option (List ℕ)
  pub from_slice : List ℕ → Option T
  pub signed_to_vec : SignedMessage → Option (List ℕ)
  pub signed_from_slice : List ℕ → Option SignedMessage
  -- secret key, message
  pub sign : ℕ → List ℕ → ℕ
  -- signature, message, public key
  pub verify : ℕ → List ℕ → ℕ → Bool

-- What the libraries document: a text is read as what was written, and a signature is good for the
-- public key of the key that made it.
pub record IsReadable {T : Type 0} (S : Sealing T) : Type 0 where
  pub reads : (t : T) (bytes : List ℕ) → S.to_vec t ≡ some bytes → S.from_slice bytes ≡ some t
  pub reads_signed :
      (m : SignedMessage) (bytes : List ℕ)
      → S.signed_to_vec m ≡ some bytes
      → S.signed_from_slice bytes ≡ some m

abbrev pub IsSigner : {T : Type 0} → Sealing T → ℕ → ℕ → Type 0
IsSigner S sk pk = (bytes : List ℕ) → S.verify (S.sign sk bytes) bytes pk ≡ true

module _ (C : CaitSith) {T : Type 0} (S : Sealing T) where
  -- `SignedMessage::encrypt`
  unfoldable pub encrypt : T → Participant → ℕ → ℕ → ℕ → Result (CryptographicError C) Ciphered
  unfolding Hpke.encrypt
  encrypt msg from sign_sk cipher_pk random = elim (S.to_vec msg) [
    | none ↦ err data_conversion
    | some bytes ↦
        (elim (S.signed_to_vec (record { msg = bytes; sig = S.sign sign_sk bytes; from = from })) [
          | none ↦ err data_conversion
          | some signed ↦ (elim (Hpke.encrypt S.hpke cipher_pk signed [] random) [
            | none ↦ err encryption
            | some ciphered ↦ ok ciphered
          ])
        ])
  ]

  -- The message, once its signature is verified.
  unfoldable pub open_signed : NodeState C → SignedMessage → Result (CryptographicError C) T
  unfolding fetch_participant
  open_signed n m = elim (fetch_participant C m.from n) [
    | none ↦ err (unknown_participant m.from)
    | some info ↦
        if S.verify m.sig m.msg info.sign_pk
        then (elim (S.from_slice m.msg) [ none ↦ err data_conversion | some t ↦ ok t ])
        else err encryption
  ]

  -- `SignedMessage::decrypt`
  unfoldable pub decrypt : ℕ → NodeState C → Ciphered → Result (CryptographicError C) T
  unfolding Hpke.decrypt open_signed
  decrypt cipher_sk n encrypted = elim (Hpke.decrypt S.hpke cipher_sk encrypted []) [
    | none ↦ err encryption
    | some message ↦ (elim (S.signed_from_slice message) [
      | none ↦ err data_conversion
      | some m ↦ open_signed n m
    ])
  ]

  -- A message that is encrypted to a node arrives there as it was, in whatever phase the node is, if it
  -- knows the sender with the public key of the key that has signed. What the message itself says of
  -- its sender plays no part.
  pub signed-decrypt-encrypt :
      (msg : T) (from : Participant) (sign_sk cipher_sk cipher_pk random : ℕ) (n : NodeState C)
      (info : ParticipantInfo) (ciphered : Ciphered)
      → IsReadable S
      → IsKeyPair S.hpke cipher_sk cipher_pk
      → IsSigner S sign_sk info.sign_pk
      → fetch_participant C from n ≡ some info
      → encrypt msg from sign_sk cipher_pk random ≡ ok ciphered
      → decrypt cipher_sk n ciphered ≡ ok msg
  unfolding encrypt decrypt open_signed
  signed-decrypt-encrypt msg from sign_sk cipher_sk cipher_pk random n info ciphered reads keys
        signer known e =
      elim (Option-cases (S.to_vec msg)) [
        | inl failure ↦ absurd (ground arith)
        | inr (bytes, written) ↦
            let m : SignedMessage = record {
              msg = bytes;
              sig = S.sign sign_sk bytes;
              from = from;
            } in
            (elim (Option-cases (S.signed_to_vec m)) [
              | inl failure ↦ absurd (ground arith)
              | inr (signed, signed_written) ↦
                  (elim (Option-cases (Hpke.encrypt S.hpke cipher_pk signed [] random)) [
                    | inl failure ↦ absurd (ground arith)
                    | inr (c, sealed) ↦
                        let same : c ≡ ciphered = ground arith in
                        ground (
                          arith,
                          decrypt-encrypt S.hpke cipher_sk cipher_pk signed [] random c keys sealed,
                          reads.reads_signed m signed signed_written,
                          reads.reads msg bytes written,
                          signer bytes,
                        )
                  ])
            ])
      ]

  -- Who stands behind a message that is decrypted.
  pub record IsAuthentic (cipher_sk : ℕ) (n : NodeState C) (encrypted : Ciphered) (t : T)
      : Type 0 where
    pub bytes : List ℕ
    pub envelope : SignedMessage
    pub info : ParticipantInfo
    pub opened : Hpke.decrypt S.hpke cipher_sk encrypted [] ≡ some bytes
    pub read : S.signed_from_slice bytes ≡ some envelope
    pub known : fetch_participant C envelope.from n ≡ some info
    pub signed : S.verify envelope.sig envelope.msg info.sign_pk ≡ true
    pub message : S.from_slice envelope.msg ≡ some t

  -- A message that is decrypted comes from a participant whom the node knows in its phase: the
  -- signature around it is good for the public key of that participant.
  pub decrypt-IsAuthentic :
      (cipher_sk : ℕ) (n : NodeState C) (encrypted : Ciphered) (t : T)
      → decrypt cipher_sk n encrypted ≡ ok t
      → IsAuthentic cipher_sk n encrypted t
  unfolding decrypt open_signed
  decrypt-IsAuthentic cipher_sk n encrypted t e =
      elim (Option-cases (Hpke.decrypt S.hpke cipher_sk encrypted [])) [
        | inl failure ↦ absurd (ground arith)
        | inr (bytes, opened) ↦ elim (Option-cases (S.signed_from_slice bytes)) [
          | inl failure ↦ absurd (ground arith)
          | inr (m, read) ↦ (elim (Option-cases (fetch_participant C m.from n)) [
            | inl failure ↦ absurd (ground arith)
            | inr (info, known) ↦ record {
              bytes = bytes;
              envelope = m;
              info = info;
              opened = opened;
              read = read;
              known = known;
              signed = ground arith;
              message = elim (Option-cases (S.from_slice m.msg)) [
                | inl failure ↦ absurd (ground arith)
                | inr (found, parsed) ↦ ground arith
              ];
            }
          ])
        ]
      ]
