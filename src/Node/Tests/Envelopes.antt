-- ===== src/Node/Tests/Envelopes.antt =====
-- A message from the participant 0 to a waiting node (node/src/protocol/message.rs).
use mpc_recovery.Prelude.{ℕ, ◌≡◌, refl, ◌+◌, ◌==◌, List, [], ◌∷◌, none, some, arith}
use mpc_recovery.Collections.Map
use mpc_recovery.Node.CaitSith.{ok}
use mpc_recovery.Node.State.{fetch_participant, waiting_for_consensus}
use mpc_recovery.Node.Hpke
use mpc_recovery.Node.Hpke.{Hpke, Ciphered, IsKeyPair}
use mpc_recovery.Node.SignedMessage.{
  SignedMessage, Sealing, IsReadable, IsSigner, encrypt, open_signed, decrypt, IsAuthentic,
  signed-decrypt-encrypt, decrypt-IsAuthentic,
}
use mpc_recovery.Node.Tests.{counts, info}
use mpc_recovery.Node.Tests.Phases.{waiting}

-- The context is the sum of the two keys, and stands before the text.
abbrev sums : Hpke
sums = record {
  setup_sender = λ pk what random. some (random, random + pk);
  setup_receiver = λ sk key what. some (key + sk);
  seal_in_place_detached = λ ctx msg associated. some (ctx ∷ msg, ctx);
  open_in_place_detached = λ ctx text associated tag. elim text [ [] ↦ none | c ∷ msg ↦ some msg ];
}

sums-receives :
    (what : List ℕ) (random key sender : ℕ)
    → sums.setup_sender 4 what random ≡ some (key, sender)
    → (receiver : ℕ) × (sums.setup_receiver 4 key what ≡ some receiver)
      × ((msg associated text : List ℕ) (tag : ℕ)
          → sums.seal_in_place_detached sender msg associated ≡ some (text, tag)
          → sums.open_in_place_detached receiver text associated tag ≡ some msg)
sums-receives what random key sender e = (key + 4, refl, opens)
  where
    opens :
        (msg associated text : List ℕ) (tag : ℕ)
        → sums.seal_in_place_detached sender msg associated ≡ some (text, tag)
        → sums.open_in_place_detached (key + 4) text associated tag ≡ some msg
    opens msg associated [] tag h = absurd (ground arith)
    opens msg associated (c ∷ text) tag h = ground arith

abbrev keys : IsKeyPair sums 4 4
keys = record { receives = sums-receives }

-- Messages are numbers, and a signature is the key.
abbrev sealing : Sealing ℕ
sealing = record {
  hpke = sums;
  to_vec = λ t. some (t ∷ []);
  from_slice = λ bytes. elim bytes [ [] ↦ none | t ∷ rest ↦ some t ];
  signed_to_vec = λ m. some (m.from ∷ m.sig ∷ m.msg);
  signed_from_slice = λ bytes. elim bytes [
    | [] ↦ none
    | from ∷ rest ↦ (elim rest [
      | [] ↦ none
      | sig ∷ msg ↦ some (record { msg = msg; sig = sig; from = from })
    ])
  ];
  sign = λ sk bytes. sk;
  verify = λ sig bytes pk. sig == pk;
}

reads : (t : ℕ) (bytes : List ℕ) → sealing.to_vec t ≡ some bytes → sealing.from_slice bytes ≡ some t
reads t [] e = absurd (ground arith)
reads t (x ∷ bytes) e = ground arith

reads_signed :
    (m : SignedMessage) (bytes : List ℕ)
    → sealing.signed_to_vec m ≡ some bytes
    → sealing.signed_from_slice bytes ≡ some m
reads_signed m [] e = absurd (ground arith)
reads_signed m (x ∷ []) e = absurd (ground arith)
reads_signed m (x ∷ y ∷ bytes) e = ground arith

abbrev sealing-IsReadable : IsReadable sealing
sealing-IsReadable = record { reads = reads; reads_signed = reads_signed }

signer : IsSigner sealing 31 31
signer bytes = refl

abbrev sealed : Ciphered
sealed = record { encapped_key = 9; text = 13 ∷ 0 ∷ 31 ∷ 77 ∷ []; tag = 13 }

is_known : fetch_participant counts 0 (waiting_for_consensus waiting) ≡ some (info 0 1)
unfolding fetch_participant Map.get
is_known = refl

seals : encrypt counts sealing 77 0 31 4 9 ≡ ok sealed
unfolding encrypt Hpke.encrypt
seals = refl

opens : decrypt counts sealing 4 (waiting_for_consensus waiting) sealed ≡ ok 77
unfolding decrypt Hpke.decrypt open_signed fetch_participant Map.get
opens = refl

signed-decrypt-encrypt_example :
    decrypt counts sealing 4 (waiting_for_consensus waiting) sealed ≡ ok 77
signed-decrypt-encrypt_example =
    signed-decrypt-encrypt counts sealing 77 0 31 4 4 9 (waiting_for_consensus waiting) (info 0 1)
      sealed sealing-IsReadable keys signer is_known seals

decrypt-IsAuthentic_example : IsAuthentic counts sealing 4 (waiting_for_consensus waiting) sealed 77
decrypt-IsAuthentic_example =
    decrypt-IsAuthentic counts sealing 4 (waiting_for_consensus waiting) sealed 77 opens
