-- ===== src/Node/Indexer.antt =====
-- node/src/indexer.rs: the calls of `sign` in a block become requests; node/src/kdf.rs: the numbers by
-- which a key and a signature are tweaked for a request.
use mpc_recovery.Prelude.{
  ℕ, Bool, true, false, ◌==◌, List, [], ◌∷◌, ◌++◌, Option, none, some, if◌then◌else◌,
}
use mpc_recovery.Node.Participants.{AccountId}
use mpc_recovery.Node.CaitSith.{CaitSith}
use mpc_recovery.Node.SignQueue
use mpc_recovery.Node.SignQueue.{SignQueue, SignRequest}

abbrev epsilon_derivation_prefix : List ℕ
epsilon_derivation_prefix =
    110 ∷ 101 ∷ 97 ∷ 114 ∷ 45 ∷ 109 ∷ 112 ∷ 99 ∷ 45 ∷ 114 ∷ 101 ∷ 99 ∷ 111 ∷ 118 ∷ 101 ∷ 114 ∷ 121
    ∷ 32 ∷ 118 ∷ 48 ∷ 46 ∷ 49 ∷ 46 ∷ 48 ∷ 32 ∷ 101 ∷ 112 ∷ 115 ∷ 105 ∷ 108 ∷ 111 ∷ 110 ∷ 32 ∷ 100
    ∷ 101 ∷ 114 ∷ 105 ∷ 118 ∷ 97 ∷ 116 ∷ 105 ∷ 111 ∷ 110 ∷ 58 ∷ []

abbrev delta_derivation_prefix : List ℕ
delta_derivation_prefix =
    110 ∷ 101 ∷ 97 ∷ 114 ∷ 45 ∷ 109 ∷ 112 ∷ 99 ∷ 45 ∷ 114 ∷ 101 ∷ 99 ∷ 111 ∷ 118 ∷ 101 ∷ 114 ∷ 121
    ∷ 32 ∷ 118 ∷ 48 ∷ 46 ∷ 49 ∷ 46 ∷ 48 ∷ 32 ∷ 100 ∷ 101 ∷ 108 ∷ 116 ∷ 97 ∷ 32 ∷ 100 ∷ 101 ∷ 114
    ∷ 105 ∷ 118 ∷ 97 ∷ 116 ∷ 105 ∷ 111 ∷ 110 ∷ 58 ∷ []

-- The libraries: how account ids and hashes are written, the hash function, the key derivation
-- function, from an entropy and an info, and the parsing of a payload with its path and of an entropy.
pub record Derivation : Type 0 where
  pub account_name : AccountId → List ℕ
  pub hash_name : ℕ → List ℕ
  pub sha256 : List ℕ → ℕ
  pub hkdf : ℕ → List ℕ → ℕ
  pub sign_payload : List ℕ → Option (ℕ × List ℕ)
  pub entropy : List ℕ → Option ℕ

-- An action of a block: its function call, if it is one, as whether the method is `sign`, and the
-- arguments.
pub record BlockAction : Type 0 where
  pub receiver_id : AccountId
  pub predecessor_id : AccountId
  pub receipt_id : ℕ
  pub function_call : Option (Bool × List ℕ)

-- A receipt: the id of `SuccessReceiptId`, if that is its status.
pub record Receipt : Type 0 where
  pub success : Option ℕ
  pub logs : List (List ℕ)

module _ (C : CaitSith) (D : Derivation) where
  unfoldable pub derivation_path : AccountId → List ℕ → List ℕ
  derivation_path signer_id path =
      epsilon_derivation_prefix ++ D.account_name signer_id ++ 44 ∷ path

  unfoldable pub derive_epsilon : AccountId → List ℕ → C.Scalar
  unfolding derivation_path
  derive_epsilon signer_id path = C.scalar_of_bytes (D.sha256 (derivation_path signer_id path))

  unfoldable pub derive_delta : ℕ → ℕ → C.Scalar
  derive_delta receipt_id entropy =
      C.scalar_of_bytes (D.hkdf entropy (delta_derivation_prefix ++ 58 ∷ D.hash_name receipt_id))

  -- The request of a call of `sign` with these arguments; `none` where nothing is filed.
  unfoldable pub request_of : BlockAction → ℕ → List (List ℕ) → List ℕ → Option (SignRequest C)
  unfolding derive_epsilon derive_delta
  request_of action receipt_id [] args = none
  request_of action receipt_id (log ∷ logs) args = elim (D.sign_payload args) [
    | none ↦ none
    | some (payload, path) ↦ (elim (D.entropy log) [
      | none ↦ none
      | some entropy ↦ some (record {
        receipt_id = receipt_id;
        msg_hash = payload;
        epsilon = derive_epsilon action.predecessor_id path;
        delta = derive_delta receipt_id entropy;
        entropy = entropy;
      })
    ])
  ]

  abbrev pub add_request : Option (SignRequest C) → SignQueue C → SignQueue C
  add_request none queue = queue
  add_request (some request) queue = SignQueue.add C request queue

  -- An action to the contract, with its receipt.
  unfoldable pub handle_receipt : BlockAction → Receipt → SignQueue C → SignQueue C
  unfolding request_of SignQueue.add
  handle_receipt action receipt queue = elim receipt.success [
    | none ↦ queue
    | some receipt_id ↦ (elim action.function_call [
      | none ↦ queue
      | some (is_sign, args) ↦
          if is_sign
          then add_request (request_of action receipt_id receipt.logs args) queue
          else queue
    ])
  ]

  -- `handle_block`; `none` is the panic on a receipt that the block does not have.
  unfoldable pub handle_block :
      AccountId → (ℕ → Option Receipt) → List BlockAction → SignQueue C → Option (SignQueue C)
  unfolding handle_receipt
  handle_block mpc_contract_id receipt_by_id [] queue = some queue
  handle_block mpc_contract_id receipt_by_id (action ∷ actions) queue =
      elim (action.receiver_id == mpc_contract_id) [
        | false ↦ handle_block mpc_contract_id receipt_by_id actions queue
        | true ↦ (elim (receipt_by_id action.receipt_id) [
          | none ↦ none
          | some receipt ↦
              handle_block mpc_contract_id receipt_by_id actions
                (handle_receipt action receipt queue)
        ])
      ]
