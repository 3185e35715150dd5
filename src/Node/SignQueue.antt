-- ===== src/Node/SignQueue.antt =====
-- node/src/protocol/signature.rs: the queue of requests for signatures.
use mpc_recovery.Prelude.{ℕ, Bool, false, List, [], ◌∷◌, ◌++◌, Option, none, some, if◌then◌else◌}
use mpc_recovery.Collections.Map
use mpc_recovery.Collections.Map.{Map}
use mpc_recovery.Collections.HashSet
use mpc_recovery.Node.Participants.{Participant}
use mpc_recovery.Node.CaitSith.{CaitSith}

pub record SignRequest (C : CaitSith) : Type 0 where
  pub receipt_id : ℕ
  pub msg_hash : ℕ
  pub epsilon : C.Scalar
  pub delta : C.Scalar
  pub entropy : ℕ

pub record SignQueue (C : CaitSith) : Type 0 where
  pub unorganized_requests : List (SignRequest C)
  pub requests : Map (Map (SignRequest C))

-- The choice that the seeded generator makes of `threshold` participants, and of the proposer among
-- them; `none` is the panic of `choose` on an empty subset.
pub record Chooser : Type 0 where
  pub subset : ℕ → List Participant → ℕ → List Participant
  pub proposer : ℕ → List Participant → ℕ → Option Participant

module _ (C : CaitSith) where
  unfoldable pub add : SignRequest C → SignQueue C → SignQueue C
  add request q = record q { unorganized_requests = q.unorganized_requests ++ request ∷ [] }

  -- `requests.entry(p).or_default()`, read
  unfoldable pub requests_of : Participant → Map (Map (SignRequest C)) → Map (SignRequest C)
  requests_of p requests = elim (Map.get p requests) [ none ↦ [] | some m ↦ m ]

  unfoldable pub file_request :
      Chooser
      → List Participant
      → ℕ
      → Participant
      → SignRequest C
      → Participant
      → Map (Map (SignRequest C))
      → Map (Map (SignRequest C))
  unfolding requests_of
  file_request chooser participants threshold me request proposer requests =
      if HashSet.contains me (chooser.subset request.entropy participants threshold)
      then Map.insert proposer
          (Map.insert request.receipt_id request (requests_of proposer requests)) requests
      else requests

  -- The loop over the drained requests; `none` is a panic.
  unfoldable pub organize_all :
      Chooser
      → List Participant
      → ℕ
      → Participant
      → List (SignRequest C)
      → Map (Map (SignRequest C))
      → Option (Map (Map (SignRequest C)))
  unfolding file_request
  organize_all chooser participants threshold me [] requests = some requests
  organize_all chooser participants threshold me (request ∷ rest) requests =
      elim (chooser.proposer request.entropy participants threshold) [
        | none ↦ none
        | some proposer ↦
            organize_all chooser participants threshold me rest
              (file_request chooser participants threshold me request proposer requests)
      ]

  unfoldable pub organize :
      Chooser → List Participant → ℕ → Participant → SignQueue C → Option (SignQueue C)
  unfolding organize_all
  organize chooser participants threshold me q =
      elim (organize_all chooser participants threshold me q.unorganized_requests q.requests) [
        | none ↦ none
        | some requests ↦ some (record { unorganized_requests = []; requests = requests })
      ]

  unfoldable pub contains : Participant → ℕ → SignQueue C → Bool
  contains participant receipt_id q = elim (Map.get participant q.requests) [
    | none ↦ false
    | some requests ↦ Map.contains_key receipt_id requests
  ]
