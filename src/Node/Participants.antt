-- ===== src/Node/Participants.antt =====
-- node/src/protocol/contract/primitives.rs: the participants as the node sees them. A participant's
-- number is the position of its account in the contract's map.
pub mod Laws
use mpc_recovery.Prelude.{
  ℕ, suc, Bool, true, false, ◌&&◌, ◌||◌, List, [], ◌∷◌, Option, none, some, map, ◌==◌,
  if◌then◌else◌, is_some, u32,
}
use mpc_recovery.Collections.Map
use mpc_recovery.Collections.Map.{Map}

abbrev pub AccountId : Type 0
AccountId = ℕ

abbrev pub Participant : Type 0
Participant = ℕ

pub record ParticipantInfo : Type 0 where
  pub id : ℕ
  pub account_id : AccountId
  pub url : ℕ
  pub cipher_pk : ℕ
  pub sign_pk : ℕ

pub record CandidateInfo : Type 0 where
  pub account_id : AccountId
  pub url : ℕ
  pub cipher_pk : ℕ
  pub sign_pk : ℕ

abbrev pub Participants : Type 0
Participants = Map ParticipantInfo

abbrev pub Candidates : Type 0
Candidates = Map CandidateInfo

unfoldable pub info_of_candidate : ℕ → AccountId → CandidateInfo → ParticipantInfo
info_of_candidate position account_id info = record {
  id = u32 position;
  account_id = account_id;
  url = info.url;
  cipher_pk = info.cipher_pk;
  sign_pk = info.sign_pk;
}

-- `From<Candidates> for Participants`: `enumerate`, `map` and `collect`, from a position on.
unfoldable pub enumerate_candidates : ℕ → Candidates → Participants → Participants
unfolding info_of_candidate
enumerate_candidates position [] collected = collected
enumerate_candidates position ((account_id, info) ∷ rest) collected =
    enumerate_candidates (suc position) rest
      (Map.insert (u32 position) (info_of_candidate position account_id info) collected)

unfoldable pub participants_of_candidates : Candidates → Participants
unfolding enumerate_candidates
participants_of_candidates candidates = enumerate_candidates 0 candidates []

abbrev pub keys : Participants → List Participant
keys = map (λ e. e.0)

unfoldable pub find_participant : AccountId → Participants → Option Participant
find_participant account_id [] = none
find_participant account_id ((participant, info) ∷ rest) =
    if info.account_id == account_id then some participant else find_participant account_id rest

unfoldable pub find_participant_info : AccountId → Participants → Option ParticipantInfo
find_participant_info account_id [] = none
find_participant_info account_id ((participant, info) ∷ rest) =
    if info.account_id == account_id then some info else find_participant_info account_id rest

unfoldable pub contains_account_id : AccountId → Participants → Bool
contains_account_id account_id [] = false
contains_account_id account_id ((participant, info) ∷ rest) =
    info.account_id == account_id || contains_account_id account_id rest

abbrev pub account_ids : Participants → List AccountId
account_ids = map (λ e. e.1.account_id)

-- The derived `PartialEq`.
unfoldable pub eq_info : ParticipantInfo → ParticipantInfo → Bool
eq_info a b =
    a.id == b.id
    && (a.account_id == b.account_id
        && (a.url == b.url && (a.cipher_pk == b.cipher_pk && a.sign_pk == b.sign_pk)))

unfoldable pub eq_participants : Participants → Participants → Bool
unfolding eq_info
eq_participants [] [] = true
eq_participants ((p, a) ∷ ps) ((q, b) ∷ qs) = p == q && (eq_info a b && eq_participants ps qs)
eq_participants _ _ = false
