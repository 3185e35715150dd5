-- ===== src/Contract/Primitives.antt =====
-- contract/src/primitives.rs: participants, candidates and votes. Account ids, public keys, URLs
-- and cipher keys are opaque to the contract, which only stores and compares them.
use mpc_recovery.Prelude.{ℕ, List, [], ◌∷◌, none, some}
use mpc_recovery.Collections.Map
use mpc_recovery.Collections.Map.{Map}
use mpc_recovery.Collections.HashSet

abbrev pub AccountId : Type 0
AccountId = ℕ

abbrev pub PublicKey : Type 0
PublicKey = ℕ

pub record ParticipantInfo : Type 0 where
  pub account_id : AccountId
  pub url : ℕ
  pub cipher_pk : ℕ
  pub sign_pk : PublicKey

pub record CandidateInfo : Type 0 where
  pub account_id : AccountId
  pub url : ℕ
  pub cipher_pk : ℕ
  pub sign_pk : PublicKey

-- `From<CandidateInfo> for ParticipantInfo`
abbrev pub participant_of_candidate : CandidateInfo → ParticipantInfo
participant_of_candidate c = record {
  account_id = c.account_id;
  url = c.url;
  cipher_pk = c.cipher_pk;
  sign_pk = c.sign_pk;
}

abbrev pub Participants : Type 0
Participants = Map ParticipantInfo

abbrev pub Candidates : Type 0
Candidates = Map CandidateInfo

-- The loop of `From<Candidates> for Participants`.
unfoldable pub insert_candidates : Participants → Candidates → Participants
insert_candidates participants [] = participants
insert_candidates participants ((account_id, info) ∷ rest) =
    insert_candidates (Map.insert account_id (participant_of_candidate info) participants) rest

-- `From<Candidates> for Participants`
unfoldable pub participants_of_candidates : Candidates → Participants
unfolding insert_candidates
participants_of_candidates candidates = insert_candidates [] candidates

abbrev pub Votes : Type 0
Votes = Map (List AccountId)

abbrev pub PkVotes : Type 0
PkVotes = Map (List AccountId)

-- `votes.entry(id).or_default()`, read
unfoldable pub voters : ℕ → Map (List AccountId) → List AccountId
voters id votes = elim (Map.get id votes) [ none ↦ [] | some s ↦ s ]

-- `votes.entry(id).insert(voter)`: the map with the voter's name added
unfoldable pub cast_vote : ℕ → AccountId → Map (List AccountId) → Map (List AccountId)
unfolding voters
cast_vote id voter votes = Map.insert id (HashSet.insert voter (voters id votes)) votes
