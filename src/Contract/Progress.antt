-- ===== src/Contract/Progress.antt =====
-- What enough votes achieve (contract/src/lib.rs).
use mpc_recovery.Prelude.{
  ℕ, suc, ◌+◌, ◌<◌, ◌≡◌, sym, ap, subst, true, false, List, [], ◌∷◌, map, some, arith, All, length,
  u64,
}
use mpc_recovery.Collections.Map
use mpc_recovery.Collections.HashSet
use mpc_recovery.Contract.Primitives.{
  AccountId, PublicKey, participants_of_candidates, CandidateInfo, participant_of_candidate, voters,
  cast_vote,
}
use mpc_recovery.Contract.State.{
  InitializingContractState, initializing, RunningContractState, ResharingContractState, running,
  resharing, MpcContract, Env,
}
use mpc_recovery.Contract.Membership.{
  vote_pk, vote_pk_initializing, vote_join, vote_join_running, count_join, start_resharing,
  vote_reshared, vote_reshared_resharing, fresh_running,
}
use mpc_recovery.Contract.Calls.{
  Call, votes_join, votes_reshared, votes_pk, step_protocol, step, run,
}
use mpc_recovery.Contract.Ballots.{voters-cast_vote}

-- None of the accounts has voted.
abbrev pub Fresh : List AccountId → List AccountId → Type 0
Fresh voted accounts = All (λ a. HashSet.contains a voted ≡ false) accounts

-- The vote of an account on a candidate.
abbrev pub votes_for : AccountId → AccountId → AccountId → Env × Call
votes_for current candidate a =
    (record { signer = a; predecessor = a; current = current }, votes_join candidate)

-- The report of an account that the resharing is finished.
abbrev pub reports : AccountId → ResharingContractState → AccountId → Env × Call
reports current q a = (
  record { signer = a; predecessor = a; current = current },
  votes_reshared (u64 (q.old_epoch + 1)),
)

-- The vote of an account for a key.
abbrev pub votes_key : AccountId → PublicKey → AccountId → Env × Call
votes_key current key a = (record { signer = a; predecessor = a; current = current }, votes_pk key)

Fresh-insert :
    (a : AccountId) (voted accounts : List AccountId)
    → HashSet.contains a accounts ≡ false
    → Fresh voted accounts
    → Fresh (HashSet.insert a voted) accounts
unfolding HashSet.insert HashSet.contains
Fresh-insert a voted [] new fresh = tt
Fresh-insert a voted (b ∷ accounts) new fresh = (
  ground (arith, HashSet.contains-insert a b voted, fresh.0),
  Fresh-insert a voted accounts (ground arith) fresh.1,
)

length-insert_new :
    (a : AccountId) (voted : List AccountId)
    → HashSet.contains a voted ≡ false
    → length (HashSet.insert a voted) ≡ suc (length voted)
unfolding HashSet.insert
length-insert_new a voted new = ground arith

module _ (current candidate a : AccountId) (info : CandidateInfo) (r : RunningContractState) where
  abbrev ballot : List AccountId
  ballot = HashSet.insert a (voters candidate r.join_votes)

  not_yet :
      Map.get candidate r.candidates ≡ some info
      → Map.contains_key a r.participants ≡ true
      → length ballot < r.threshold
      → step_protocol (votes_for current candidate a).0 (votes_join candidate) (running r)
        ≡ running (record r { join_votes = cast_vote candidate a r.join_votes })
  unfolding step_protocol vote_join vote_join_running count_join
  not_yet known member few = ground (arith, voters-cast_vote candidate a r.join_votes)

  enough :
      Map.get candidate r.candidates ≡ some info
      → Map.contains_key a r.participants ≡ true
      → length ballot ≡ r.threshold
      → step_protocol (votes_for current candidate a).0 (votes_join candidate) (running r)
        ≡ resharing (
            start_resharing r (Map.insert candidate (participant_of_candidate info) r.participants))
  unfolding step_protocol vote_join vote_join_running count_join
  enough known member full = ground (arith, voters-cast_vote candidate a r.join_votes)

-- As many different participants as are still missing to the threshold, none of whom has voted on a
-- registered candidate, bring the contract to reshare with that candidate, by one vote each.
pub enough_votes_join :
    (current candidate a : AccountId) (info : CandidateInfo) (s : List AccountId)
    (r : RunningContractState) (c : MpcContract)
    → c.protocol_state ≡ running r
    → Map.get candidate r.candidates ≡ some info
    → HashSet.IsDistinct (a ∷ s)
    → HashSet.Within r.participants (a ∷ s)
    → Fresh (voters candidate r.join_votes) (a ∷ s)
    → length (voters candidate r.join_votes) + length (a ∷ s) ≡ r.threshold
    → (run (map (votes_for current candidate) (a ∷ s)) c).protocol_state
      ≡ resharing
          (start_resharing r (Map.insert candidate (participant_of_candidate info) r.participants))
unfolding run step start_resharing
enough_votes_join current candidate a info [] r c e known distinct within fresh count = rw e (
    enough current candidate a info r known within.0
      (omega (arith, length-insert_new a (voters candidate r.join_votes) fresh.0)))
enough_votes_join current candidate a info (b ∷ s) r c e known distinct within fresh count =
    let voted = cast_vote candidate a r.join_votes in
    let larger = length-insert_new a (voters candidate r.join_votes) fresh.0 in
    let ballot = voters-cast_vote candidate a r.join_votes in
    enough_votes_join current candidate b info s (record r { join_votes = voted })
      (step (votes_for current candidate a).0 (votes_join candidate) c)
      (rw e (not_yet current candidate a info r known within.0 (omega (arith, larger, count))))
      known distinct.1 within.1
      (subst (λ v. Fresh v (b ∷ s)) (sym ballot)
        (Fresh-insert a (voters candidate r.join_votes) (b ∷ s) distinct.0 fresh.1))
      (omega (arith, ap length ballot, larger, count))

module _ (current a : AccountId) (q : ResharingContractState) where
  not_yet_reshared :
      Map.contains_key a q.old_participants ≡ true
      → length (HashSet.insert a q.finished_votes) < q.threshold
      → step_protocol (reports current q a).0 (reports current q a).1 (resharing q)
        ≡ resharing (record q { finished_votes = HashSet.insert a q.finished_votes })
  unfolding step_protocol vote_reshared vote_reshared_resharing
  not_yet_reshared member few = ground arith

  enough_reshared :
      Map.contains_key a q.old_participants ≡ true
      → length (HashSet.insert a q.finished_votes) ≡ q.threshold
      → step_protocol (reports current q a).0 (reports current q a).1 (resharing q)
        ≡ running
            (fresh_running (u64 (q.old_epoch + 1)) q.new_participants q.threshold q.public_key)
  unfolding step_protocol vote_reshared vote_reshared_resharing
  enough_reshared member full = ground arith

-- As many different old participants as are still missing to the threshold, none of whom has
-- reported the resharing finished, bring the contract to run in the next epoch with the new
-- participants, by one report each.
enough_reports_finish :
    (current a : AccountId) (s : List AccountId) (q : ResharingContractState) (c : MpcContract)
    → c.protocol_state ≡ resharing q
    → HashSet.IsDistinct (a ∷ s)
    → HashSet.Within q.old_participants (a ∷ s)
    → Fresh q.finished_votes (a ∷ s)
    → length q.finished_votes + length (a ∷ s) ≡ q.threshold
    → (run (map (reports current q) (a ∷ s)) c).protocol_state
      ≡ running (fresh_running (u64 (q.old_epoch + 1)) q.new_participants q.threshold q.public_key)
unfolding run step
enough_reports_finish current a [] q c e distinct within fresh count = rw e (
    enough_reshared current a q within.0
      (omega (arith, length-insert_new a q.finished_votes fresh.0)))
enough_reports_finish current a (b ∷ s) q c e distinct within fresh count =
    let larger = length-insert_new a q.finished_votes fresh.0 in
    enough_reports_finish current b s
      (record q { finished_votes = HashSet.insert a q.finished_votes })
      (step (reports current q a).0 (reports current q a).1 c)
      (rw e (not_yet_reshared current a q within.0 (omega (arith, larger, count)))) distinct.1
      within.1 (Fresh-insert a q.finished_votes (b ∷ s) distinct.0 fresh.1)
      (omega (arith, larger, count))

module _ (current key a : ℕ) (i : InitializingContractState) where
  not_yet_key :
      Map.contains_key a i.candidates ≡ true
      → length (HashSet.insert a (voters key i.pk_votes)) < i.threshold
      → step_protocol (votes_key current key a).0 (votes_pk key) (initializing i)
        ≡ initializing (record i { pk_votes = cast_vote key a i.pk_votes })
  unfolding step_protocol vote_pk vote_pk_initializing
  not_yet_key member few = ground (arith, voters-cast_vote key a i.pk_votes)

  enough_key :
      Map.contains_key a i.candidates ≡ true
      → length (HashSet.insert a (voters key i.pk_votes)) ≡ i.threshold
      → step_protocol (votes_key current key a).0 (votes_pk key) (initializing i)
        ≡ running (fresh_running 0 (participants_of_candidates i.candidates) i.threshold key)
  unfolding step_protocol vote_pk vote_pk_initializing
  enough_key member full = ground (arith, voters-cast_vote key a i.pk_votes)

-- As many different candidates as are still missing to the threshold, none of whom has voted for a
-- key, bring the contract to run with that key in epoch 0, by one vote each.
enough_keys_start :
    (current key a : ℕ) (s : List AccountId) (i : InitializingContractState) (c : MpcContract)
    → c.protocol_state ≡ initializing i
    → HashSet.IsDistinct (a ∷ s)
    → HashSet.Within i.candidates (a ∷ s)
    → Fresh (voters key i.pk_votes) (a ∷ s)
    → length (voters key i.pk_votes) + length (a ∷ s) ≡ i.threshold
    → (run (map (votes_key current key) (a ∷ s)) c).protocol_state
      ≡ running (fresh_running 0 (participants_of_candidates i.candidates) i.threshold key)
unfolding run step
enough_keys_start current key a [] i c e distinct within fresh count = rw e (
    enough_key current key a i within.0
      (omega (arith, length-insert_new a (voters key i.pk_votes) fresh.0)))
enough_keys_start current key a (b ∷ s) i c e distinct within fresh count =
    let larger = length-insert_new a (voters key i.pk_votes) fresh.0 in
    let ballot = voters-cast_vote key a i.pk_votes in
    enough_keys_start current key b s (record i { pk_votes = cast_vote key a i.pk_votes })
      (step (votes_key current key a).0 (votes_pk key) c)
      (rw e (not_yet_key current key a i within.0 (omega (arith, larger, count)))) distinct.1
      within.1
      (subst (λ v. Fresh v (b ∷ s)) (sym ballot)
        (Fresh-insert a (voters key i.pk_votes) (b ∷ s) distinct.0 fresh.1))
      (omega (arith, ap length ballot, larger, count))
