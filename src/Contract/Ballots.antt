-- ===== src/Contract/Ballots.antt =====
-- The ballots of contract/src/primitives.rs (`Votes`, `PkVotes`): what a vote does to them.
use mpc_recovery.Prelude.{
  ◌==◌, ◌&&◌, ◌||◌, ℕ, ◌-◌, ◌≤◌, ◌≡◌, true, false, List, arith, leb, length, Option-cases, inl, inr,
  ◌<◌,
}
use mpc_recovery.Collections.Map
use mpc_recovery.Collections.Map.{Map}
use mpc_recovery.Collections.HashSet
use mpc_recovery.Contract.Primitives.{AccountId, voters, cast_vote}

-- The voters are different members, and not yet enough.
pub record IsOpenBallot {ℓ} {V : Type ℓ} (members : Map V) (threshold : ℕ) (s : List AccountId)
    : Type 0 where
  pub distinct : HashSet.IsDistinct s
  pub within : HashSet.Within members s
  pub short : length s ≤ threshold - 1

-- The voters are different members, and enough; with a positive threshold they are as many as the
-- threshold, no more.
pub record IsQuorum {ℓ} {V : Type ℓ} (members : Map V) (threshold : ℕ) (s : List AccountId)
    : Type 0 where
  pub distinct : HashSet.IsDistinct s
  pub within : HashSet.Within members s
  pub enough : threshold ≤ length s
  pub exact : 0 < threshold → length s ≡ threshold

module _ {ℓ} {V : Type ℓ} (members : Map V) (threshold : ℕ) where
  pub voters-IsOpenBallot :
      (id : ℕ) (votes : Map (List AccountId))
      → Map.Values (IsOpenBallot members threshold) votes
      → IsOpenBallot members threshold (voters id votes)
  unfolding voters
  voters-IsOpenBallot id votes h = elim (Option-cases (Map.get id votes)) [
    | inl e ↦ rw (e, voters) (record { distinct = tt; within = tt; short = omega arith })
    | inr (s, e) ↦ rw (e, voters) (Map.Values-get (IsOpenBallot members threshold) id votes h e)
  ]

  -- One more vote of a member leaves the ballot open or completes a quorum.
  pub insert-IsOpenBallot :
      (voter : AccountId) (s : List AccountId)
      → Map.contains_key voter members ≡ true
      → IsOpenBallot members threshold s
      → leb threshold (length (HashSet.insert voter s)) ≡ false
      → IsOpenBallot members threshold (HashSet.insert voter s)
  insert-IsOpenBallot voter s m b e = record {
    distinct = HashSet.insert-IsDistinct voter s b.distinct;
    within = HashSet.insert-Within members voter s m b.within;
    short = ground arith;
  }

  pub insert-IsQuorum :
      (voter : AccountId) (s : List AccountId)
      → Map.contains_key voter members ≡ true
      → IsOpenBallot members threshold s
      → leb threshold (length (HashSet.insert voter s)) ≡ true
      → IsQuorum members threshold (HashSet.insert voter s)
  insert-IsQuorum voter s m b e = record {
    distinct = HashSet.insert-IsDistinct voter s b.distinct;
    within = HashSet.insert-Within members voter s m b.within;
    enough = ground arith;
    exact = ground (arith, HashSet.length-insert-le voter s, b.short);
  }

pub voters-cast_vote :
    (id : ℕ) (voter : AccountId) (votes : Map (List AccountId))
    → voters id (cast_vote id voter votes) ≡ HashSet.insert voter (voters id votes)
unfolding voters cast_vote
voters-cast_vote id voter votes =
    ground (arith, Map.get-insert id id (HashSet.insert voter (voters id votes)) votes)

-- Of all voters on all matters a vote changes one.
pub contains-cast_vote :
    (id voter other a : ℕ) (votes : Map (List AccountId))
    → HashSet.contains a (voters other (cast_vote id voter votes))
      ≡ (id == other && a == voter || HashSet.contains a (voters other votes))
unfolding voters cast_vote
contains-cast_vote id voter other a votes = ground (
  arith,
  Map.get-insert id other (HashSet.insert voter (voters id votes)) votes,
  HashSet.contains-insert voter a (voters id votes),
)

-- A second vote by the same voter changes nothing.
pub cast_vote-cast_vote :
    (id : ℕ) (voter : AccountId) (votes : Map (List AccountId))
    → cast_vote id voter (cast_vote id voter votes) ≡ cast_vote id voter votes
unfolding cast_vote
cast_vote-cast_vote id voter votes = ground (
  arith,
  voters-cast_vote id voter votes,
  HashSet.insert-insert voter (voters id votes),
  Map.insert-insert id (HashSet.insert voter (voters id votes))
      (HashSet.insert voter (voters id votes)) votes,
)

module _ {ℓ} {V : Type ℓ} (members : Map V) (threshold : ℕ) where
  pub cast_vote-Values :
      (id : ℕ) (voter : AccountId) (votes : Map (List AccountId))
      → Map.contains_key voter members ≡ true
      → Map.Values (IsOpenBallot members threshold) votes
      → leb threshold (length (voters id (cast_vote id voter votes))) ≡ false
      → Map.Values (IsOpenBallot members threshold) (cast_vote id voter votes)
  unfolding cast_vote
  cast_vote-Values id voter votes m h e =
      Map.Values-insert (IsOpenBallot members threshold) id (HashSet.insert voter (voters id votes))
        votes
        (insert-IsOpenBallot members threshold voter (voters id votes) m
          (voters-IsOpenBallot members threshold id votes h) (rw voters-cast_vote at e))
        h

  pub cast_vote-IsQuorum :
      (id : ℕ) (voter : AccountId) (votes : Map (List AccountId))
      → Map.contains_key voter members ≡ true
      → Map.Values (IsOpenBallot members threshold) votes
      → leb threshold (length (voters id (cast_vote id voter votes))) ≡ true
      → IsQuorum members threshold (voters id (cast_vote id voter votes))
  cast_vote-IsQuorum id voter votes m h e = rw voters-cast_vote (
      insert-IsQuorum members threshold voter (voters id votes) m
        (voters-IsOpenBallot members threshold id votes h) (rw voters-cast_vote at e))
