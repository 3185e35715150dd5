-- ===== src/Node/Participants/Laws.antt =====
-- The searches and the equality of node/src/protocol/contract/primitives.rs.
use mpc_recovery.Prelude.{◌≡◌, refl, true, [], ◌∷◌, arith, is_some}
use mpc_recovery.Node.Participants.{
  AccountId, Participants, ParticipantInfo, find_participant, contains_account_id, eq_info,
  eq_participants,
}

eq_info_sound : (a b : ParticipantInfo) → eq_info a b ≡ true → a ≡ b
unfolding eq_info
eq_info_sound a b h = ground arith

pub eq_participants_sound : (ps qs : Participants) → eq_participants ps qs ≡ true → ps ≡ qs
unfolding eq_participants
eq_participants_sound [] [] h = refl
eq_participants_sound [] (_ ∷ _) h = ground arith
eq_participants_sound (_ ∷ _) [] h = ground arith
eq_participants_sound ((p, a) ∷ ps) ((q, b) ∷ qs) h =
    ground (arith, eq_info_sound a b, eq_participants_sound ps qs)

eq_info_refl : (a : ParticipantInfo) → eq_info a a ≡ true
unfolding eq_info
eq_info_refl a = ground arith

pub eq_participants_refl : (ps : Participants) → eq_participants ps ps ≡ true
unfolding eq_participants
eq_participants_refl [] = refl
eq_participants_refl ((p, a) ∷ ps) = ground (arith, eq_info_refl a, eq_participants_refl ps)

-- An account is found exactly if it is contained.
pub contains_account_id-find_participant :
    (account_id : AccountId) (ps : Participants)
    → contains_account_id account_id ps ≡ is_some (find_participant account_id ps)
unfolding contains_account_id find_participant
contains_account_id-find_participant account_id [] = refl
contains_account_id-find_participant account_id ((p, info) ∷ ps) =
    ground (arith, contains_account_id-find_participant account_id ps)
