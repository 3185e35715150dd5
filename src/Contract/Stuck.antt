-- ===== src/Contract/Stuck.antt =====
-- A contract (contract/src/lib.rs) with fewer participants than its threshold, and how it gets there.
use mpc_recovery.Prelude.{◌<◌, ◌≡◌, length}
use mpc_recovery.Collections.Map
use mpc_recovery.Collections.HashSet
use mpc_recovery.Contract.State.{RunningContractState, ProtocolContractState, running, resharing}

-- Too few participants to complete a quorum.
abbrev pub IsShort : RunningContractState → Type 0
IsShort r = length r.participants < r.threshold

pub record Same (r r' : RunningContractState) : Type 0 where
  pub participants : r'.participants ≡ r.participants
  pub threshold : r'.threshold ≡ r.threshold
  pub epoch : r'.epoch ≡ r.epoch

-- A running contract goes on running with the same participants, or starts to reshare.
abbrev GoesOn : RunningContractState → ProtocolContractState → Type 0
GoesOn r (running r') = Same r r'
GoesOn r (resharing q) = Unit
GoesOn r _ = ⊥
