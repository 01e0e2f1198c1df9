-- ===== src/Spec/State/Status.antt =====
-- pkg/spec/state.go: the status of a validator, and the validators of each status. A validator's
-- place in the list is its index.
use eth_cl_state_analyzer.Common.{
  ℕ, zero, suc, Bool, true, false, ◌&&◌, List, [], ◌∷◌, ◌++◌, none, some, leb, ltb, if◌then◌else◌,
  length, get_elem?,
}
use eth_cl_state_analyzer.Client.{Validator}
use eth_cl_state_analyzer.Spec.Constants.{
  ValidatorStatus, queue_status, active_status, exit_status, slashed_status,
}
use eth_cl_state_analyzer.Spec.State.Defs.{AgnosticState}

-- `IsActive`
unfoldable pub is_active : Validator → ℕ → Bool
is_active v epoch = if leb v.activation_epoch epoch && ltb epoch v.exit_epoch then true else false

-- `GetValStatus` of a validator that is in the list.
unfoldable pub listed_status : Validator → ℕ → ValidatorStatus
listed_status v epoch =
    if v.slashed
    then slashed_status
    else if leb v.exit_epoch epoch
    then exit_status
    else if leb v.activation_epoch epoch
    then active_status
    else queue_status

-- `GetValStatus`; an index that is not in the list is in the queue.
unfoldable pub get_val_status : AgnosticState → ℕ → ValidatorStatus
unfolding listed_status
get_val_status p val_idx = elim (get_elem? p.validators val_idx) [
  | none ↦ queue_status
  | some v ↦ listed_status v p.epoch
]

-- The array of `NUMBER_OF_STATUS` index lists, one for each status.
pub record ByStatus : Type 0 where
  pub queue : List ℕ
  pub active : List ℕ
  pub exit : List ℕ
  pub slashed : List ℕ

abbrev pub at : ByStatus → ValidatorStatus → List ℕ
at r queue_status = r.queue
at r active_status = r.active
at r exit_status = r.exit
at r slashed_status = r.slashed

-- `result[status] = append(result[status], i)`
abbrev pub push : ByStatus → ValidatorStatus → ℕ → ByStatus
push r queue_status i = record r { queue = r.queue ++ i ∷ [] }
push r active_status i = record r { active = r.active ++ i ∷ [] }
push r exit_status i = record r { exit = r.exit ++ i ∷ [] }
push r slashed_status i = record r { slashed = r.slashed ++ i ∷ [] }

-- The loop of `GetValsPerStatus` from index i, with n validators left.
unfoldable pub vals_per_status_from : AgnosticState → ℕ → ℕ → ByStatus → ByStatus
vals_per_status_from p i zero r = r
vals_per_status_from p i (suc n) r =
    vals_per_status_from p (suc i) n (push r (get_val_status p i) i)

unfoldable pub get_vals_per_status : AgnosticState → ByStatus
unfolding vals_per_status_from
get_vals_per_status p =
    vals_per_status_from p 0 (length p.validators)
      (record { queue = []; active = []; exit = []; slashed = [] })

-- `GetValsStateNums`
unfoldable pub get_vals_state_nums : AgnosticState → AgnosticState
get_vals_state_nums p =
    let result = get_vals_per_status p in
    record p {
      num_active_vals = length (at result active_status);
      num_exited_vals = length (at result exit_status);
      num_slashed_vals = length (at result slashed_status);
      num_queued_vals = length (at result queue_status);
    }
