-- ===== src/Autocreate/Manager.antt =====
-- The turn of internal/autocreate/manager.go on one due schedule. The diagnoses of errors
-- (flow_log.go and the Apple client) are parameters, as fields of `CreateError`.
use icloud_api_mangobubu.Base.{
  ℕ, ◌+◌, ◌-◌, max, Bool, true, false, not, ◌&&◌, ◌||◌, Option, none, some, List, [], ◌∷◌, ltb,
  if◌then◌else◌, Result, ok, err, ◌>>=◌, ◌>>◌, require, or_fail, after, Text, trim_space,
}
use icloud_api_mangobubu.Autocreate.Plan.{
  minimum_interval, apple_rate_limit_cooldown, generate_plan, new_plan_starting_at, postpone,
  plan_after_claim, shift_current_plan,
}
use icloud_api_mangobubu.Store.Creation.{
  AliasCreationSchedule, Tables, Error, first_planned, get_schedule, next_or_zero, enable, disable,
  reschedule, claim, record_success, record_failure,
}

-- What `processDue` does with a schedule that it has read, by the clock of its start.
pub data Decision : Type 0 where
  skip : Decision
  unplanned : Decision
  postponed : (planned : List ℕ) → Decision
  claimed : (planned : List ℕ) → Decision

abbrev pub postponed_to : Option (List ℕ) → Decision
postponed_to none = unplanned
postponed_to (some planned) = postponed planned

abbrev pub claimed_for : Option (List ℕ) → Decision
claimed_for none = unplanned
claimed_for (some planned) = claimed planned

-- `schedule.LastAttemptedAt` of a schedule that may be claimed, and the rest of its decision.
abbrev pub decide_due : AliasCreationSchedule → ℕ → ℕ → (ℕ → ℕ) → Option ℕ → Decision
decide_due s expected now random none =
    claimed_for (plan_after_claim s.planned_at expected now random)
decide_due s expected now random (some attempted) =
    if ltb now (attempted + minimum_interval)
    then postponed_to
        (shift_current_plan s.planned_at expected (attempted + minimum_interval) random)
    else claimed_for (plan_after_claim s.planned_at expected now random)

abbrev pub decide_at : ℕ → AliasCreationSchedule → ℕ → (ℕ → ℕ) → Option ℕ → Decision
decide_at grace s now random none = skip
decide_at grace s now random (some expected) =
    if ltb now expected
    then skip
    else if ltb grace (now - expected)
    then postponed_to (generate_plan now random)
    else decide_due s expected now random s.last_attempted_at

unfoldable pub decide : ℕ → AliasCreationSchedule → ℕ → (ℕ → ℕ) → Decision
decide grace s now random =
    if not s.enabled || ltb s.account_id 1 then skip else decide_at grace s now random s.next_run_at

-- `correctPlanAfterClaim`: the tables, and the plan when it may go on.
unfoldable pub correct_plan_after_claim :
    ℕ → List ℕ → ℕ → Tables → Result Error (Tables × Option (List ℕ))
correct_plan_after_claim id [] actual t = ok (t, some [])
correct_plan_after_claim id (first ∷ rest) actual t =
    if ltb first (actual + minimum_interval)
    then reschedule id first (postpone (actual + minimum_interval) (first ∷ rest)) actual t
      >>= (λ p.
          ok (
            p.0,
            (if p.1 then some (postpone (actual + minimum_interval) (first ∷ rest)) else none),
          ))
    else ok (t, some (first ∷ rest))

-- The part of `processDue` between the claim and the creation.
unfoldable pub start : ℕ → List ℕ → ℕ → ℕ → Tables → Result Error (Tables × Option (List ℕ))
start id planned claim_at actual t =
    if ltb claim_at actual
    then correct_plan_after_claim id planned actual t
    else ok (t, some planned)

pub record CreateError : Type 0 where
  pub message : Text
  pub rate_limited : Bool
  pub capacity_reached : Bool
  pub untracked_side_effect : Bool

-- The tables after a call whose errors are only logged.
abbrev pub kept : Tables → Result Error (Tables × Bool) → Tables
kept t (ok (u, changed)) = u
kept t (err e) = t

abbrev pub cool_down_with : ℕ → ℕ → ℕ → Tables → Option (List ℕ) → Tables
cool_down_with id expected now t none = t
cool_down_with id expected now t (some planned) = kept t (reschedule id expected planned now t)

-- The cooldown of an attempt that Apple refused for its rate.
unfoldable pub cool_down : ℕ → Option ℕ → ℕ → ℕ → (ℕ → ℕ) → Tables → Tables
cool_down id none failed_at now random t = t
cool_down id (some expected) failed_at now random t =
    cool_down_with id expected now t
      (new_plan_starting_at (failed_at + apple_rate_limit_cooldown) random)

-- The failure branch of `processDue` after the creation.
unfoldable pub finish_failure : ℕ → List ℕ → ℕ → CreateError → (now : ℕ) → (ℕ → ℕ) → Tables → Tables
finish_failure id planned attempted e now random t =
    let recorded = after t (record_failure id attempted e.message now t) in
    let cooled =
      if e.rate_limited
      then cool_down id (first_planned planned) now now random recorded
      else recorded in
    if e.capacity_reached || e.untracked_side_effect
    then after cooled (disable id now cooled)
    else cooled

-- The success branch; an empty address is a failure.
unfoldable pub finish :
    ℕ
    → List ℕ
    → ℕ
    → Result CreateError Text
    → (now : ℕ) → (ℕ → ℕ)
    → (empty_address : CreateError) → Tables
    → Tables
finish id planned attempted (err e) now random empty_address t =
    finish_failure id planned attempted e now random t
finish id planned attempted (ok address) now random empty_address t =
    let trimmed = trim_space address in
    elim trimmed [
      | [] ↦ finish_failure id planned attempted empty_address now random t
      | c ∷ cs ↦ after t (record_success id attempted (c ∷ cs) now t)
    ]

-- The readings of the clock and the draws of one turn of `processDue`.
pub record Turn : Type 0 where
  pub grace : ℕ
  pub now : ℕ
  pub actual : ℕ
  pub ended : ℕ
  pub random : ℕ → ℕ
  pub cooldown_random : ℕ → ℕ

-- What `processDue` calls besides the store: the creation, the error for an empty address and the
-- text for a plan that could not be corrected.
pub record Calls : Type 0 where
  pub create : ℕ → Result CreateError Text
  pub empty_address : CreateError
  pub correction_failed : Text

-- What a turn leaves: the tables, and the times at which it called the creator.
abbrev pub Outcome : Type 0
Outcome = Tables × List ℕ

-- `processDue` behind the correction of the plan. The creator is called where the plan may go on.
abbrev pub go_on : Calls → Turn → ℕ → Tables → Result Error (Tables × Option (List ℕ)) → Outcome
go_on calls u id t (err e) =
    (after t (record_failure id u.actual calls.correction_failed u.actual t), [])
go_on calls u id t (ok (v, none)) =
    (after v (record_failure id u.actual calls.correction_failed u.actual v), [])
go_on calls u id t (ok (v, some corrected)) = (
  finish id corrected (max u.now u.actual) (calls.create id) u.ended u.cooldown_random
      calls.empty_address v,
  max u.now u.actual ∷ [],
)

-- `processDue` behind the claim.
abbrev pub after_claim : Calls → Turn → ℕ → List ℕ → Tables → Result Error (Tables × Bool) → Outcome
after_claim calls u id planned t (err e) = (t, [])
after_claim calls u id planned t (ok (v, false)) = (v, [])
after_claim calls u id planned t (ok (v, true)) =
    go_on calls u id v (start id planned u.now u.actual v)

-- `processDue` by its decision.
abbrev pub act : Calls → Turn → ℕ → ℕ → Tables → Decision → Outcome
act calls u id expected t skip = (t, [])
act calls u id expected t unplanned = (t, [])
act calls u id expected t (postponed planned) =
    (kept t (reschedule id expected planned u.now t), [])
act calls u id expected t (claimed planned) =
    after_claim calls u id planned t (claim id expected planned u.now t)

-- `processDue` where no other worker comes between its statements; the clock is read once after the
-- creation.
unfoldable pub process_due : Calls → Turn → AliasCreationSchedule → Tables → Outcome
process_due calls u s t =
    act calls u s.account_id (next_or_zero s) t (decide u.grace s u.now u.random)

pub data ManagerError : Type 0 where
  invalid_account_id : ManagerError
  invalid_random : ManagerError
  store_error : Error → ManagerError

abbrev stored : Result Error Tables → Result ManagerError Tables
stored (ok t) = ok t
stored (err e) = err (store_error e)

abbrev switched : ℕ → Bool → ℕ → (ℕ → ℕ) → Tables → Result ManagerError Tables
switched id enabled now random t =
    if enabled
    then or_fail (generate_plan now random) invalid_random
      >>= (λ planned. stored (enable id planned now t))
    else stored (disable id now t)

-- `SetEnabled`, without the reading of the schedule that it ends with.
unfoldable pub set_enabled : ℕ → Bool → ℕ → (ℕ → ℕ) → Tables → Result ManagerError Tables
set_enabled id enabled now random t =
    require (not (ltb id 1)) invalid_account_id >> elim (get_schedule id t) [
      | err e ↦ switched id enabled now random t
      | ok s ↦
          if (s.enabled && enabled) || (not s.enabled && not enabled)
          then ok t
          else switched id enabled now random t
    ]
