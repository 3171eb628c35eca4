-- ===== src/Store/Creation.antt =====
-- internal/store/alias_creation_schedule.go: the schedules of automatic creation. The statements
-- name the account, which is the primary key. A planned time that is zero is 0.
use icloud_api_mangobubu.Base.{
  ℕ, Bool, true, false, not, ◌&&◌, ◌||◌, Option, none, some, List, [], ◌∷◌, ltb, leb, ◌==◌,
  if◌then◌else◌, Result, ok, err, ◌>>=◌, ◌>>◌, require, or_fail, length, Text, trim_space,
  first_where, upsert, update_key, update_where, select_where,
}
use icloud_api_mangobubu.Store.Encoding.{sanitize_postgres_text, take}

pub record AliasCreationSchedule : Type 0 where
  pub account_id : ℕ
  pub enabled : Bool
  pub planned_at : List ℕ
  pub next_run_at : Option ℕ
  pub last_attempted_at : Option ℕ
  pub last_created_at : Option ℕ
  pub last_alias_address : Text
  pub last_error : Text
  pub created_at : ℕ
  pub updated_at : ℕ

pub record Account : Type 0 where
  pub id : ℕ
  pub enabled : Bool

pub record Tables : Type 0 where
  pub accounts : List Account
  pub schedules : List AliasCreationSchedule

pub data Error : Type 0 where
  not_found : Error
  account_disabled : Error
  account_id_not_positive : Error
  planned_time_zero : Error

abbrev pub of_account : ℕ → AliasCreationSchedule → Bool
of_account id s = s.account_id == id

abbrev has_id : ℕ → Account → Bool
has_id id a = a.id == id

-- `encodePlannedAliasCreationTimes`: the column is the list that it encodes.
abbrev pub encode_planned : List ℕ → Option (List ℕ)
encode_planned [] = some []
encode_planned (d ∷ ds) =
    if d == 0 then none else elim (encode_planned ds) [ none ↦ none | some es ↦ some (d ∷ es) ]

abbrev pub first_planned : List ℕ → Option ℕ
first_planned [] = none
first_planned (d ∷ ds) = some d

-- GetAliasCreationSchedule
unfoldable pub get_schedule : ℕ → Tables → Result Error AliasCreationSchedule
get_schedule id t = or_fail (first_where (of_account id) t.schedules) not_found

abbrev pub is_due_at : ℕ → Option ℕ → Bool
is_due_at due none = false
is_due_at due (some next) = leb next due

abbrev pub next_or_zero : AliasCreationSchedule → ℕ
next_or_zero s = elim s.next_run_at [ none ↦ 0 | some next ↦ next ]

-- ORDER BY next_run_at, account_id
abbrev pub runs_before : AliasCreationSchedule → AliasCreationSchedule → Bool
runs_before s r =
    ltb (next_or_zero s) (next_or_zero r)
    || (next_or_zero s == next_or_zero r && leb s.account_id r.account_id)

abbrev insert_schedule :
    AliasCreationSchedule → List AliasCreationSchedule → List AliasCreationSchedule
insert_schedule s [] = s ∷ []
insert_schedule s (r ∷ rs) =
    let rest = insert_schedule s rs in if runs_before s r then s ∷ r ∷ rs else r ∷ rest

abbrev sort_schedules : List AliasCreationSchedule → List AliasCreationSchedule
sort_schedules [] = []
sort_schedules (s ∷ ss) = insert_schedule s (sort_schedules ss)

-- ListDueAliasCreationSchedules
unfoldable pub list_due : ℕ → Tables → List AliasCreationSchedule
list_due due t =
    sort_schedules (select_where (λ s. s.enabled && is_due_at due s.next_run_at) t.schedules)

abbrev pub enabled_row : ℕ → List ℕ → ℕ → Option AliasCreationSchedule → AliasCreationSchedule
enabled_row id planned now none = record {
  account_id = id;
  enabled = true;
  planned_at = planned;
  next_run_at = first_planned planned;
  last_attempted_at = none;
  last_created_at = none;
  last_alias_address = [];
  last_error = [];
  created_at = now;
  updated_at = now;
}
enabled_row id planned now (some s) = record s {
  enabled = true;
  planned_at = planned;
  next_run_at = first_planned planned;
  last_error = [];
  updated_at = now;
}

-- EnableAliasCreation
unfoldable pub enable : ℕ → List ℕ → ℕ → Tables → Result Error Tables
enable id planned now t =
    require (ltb 0 id) account_id_not_positive
    >> or_fail (encode_planned planned) planned_time_zero
    >>= λ encoded. or_fail (first_where (has_id id) t.accounts) not_found >>= λ account.
        require account.enabled account_disabled
        >> ok (record t {
          schedules =
              upsert (of_account id)
                (enabled_row id encoded now (first_where (of_account id) t.schedules)) t.schedules;
        })

abbrev pub disabled_row : ℕ → AliasCreationSchedule → AliasCreationSchedule
disabled_row now s = record s {
  enabled = false;
  planned_at = [];
  next_run_at = none;
  updated_at = now;
}

-- DisableAliasCreation
unfoldable pub disable : ℕ → ℕ → Tables → Result Error Tables
disable id now t =
    require (ltb 0 id) account_id_not_positive
    >> ok (record t { schedules = update_where (of_account id) (disabled_row now) t.schedules })

-- `next_run_at = ?`, and `next_run_at IS NULL` for a zero time.
abbrev pub next_is : ℕ → Option ℕ → Bool
next_is expected none = expected == 0
next_is expected (some next) = not (expected == 0) && next == expected

abbrev pub cas_fits : ℕ → AliasCreationSchedule → Bool
cas_fits expected s = s.enabled && next_is expected s.next_run_at

abbrev pub cas_row : List ℕ → ℕ → Bool → AliasCreationSchedule → AliasCreationSchedule
cas_row planned at claims s = record s {
  planned_at = planned;
  next_run_at = first_planned planned;
  updated_at = at;
  last_attempted_at = if claims then some at else s.last_attempted_at;
}

-- The UPDATE of `casAliasCreationPlan` on the row of the account.
abbrev pub cas_found :
    ℕ → ℕ → List ℕ → ℕ → Bool → Tables → Option AliasCreationSchedule → Tables × Bool
cas_found id expected planned at claims t none = (t, false)
cas_found id expected planned at claims t (some s) =
    if cas_fits expected s
    then (
      record t { schedules = update_key (of_account id) (cas_row planned at claims s) t.schedules },
      true,
    )
    else (t, false)

-- `casAliasCreationPlan`
unfoldable pub cas_plan : ℕ → ℕ → List ℕ → ℕ → Bool → Tables → Result Error (Tables × Bool)
cas_plan id expected planned at claims t =
    or_fail (encode_planned planned) planned_time_zero >>= (λ encoded.
      ok (cas_found id expected encoded at claims t (first_where (of_account id) t.schedules)))

-- RescheduleAliasCreation
unfoldable pub reschedule : ℕ → ℕ → List ℕ → ℕ → Tables → Result Error (Tables × Bool)
reschedule id expected planned now t = cas_plan id expected planned now false t

-- ClaimAliasCreation
unfoldable pub claim : ℕ → ℕ → List ℕ → ℕ → Tables → Result Error (Tables × Bool)
claim id expected planned at t = cas_plan id expected planned at true t

abbrev success_row : ℕ → Text → ℕ → AliasCreationSchedule → AliasCreationSchedule
success_row at address now s = record s {
  last_attempted_at = some at;
  last_created_at = some at;
  last_alias_address = trim_space (sanitize_postgres_text address);
  last_error = [];
  updated_at = now;
}

abbrev failure_row : ℕ → Text → ℕ → AliasCreationSchedule → AliasCreationSchedule
failure_row at message now s =
    let message = trim_space (sanitize_postgres_text message) in
    record s {
      last_attempted_at = some at;
      last_error = if ltb 240 (length message) then take 240 message else message;
      updated_at = now;
    }

-- UPDATE … WHERE account_id = ? AND enabled = TRUE, on the row of the account
abbrev pub update_found :
    ℕ
    → (AliasCreationSchedule → AliasCreationSchedule)
    → Tables
    → Option AliasCreationSchedule
    → Result Error Tables
update_found id f t none = err not_found
update_found id f t (some s) =
    if s.enabled
    then ok (record t { schedules = update_key (of_account id) (f s) t.schedules })
    else err not_found

abbrev pub update_enabled :
    ℕ → (AliasCreationSchedule → AliasCreationSchedule) → Tables → Result Error Tables
update_enabled id f t = update_found id f t (first_where (of_account id) t.schedules)

-- RecordAliasCreationSuccess
unfoldable pub record_success : ℕ → ℕ → Text → ℕ → Tables → Result Error Tables
record_success id at address now t = update_enabled id (success_row at address now) t

-- RecordAliasCreationFailure
unfoldable pub record_failure : ℕ → ℕ → Text → ℕ → Tables → Result Error Tables
record_failure id at message now t = update_enabled id (failure_row at message now) t
