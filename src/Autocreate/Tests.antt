-- ===== src/Autocreate/Tests.antt =====
-- Automatic creation on a concrete schedule.
use icloud_api_mangobubu.Base.{
  ℕ, ◌≡◌, refl, true, false, none, some, List, [], ◌∷◌, ◌++◌, arith, err, Pairwise, codes, is_space,
  is_blank, trim_left, trim_right, trim_space, first_where, update_key, select_where,
}
use icloud_api_mangobubu.Autocreate.Plan.{
  widen, distribute, deadlines, generate_plan, new_plan_starting_at, insert_deadline,
  sort_deadlines, future_plan, spaced_after, valid_plan, postpone, plan_after_claim,
}
use icloud_api_mangobubu.Autocreate.Deadlines.{FillsHour, generate_plan-FillsHour}
use icloud_api_mangobubu.Store.Creation.{
  AliasCreationSchedule, Tables, disable, cas_row, cas_plan, reschedule, claim, record_failure,
}
use icloud_api_mangobubu.Autocreate.Manager.{
  decide, correct_plan_after_claim, start, CreateError, cool_down, finish_failure, finish, Turn,
  Calls, process_due,
}
use icloud_api_mangobubu.Autocreate.Swaps.{next_of}
use icloud_api_mangobubu.Autocreate.Steps.{
  World, claim_of, begun, claims, begins, Reach, idle, then_step,
}
use icloud_api_mangobubu.Autocreate.Spacing.{Apart}
use icloud_api_mangobubu.Autocreate.Apart.{Reach-Apart}
use icloud_api_mangobubu.Autocreate.Turns.{process_due-Runs}
use icloud_api_mangobubu.Autocreate.Courses.{Runs, CallsOnce}
use icloud_api_mangobubu.Store.Encoding.{sanitize_postgres_text, take}

-- The random source that always draws the third bucket.
abbrev third : ℕ → ℕ
third index = 2

plan_after_start :
    generate_plan 0 third
    ≡ some (300000000000 ∷ 600000000000 ∷ 3000000000000 ∷ 3300000000000 ∷ 3600000000000 ∷ [])
unfolding generate_plan distribute widen deadlines
plan_after_start = refl

generate_plan-FillsHour_example :
    (planned : List ℕ) × (generate_plan 1000 third ≡ some planned) × FillsHour 1000 planned
generate_plan-FillsHour_example = generate_plan-FillsHour 1000 third (λ index. omega arith)

-- Three deadlines, ten minutes apart, of which the first is due.
abbrev row : AliasCreationSchedule
row = record {
  account_id = 7;
  enabled = true;
  planned_at = 600000000000 ∷ 1200000000000 ∷ 1800000000000 ∷ [];
  next_run_at = some 600000000000;
  last_attempted_at = none;
  last_created_at = none;
  last_alias_address = [];
  last_error = [];
  created_at = 1;
  updated_at = 1;
}

abbrev first_plan : List ℕ
first_plan = 1200000000000 ∷ 1800000000000 ∷ []

abbrev with_row : AliasCreationSchedule → Tables
with_row r = record { accounts = []; schedules = r ∷ [] }

abbrev claimed_row : AliasCreationSchedule
claimed_row = cas_row first_plan 600000000000 true row

abbrev second_plan : List ℕ
second_plan = 1800000000000 ∷ []

abbrev claimed_again : AliasCreationSchedule
claimed_again = cas_row second_plan 1200000000000 true claimed_row

abbrev corrected_plan : List ℕ
corrected_plan = 1900000000000 ∷ []

abbrev corrected_row : AliasCreationSchedule
corrected_row = cas_row corrected_plan 1600000000000 false claimed_again

-- Two creations: the second one begins late, and its plan is corrected.
abbrev two_starts : World
two_starts = record {
  tables = with_row corrected_row;
  attempts =
      begun corrected_plan 1600000000000 (claim_of 1200000000000 second_plan)
      ∷ begun first_plan 700000000000 (claim_of 600000000000 first_plan)
      ∷ [];
  starts = 1600000000000 ∷ 700000000000 ∷ [];
}

claimed_once : Reach 7 (record {
  tables = with_row claimed_row;
  attempts = claim_of 600000000000 first_plan ∷ [];
  starts = [];
})
unfolding decide plan_after_claim future_plan sort_deadlines insert_deadline select_where valid_plan
    spaced_after postpone claim cas_plan first_where update_key
claimed_once =
    then_step (idle (with_row row))
      (claims 120000000000 600000000000 row third first_plan (omega arith) refl refl)

begun_once : Reach 7 (record {
  tables = with_row claimed_row;
  attempts = begun first_plan 700000000000 (claim_of 600000000000 first_plan) ∷ [];
  starts = 700000000000 ∷ [];
})
unfolding start correct_plan_after_claim
begun_once = then_step claimed_once (begins 600000000000 700000000000 first_plan first_plan refl)

claimed_twice : Reach 7 (record {
  tables = with_row claimed_again;
  attempts =
      claim_of 1200000000000 second_plan
      ∷ begun first_plan 700000000000 (claim_of 600000000000 first_plan)
      ∷ [];
  starts = 700000000000 ∷ [];
})
unfolding decide plan_after_claim future_plan sort_deadlines insert_deadline select_where valid_plan
    spaced_after postpone claim cas_plan first_where update_key
claimed_twice =
    then_step begun_once
      (claims 120000000000 1200000000000 claimed_row third second_plan (omega arith) refl refl)

two_starts-reached : Reach 7 two_starts
unfolding start correct_plan_after_claim postpone reschedule cas_plan first_where update_key
two_starts-reached =
    then_step claimed_twice (begins 1200000000000 1600000000000 second_plan corrected_plan refl)

Reach-Apart_example : Pairwise Apart (1600000000000 ∷ 700000000000 ∷ [])
Reach-Apart_example = Reach-Apart 7 two_starts two_starts-reached

abbrev refused : CreateError
refused = record {
  message = codes "refused";
  rate_limited = true;
  capacity_reached = false;
  untracked_side_effect = false;
}

abbrev calls : Calls
calls = record {
  create = λ id. err refused;
  empty_address = refused;
  correction_failed = codes "conflict";
}

abbrev late_turn : Turn
late_turn = record {
  grace = 120000000000;
  now = 600000000000;
  actual = 1000000000000;
  ended = 1001000000000;
  random = third;
  cooldown_random = third;
}

process_due-Runs_example :
    CallsOnce calls late_turn row (with_row row) (process_due calls late_turn row (with_row row))
    × Runs calls late_turn 7
        (record { tables = with_row row; attempts = []; starts = [] })
        (record {
          tables = (process_due calls late_turn row (with_row row)).0;
          attempts = [];
          starts = (process_due calls late_turn row (with_row row)).1 ++ [];
        })
process_due-Runs_example =
    process_due-Runs calls late_turn row (with_row row) [] [] (omega arith) (omega arith)

-- The refused creation moves the deadline 61 minutes behind its end.
refused_cools : next_of 7 (process_due calls late_turn row (with_row row)).0 ≡ some 4661000000000
unfolding process_due decide plan_after_claim future_plan sort_deadlines insert_deadline
    select_where valid_plan spaced_after postpone claim reschedule cas_plan first_where update_key
    start correct_plan_after_claim finish finish_failure cool_down new_plan_starting_at
    generate_plan distribute widen deadlines record_failure disable sanitize_postgres_text take
    trim_space trim_left trim_right is_blank is_space
refused_cools = refl

-- The creator is called there, once.
refused_begins : (process_due calls late_turn row (with_row row)).1 ≡ 1000000000000 ∷ []
unfolding process_due decide plan_after_claim future_plan sort_deadlines insert_deadline
    select_where valid_plan spaced_after postpone claim reschedule cas_plan first_where update_key
    start correct_plan_after_claim finish finish_failure cool_down new_plan_starting_at
    generate_plan distribute widen deadlines record_failure disable sanitize_postgres_text take
    trim_space trim_left trim_right is_blank is_space
refused_begins = refl
