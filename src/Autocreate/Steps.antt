-- ===== src/Autocreate/Steps.antt =====
-- The statements of several workers on the schedule of one account, in any order that their
-- transactions commit in. A schedule that a worker decides on may be an old one. Nothing here
-- switches the account on anew.
use icloud_api_mangobubu.Base.{
  ℕ, max, ◌≤◌, ◌≡◌, Bool, true, Option, none, some, List, [], ◌∷◌, ◌++◌, ok, after, Text,
}
use icloud_api_mangobubu.Autocreate.Manager.{postponed, claimed, decide, start, cool_down}
use icloud_api_mangobubu.Store.Creation.{
  AliasCreationSchedule, Tables, first_planned, next_or_zero, disable, reschedule, claim,
  record_success, record_failure,
}

-- A claim of the schedule, and the time that its creation began.
pub record Attempt : Type 0 where
  pub claimed_at : ℕ
  pub planned : List ℕ
  pub started_at : Option ℕ

pub record World : Type 0 where
  pub tables : Tables
  pub attempts : List Attempt
  pub starts : List ℕ

abbrev pub claim_of : ℕ → List ℕ → Attempt
claim_of now planned = record { claimed_at = now; planned = planned; started_at = none }

abbrev pub begun : List ℕ → ℕ → Attempt → Attempt
begun planned at a = record a { planned = planned; started_at = some at }

-- A step of a worker on the schedule of the account `id`.
pub data Step (id : ℕ) : World → World → Type 0 where
  -- An overdue deadline, or one too close to the last attempt, is put off.
  postpones :
      {t u : Tables} {attempts : List Attempt} {starts : List ℕ} {changed : Bool} (grace now : ℕ)
      (s : AliasCreationSchedule) (random : ℕ → ℕ) (planned : List ℕ)
      → 1 ≤ next_or_zero s
      → decide grace s now random ≡ postponed planned
      → reschedule id (next_or_zero s) planned now t ≡ ok (u, changed)
      → Step id
          (record { tables = t; attempts = attempts; starts = starts })
          (record { tables = u; attempts = attempts; starts = starts })
  -- A due deadline is claimed.
  claims :
      {t u : Tables} {attempts : List Attempt} {starts : List ℕ} (grace now : ℕ)
      (s : AliasCreationSchedule) (random : ℕ → ℕ) (planned : List ℕ)
      → 1 ≤ next_or_zero s
      → decide grace s now random ≡ claimed planned
      → claim id (next_or_zero s) planned now t ≡ ok (u, true)
      → Step id
          (record { tables = t; attempts = attempts; starts = starts })
          (record { tables = u; attempts = claim_of now planned ∷ attempts; starts = starts })
  -- After the claim the clock is read again, the plan corrected, and the creation begins.
  begins :
      {t u : Tables} {attempts : List Attempt} {starts : List ℕ} (claimed_at actual : ℕ)
      (planned corrected : List ℕ)
      → start id planned claimed_at actual t ≡ ok (u, some corrected)
      → Step id
          (record {
            tables = t;
            attempts = claim_of claimed_at planned ∷ attempts;
            starts = starts;
          })
          (record {
            tables = u;
            attempts =
                begun corrected (max claimed_at actual) (claim_of claimed_at planned) ∷ attempts;
            starts = max claimed_at actual ∷ starts;
          })
  -- Apple refused for its rate, after the creation began.
  cools :
      {t : Tables} {attempts : List Attempt} {starts : List ℕ} (claimed_at at failed_at now : ℕ)
      (planned : List ℕ) (random : ℕ → ℕ)
      → at ≤ failed_at
      → Step id
          (record {
            tables = t;
            attempts = begun planned at (claim_of claimed_at planned) ∷ attempts;
            starts = starts;
          })
          (record {
            tables = cool_down id (first_planned planned) failed_at now random t;
            attempts = attempts;
            starts = starts;
          })
  -- An attempt ends, by its correction that failed, its success or a failure.
  ends :
      {t : Tables} {a : Attempt} {attempts : List Attempt} {starts : List ℕ}
      → Step id
          (record { tables = t; attempts = a ∷ attempts; starts = starts })
          (record { tables = t; attempts = attempts; starts = starts })
  -- Another worker goes on.
  turns :
      {t : Tables} {a : Attempt} {attempts : List Attempt} {starts : List ℕ}
      → Step id
          (record { tables = t; attempts = a ∷ attempts; starts = starts })
          (record { tables = t; attempts = attempts ++ a ∷ []; starts = starts })
  records_success :
      {t : Tables} {attempts : List Attempt} {starts : List ℕ} (at now : ℕ) (address : Text)
      → Step id
          (record { tables = t; attempts = attempts; starts = starts })
          (record {
            tables = after t (record_success id at address now t);
            attempts = attempts;
            starts = starts;
          })
  records_failure :
      {t : Tables} {attempts : List Attempt} {starts : List ℕ} (at now : ℕ) (message : Text)
      → Step id
          (record { tables = t; attempts = attempts; starts = starts })
          (record {
            tables = after t (record_failure id at message now t);
            attempts = attempts;
            starts = starts;
          })
  disables :
      {t : Tables} {attempts : List Attempt} {starts : List ℕ} (now : ℕ)
      → Step id
          (record { tables = t; attempts = attempts; starts = starts })
          (record { tables = after t (disable id now t); attempts = attempts; starts = starts })

-- What workers reach from tables in which none of them is at work.
pub data Reach (id : ℕ) : World → Type 0 where
  idle : (t : Tables) → Reach id (record { tables = t; attempts = []; starts = [] })
  then_step : {w v : World} → Reach id w → Step id w v → Reach id v
