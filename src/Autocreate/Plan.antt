-- ===== src/Autocreate/Plan.antt =====
-- The plans of internal/autocreate/manager.go: lists of deadlines in nanoseconds. A random source is
-- the function from the number of a draw to its index; an index below 0 is refused as one above 4
-- is, so that the indices are natural numbers.
use icloud_api_mangobubu.Base.{
  ℕ, zero, suc, ◌+◌, ◌-◌, max, Bool, true, false, not, ◌&&◌, Option, none, some, List, [], ◌∷◌, map,
  ltb, leb, if◌then◌else◌, length, select_where,
}

abbrev pub creations_per_cycle : ℕ
creations_per_cycle = 5

abbrev pub minute : ℕ
minute = 60000000000

abbrev pub minimum_interval : ℕ
minimum_interval = 300000000000

abbrev pub cycle_duration : ℕ
cycle_duration = 3600000000000

abbrev pub apple_rate_limit_cooldown : ℕ
apple_rate_limit_cooldown = 3660000000000

-- The minutes of an hour beyond the five minimum intervals.
abbrev pub free_minutes : ℕ
free_minutes = 35

abbrev pub first_gaps : List ℕ
first_gaps =
    minimum_interval ∷ minimum_interval ∷ minimum_interval ∷ minimum_interval ∷ minimum_interval
    ∷ []

-- `gaps[bucket] += time.Minute`
unfoldable pub widen : ℕ → List ℕ → List ℕ
widen bucket [] = []
widen zero (gap ∷ gaps) = (gap + minute) ∷ gaps
widen (suc bucket) (gap ∷ gaps) = gap ∷ widen bucket gaps

-- The loop over the free minutes, from the draw `index` on; `none` is errInvalidRandom.
unfoldable pub distribute : (ℕ → ℕ) → ℕ → ℕ → List ℕ → Option (List ℕ)
distribute random zero index gaps = some gaps
distribute random (suc n) index gaps = elim (ltb (random index) creations_per_cycle) [
  | true ↦ distribute random n (index + 1) (widen (random index) gaps)
  | false ↦ none
]

unfoldable pub deadlines : ℕ → List ℕ → List ℕ
deadlines next [] = []
deadlines next (gap ∷ gaps) = (next + gap) ∷ deadlines (next + gap) gaps

-- `generatePlan`
unfoldable pub generate_plan : ℕ → (ℕ → ℕ) → Option (List ℕ)
generate_plan anchor random = elim (distribute random free_minutes 0 first_gaps) [
  | none ↦ none
  | some gaps ↦ some (deadlines anchor gaps)
]

abbrev pub with_first : ℕ → List ℕ → List ℕ
with_first first [] = []
with_first first (deadline ∷ planned) = first ∷ planned

-- `newPlanStartingAt`
unfoldable pub new_plan_starting_at : ℕ → (ℕ → ℕ) → Option (List ℕ)
new_plan_starting_at first random = elim (generate_plan first random) [
  | none ↦ none
  | some planned ↦ some (with_first first planned)
]

unfoldable pub insert_deadline : ℕ → List ℕ → List ℕ
insert_deadline d [] = d ∷ []
insert_deadline d (e ∷ es) =
    let rest = insert_deadline d es in if leb d e then d ∷ e ∷ es else e ∷ rest

-- `sort.Slice`
unfoldable pub sort_deadlines : List ℕ → List ℕ
sort_deadlines [] = []
sort_deadlines (d ∷ ds) = insert_deadline d (sort_deadlines ds)

-- `futurePlan`
unfoldable pub future_plan : List ℕ → ℕ → List ℕ
future_plan planned expected = sort_deadlines (select_where (ltb expected) planned)

-- `futurePlanIncludingCurrent`
unfoldable pub future_plan_including_current : List ℕ → ℕ → List ℕ
future_plan_including_current planned expected =
    sort_deadlines (select_where (leb expected) planned)

-- The loop of `validPlan` behind a deadline.
unfoldable pub spaced_after : ℕ → List ℕ → Bool
spaced_after previous [] = true
spaced_after previous (d ∷ ds) = leb (previous + minimum_interval) d && spaced_after d ds

-- `validPlan`
unfoldable pub valid_plan : List ℕ → Bool
valid_plan [] = true
valid_plan (d ∷ ds) = spaced_after d ds

-- Every deadline later by the time that the first one misses `earliest` by.
unfoldable pub postpone : ℕ → List ℕ → List ℕ
postpone earliest [] = []
postpone earliest (d ∷ ds) =
    if ltb d earliest then map (λ e. e + (earliest - d)) (d ∷ ds) else d ∷ ds

abbrev pub has_deadline : List ℕ → Bool
has_deadline [] = false
has_deadline (d ∷ ds) = true

-- `planAfterClaim`
unfoldable pub plan_after_claim : List ℕ → ℕ → ℕ → (ℕ → ℕ) → Option (List ℕ)
plan_after_claim planned expected attempted random =
    let remaining = future_plan planned expected in
    if has_deadline remaining
      && (not (ltb (creations_per_cycle - 1) (length remaining)) && valid_plan remaining)
    then some (postpone (attempted + minimum_interval) remaining)
    else generate_plan (max expected attempted) random

-- `shiftCurrentPlan`
unfoldable pub shift_current_plan : List ℕ → ℕ → ℕ → (ℕ → ℕ) → Option (List ℕ)
shift_current_plan planned expected earliest random =
    let current = future_plan_including_current planned expected in
    if has_deadline current
      && (not (ltb creations_per_cycle (length current)) && valid_plan current)
    then some (postpone earliest current)
    else generate_plan (earliest - minimum_interval) random
