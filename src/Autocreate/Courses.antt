-- ===== src/Autocreate/Courses.antt =====
-- The runs of steps that one turn of `processDue` (internal/autocreate/manager.go) may take.
use icloud_api_mangobubu.Base.{
  ℕ, max, ◌≡◌, true, ◌||◌, Option, none, some, List, [], ◌∷◌, ◌++◌, ◌⊎◌, Result, ok, err, Text,
  trim_space,
}
use icloud_api_mangobubu.Store.Creation.{Tables}
use icloud_api_mangobubu.Autocreate.Manager.{CreateError, Turn, Calls, Outcome}
use icloud_api_mangobubu.Autocreate.Manager.{claimed, decide, start, finish}
use icloud_api_mangobubu.Store.Creation.{AliasCreationSchedule, next_or_zero, claim}
use icloud_api_mangobubu.Autocreate.Steps.{
  Attempt, World, claim_of, Step, postpones, claims, begins, cools, ends, turns, records_success,
  records_failure, disables,
}

-- The creation's outcome: an address that is blank is an error.
abbrev pub named : CreateError → Text → Result CreateError Text
named empty [] = err empty
named empty (c ∷ cs) = ok (c ∷ cs)

abbrev pub outcome_of : CreateError → Result CreateError Text → Result CreateError Text
outcome_of empty (err e) = err e
outcome_of empty (ok address) = named empty (trim_space address)

abbrev pub outcome : Calls → ℕ → Result CreateError Text
outcome calls id = outcome_of calls.empty_address (calls.create id)

abbrev pub latest : List ℕ → Option ℕ
latest [] = none
latest (s ∷ ss) = some s

-- What a turn records is what came of its creation: an address or an error, under the time that the
-- creation began; or that the plan of its claim, whose creation has not begun, could not be
-- corrected. It cools down, and switches off, only
-- for an error that asks for it.
abbrev pub IsMeant : (calls : Calls) (u : Turn) (id : ℕ) (w v : World) → Step id w v → Type 0
IsMeant calls u id w v (records_success {t} {attempts} {starts} at now address) =
    (outcome calls id ≡ ok address) × (latest starts ≡ some at)
IsMeant calls u id w v (records_failure {t} {attempts} {starts} at now message) =
    ((e : CreateError) × (outcome calls id ≡ err e)
      × (message ≡ e.message)
      × (latest starts ≡ some at))
    ⊎ ((planned : List ℕ) × (others : List Attempt) × (attempts ≡ claim_of u.now planned ∷ others)
        × (at ≡ u.actual)
        × (message ≡ calls.correction_failed))
IsMeant calls u id w v
      (cools {t} {attempts} {starts} claimed_at at failed_at now planned random o) =
    (e : CreateError) × (outcome calls id ≡ err e) × (e.rate_limited ≡ true)
IsMeant calls u id w v (disables {t} {attempts} {starts} now) =
    (e : CreateError) × (outcome calls id ≡ err e)
    × (e.capacity_reached || e.untracked_side_effect ≡ true)
IsMeant calls u id w v
      (postpones {t} {u = r} {attempts} {starts} {changed} grace now s random planned p d e) =
    Unit {0}
IsMeant calls u id w v (claims {t} {u = r} {attempts} {starts} grace now s random planned p d e) =
    Unit {0}
IsMeant calls u id w v
      (begins {t} {u = r} {attempts} {starts} claimed_at actual planned corrected e) =
    Unit {0}
IsMeant calls u id w v (ends {t} {a} {attempts} {starts}) = Unit {0}
IsMeant calls u id w v (turns {t} {a} {attempts} {starts}) = Unit {0}

-- Steps one after the other, with the records that they are meant to leave.
pub data Runs (calls : Calls) (u : Turn) (id : ℕ) (w : World) : World → Type 0 where
  stay : Runs calls u id w w
  onwards :
      {v x : World}
      → Runs calls u id w v
      → (step : Step id v x) → IsMeant calls u id v x step
      → Runs calls u id w x

abbrev pub world : Tables → List Attempt → List ℕ → World
world t attempts starts = record { tables = t; attempts = attempts; starts = starts }

-- A run to what a turn leaves: no attempt of its own, and the creations that it called as starts.
abbrev pub Turned :
    Calls → Turn → ℕ → (w : World) → (attempts : List Attempt) (starts : List ℕ) → Outcome → Type 0
Turned calls u id w attempts starts (t, called) =
    Runs calls u id w (world t attempts (called ++ starts))

-- A due schedule was claimed for a plan, which stood or was corrected behind the claim.
abbrev pub MayBegin : Turn → AliasCreationSchedule → Tables → Tables → List ℕ → Type 0
MayBegin u s t w corrected =
    (planned : List ℕ) × (v : Tables) × (decide u.grace s u.now u.random ≡ claimed planned)
    × (claim s.account_id (next_or_zero s) planned u.now t ≡ ok (v, true))
    × (start s.account_id planned u.now u.actual v ≡ ok (w, some corrected))

-- Where it may begin, a turn calls the creator once, at the later of its two readings of the clock,
-- and finishes with what comes of it; otherwise it calls nothing.
abbrev pub CallsOnce : Calls → Turn → AliasCreationSchedule → Tables → Outcome → Type 0
CallsOnce calls u s t out =
    ((w : Tables) × (corrected : List ℕ) × MayBegin u s t w corrected
      × (out.1 ≡ max u.now u.actual ∷ [])
      × (out.0
          ≡ finish s.account_id corrected (max u.now u.actual) (calls.create s.account_id) u.ended
              u.cooldown_random calls.empty_address w))
    ⊎ ((out.1 ≡ []) × ¬ ((w : Tables) × (corrected : List ℕ) × MayBegin u s t w corrected))
