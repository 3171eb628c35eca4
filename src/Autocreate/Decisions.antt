-- ===== src/Autocreate/Decisions.antt =====
-- What the manager decides on a due schedule: the next deadline is always ahead.
use icloud_api_mangobubu.Base.{
  ℕ, ◌+◌, ◌-◌, max, ◌≤◌, ◌≡◌, inl, inr, refl, sym, subst, Bool, true, false, not, ◌&&◌, ◌||◌,
  Option, none, some, List, [], ◌∷◌, arith, ltb, if◌then◌else◌, ltb→lt, if-both, ltb-false,
}
use icloud_api_mangobubu.Autocreate.Plan.{
  minimum_interval, generate_plan, future_plan, future_plan_including_current, spaced_after,
  has_deadline, postpone, plan_after_claim, shift_current_plan,
}
use icloud_api_mangobubu.Autocreate.Deadlines.{FillsHour, generate_plan-cases}
use icloud_api_mangobubu.Autocreate.Manager.{
  Decision, skip, unplanned, postponed, claimed, postponed_to, claimed_for, decide_due, decide_at,
  decide,
}
use icloud_api_mangobubu.Store.Creation.{AliasCreationSchedule}

-- The plan begins, not before `earliest`.
abbrev pub Begins : ℕ → List ℕ → Type 0
Begins earliest [] = ⊥
Begins earliest (d ∷ ds) = earliest ≤ d

pub Begins-mono :
    (earliest later : ℕ) (planned : List ℕ)
    → earliest ≤ later
    → Begins later planned
    → Begins earliest planned
Begins-mono earliest later [] h b = b
Begins-mono earliest later (d ∷ ds) h b = omega (arith, h, b)

abbrev pub Planned : ℕ → Option (List ℕ) → Type 0
Planned earliest none = Unit
Planned earliest (some planned) = Begins earliest planned

pub Planned-mono :
    (earliest later : ℕ) (planned : Option (List ℕ))
    → earliest ≤ later
    → Planned later planned
    → Planned earliest planned
Planned-mono earliest later none h b = tt
Planned-mono earliest later (some planned) h b = Begins-mono earliest later planned h b

and-left : (a b : Bool) → a && b ≡ true → a ≡ true
and-left true b h = refl
and-left false b h = h

FillsHour-Begins :
    (anchor : ℕ) (planned : List ℕ)
    → FillsHour anchor planned
    → Begins (anchor + minimum_interval) planned
unfolding spaced_after
FillsHour-Begins anchor [] (five, spaced, last) = absurd (omega (arith, five))
FillsHour-Begins anchor (d ∷ ds) (five, spaced, last) = ground arith

pub generate_plan-Planned :
    (anchor : ℕ) (random : ℕ → ℕ)
    → Planned (anchor + minimum_interval) (generate_plan anchor random)
generate_plan-Planned anchor random = elim (generate_plan-cases anchor random) [
  | inl (i, high, e) ↦ subst (Planned (anchor + minimum_interval)) (sym e) tt
  | inr (planned, e, fills) ↦
      subst (Planned (anchor + minimum_interval)) (sym e) (FillsHour-Begins anchor planned fills)
]

pub postpone-Begins :
    (earliest : ℕ) (planned : List ℕ)
    → has_deadline planned ≡ true
    → Begins earliest (postpone earliest planned)
unfolding postpone
postpone-Begins earliest [] h = absurd (ground arith)
postpone-Begins earliest (d ∷ ds) h =
    if-both (Begins earliest) (ltb d earliest) _ _
      (λ late. let before = ltb→lt d earliest late in omega arith) (λ due. ltb-false d earliest due)

-- A plan that goes on, or else a new one.
rest_or_new-Planned :
    (earliest : ℕ) (remaining : List ℕ) (fits : Bool) (new : Option (List ℕ))
    → Planned earliest new
    → Planned earliest
        (if has_deadline remaining && fits then some (postpone earliest remaining) else new)
rest_or_new-Planned earliest remaining fits new p =
    if-both (Planned earliest) (has_deadline remaining && fits) _ _
      (λ kept. postpone-Begins earliest remaining (and-left (has_deadline remaining) fits kept))
      (λ other. p)

plan_after_claim-Planned :
    (planned : List ℕ) (expected attempted : ℕ) (random : ℕ → ℕ)
    → Planned (attempted + minimum_interval) (plan_after_claim planned expected attempted random)
unfolding plan_after_claim
plan_after_claim-Planned planned expected attempted random =
    rest_or_new-Planned (attempted + minimum_interval) (future_plan planned expected) _ _ (
      Planned-mono (attempted + minimum_interval) (max expected attempted + minimum_interval) _
        (omega arith) (generate_plan-Planned (max expected attempted) random))

shift_current_plan-Planned :
    (planned : List ℕ) (expected earliest : ℕ) (random : ℕ → ℕ)
    → minimum_interval ≤ earliest
    → Planned earliest (shift_current_plan planned expected earliest random)
unfolding shift_current_plan
shift_current_plan-Planned planned expected earliest random late =
    rest_or_new-Planned earliest (future_plan_including_current planned expected) _ _ (
      Planned-mono earliest (earliest - minimum_interval + minimum_interval) _ (omega (arith, late))
        (generate_plan-Planned (earliest - minimum_interval) random))

-- The deadline that a decision is about has passed, and its plan begins later.
abbrev pub Sound : Option ℕ → ℕ → Decision → Type 0
Sound next now skip = Unit
Sound next now unplanned = Unit
Sound none now (postponed planned) = ⊥
Sound none now (claimed planned) = ⊥
Sound (some expected) now (postponed planned) = (expected ≤ now) × Begins (now + 1) planned
Sound (some expected) now (claimed planned) =
    (expected ≤ now) × Begins (now + minimum_interval) planned

claimed_for-Sound :
    (expected now : ℕ) (planned : Option (List ℕ))
    → expected ≤ now
    → Planned (now + minimum_interval) planned
    → Sound (some expected) now (claimed_for planned)
claimed_for-Sound expected now none due p = tt
claimed_for-Sound expected now (some planned) due p = (due, p)

postponed_to-Sound :
    (expected now : ℕ) (planned : Option (List ℕ))
    → expected ≤ now
    → Planned (now + 1) planned
    → Sound (some expected) now (postponed_to planned)
postponed_to-Sound expected now none due p = tt
postponed_to-Sound expected now (some planned) due p = (due, p)

decide_due-Sound :
    (s : AliasCreationSchedule) (expected now : ℕ) (random : ℕ → ℕ) (attempted : Option ℕ)
    → expected ≤ now
    → Sound (some expected) now (decide_due s expected now random attempted)
decide_due-Sound s expected now random none due =
    claimed_for-Sound expected now _ due (plan_after_claim-Planned s.planned_at expected now random)
decide_due-Sound s expected now random (some attempted) due =
    if-both (Sound (some expected) now) (ltb now (attempted + minimum_interval)) _ _
      (λ early. postponed_to-Sound expected now _ due (
        Planned-mono (now + 1) (attempted + minimum_interval) _
          (let e = ltb→lt now _ early in omega arith)
          (shift_current_plan-Planned s.planned_at expected (attempted + minimum_interval) random
            (omega arith))))
      (λ later.
        claimed_for-Sound expected now _ due
          (plan_after_claim-Planned s.planned_at expected now random))

decide_at-Sound :
    (grace : ℕ) (s : AliasCreationSchedule) (now : ℕ) (random : ℕ → ℕ) (next : Option ℕ)
    → Sound next now (decide_at grace s now random next)
decide_at-Sound grace s now random none = tt
decide_at-Sound grace s now random (some expected) =
    if-both (Sound (some expected) now) (ltb now expected) _ _ (λ early. tt)
      (λ reached.
        let due = ltb-false now expected reached in
        if-both (Sound (some expected) now) (ltb grace (now - expected)) _ _
          (λ overdue. postponed_to-Sound expected now _ due (
            Planned-mono (now + 1) (now + minimum_interval) _ (omega arith)
              (generate_plan-Planned now random)))
          (λ fresh. decide_due-Sound s expected now random s.last_attempted_at due))

pub decide-Sound :
    (grace : ℕ) (s : AliasCreationSchedule) (now : ℕ) (random : ℕ → ℕ)
    → Sound s.next_run_at now (decide grace s now random)
unfolding decide
decide-Sound grace s now random =
    if-both (Sound s.next_run_at now) (not s.enabled || ltb s.account_id 1) _ _ (λ off. tt)
      (λ on. decide_at-Sound grace s now random s.next_run_at)
