-- ===== src/Autocreate/Deadlines.antt =====
-- The plans that the manager makes: five deadlines in the hour after their anchor, at least five
-- minutes apart.
use icloud_api_mangobubu.Base.{
  ℕ, zero, suc, ◌+◌, ◌*◌, ◌≤◌, ◌<◌, ◌≡◌, ◌⊎◌, inl, inr, refl, sym, ap, ◌∙◌, subst, Bool, true,
  false, Option, none, some, List, [], ◌∷◌, arith, ltb, ltb→lt, Bool-cases, ltb-false, length,
}
use icloud_api_mangobubu.Autocreate.Plan.{
  creations_per_cycle, minute, minimum_interval, cycle_duration, free_minutes, first_gaps, widen,
  distribute, deadlines, generate_plan, spaced_after,
}

abbrev total : List ℕ → ℕ
total [] = 0
total (gap ∷ gaps) = gap + total gaps

-- Every gap is long enough.
abbrev Wide : List ℕ → Type 0
Wide [] = Unit
Wide (gap ∷ gaps) = (minimum_interval ≤ gap) × Wide gaps

length-widen : (bucket : ℕ) (gaps : List ℕ) → length (widen bucket gaps) ≡ length gaps
unfolding widen
length-widen bucket [] = refl
length-widen zero (gap ∷ gaps) = refl
length-widen (suc bucket) (gap ∷ gaps) = ap suc (length-widen bucket gaps)

total-widen :
    (bucket : ℕ) (gaps : List ℕ)
    → bucket < length gaps
    → total (widen bucket gaps) ≡ minute + total gaps
unfolding widen
total-widen bucket [] h = absurd (omega arith)
total-widen zero (gap ∷ gaps) h = omega arith
total-widen (suc bucket) (gap ∷ gaps) h =
    let rest = total-widen bucket gaps (omega arith) in omega arith

widen-Wide : (bucket : ℕ) (gaps : List ℕ) → Wide gaps → Wide (widen bucket gaps)
unfolding widen
widen-Wide bucket [] w = w
widen-Wide zero (gap ∷ gaps) w = (omega (arith, w.0), w.1)
widen-Wide (suc bucket) (gap ∷ gaps) w = (w.0, widen-Wide bucket gaps w.1)

-- Gaps that are long enough and share the free minutes among them.
abbrev Shared : ℕ → List ℕ → List ℕ → Type 0
Shared n gaps result =
    (length result ≡ length gaps) × Wide result × (total result ≡ n * minute + total gaps)

Shared-widen :
    (n bucket : ℕ) (gaps result : List ℕ)
    → bucket < length gaps
    → Shared n (widen bucket gaps) result
    → Shared (suc n) gaps result
Shared-widen n bucket gaps result inside (same, wide, sum) =
    let wider = total-widen bucket gaps inside in
    (same ∙ length-widen bucket gaps, wide, ground arith)

-- Gaps are shared out, or a draw is out of range.
distribute-cases :
    (random : ℕ → ℕ) (n index : ℕ) (gaps : List ℕ)
    → length gaps ≡ creations_per_cycle
    → Wide gaps
    → ((i : ℕ) × (creations_per_cycle ≤ random i) × (distribute random n index gaps ≡ none))
      ⊎ ((result : List ℕ) × (distribute random n index gaps ≡ some result) × Shared n gaps result)
unfolding distribute
distribute-cases random zero index gaps five wide = inr (gaps, refl, (refl, wide, omega arith))
distribute-cases random (suc n) index gaps five wide =
    let bucket = random index in
    let rest =
      distribute-cases random n (index + 1) (widen bucket gaps) (length-widen bucket gaps ∙ five)
        (widen-Wide bucket gaps wide) in
    let branch : Bool → Option (List ℕ) = λ b. elim b as (λ x. Option (List ℕ)) [
      | true ↦ distribute random n (index + 1) (widen bucket gaps)
      | false ↦ none
    ] in
    elim (Bool-cases (ltb bucket creations_per_cycle)) [
      | inr out ↦ inl (index, ltb-false bucket creations_per_cycle out, ap branch out)
      | inl drawn ↦ elim rest [
        | inl (i, high, stopped) ↦ inl (i, high, ap branch drawn ∙ stopped)
        | inr (result, e, shared) ↦ inr (
          result,
          ap branch drawn ∙ e,
          Shared-widen n bucket gaps result
              (subst (λ m. bucket < m) (sym five) (ltb→lt bucket creations_per_cycle drawn)) shared,
        )
      ]
    ]

length-deadlines : (anchor : ℕ) (gaps : List ℕ) → length (deadlines anchor gaps) ≡ length gaps
unfolding deadlines
length-deadlines anchor [] = refl
length-deadlines anchor (gap ∷ gaps) = ap suc (length-deadlines (anchor + gap) gaps)

spaced_after-deadlines :
    (anchor : ℕ) (gaps : List ℕ) → Wide gaps → spaced_after anchor (deadlines anchor gaps) ≡ true
unfolding deadlines spaced_after
spaced_after-deadlines anchor [] wide = refl
spaced_after-deadlines anchor (gap ∷ gaps) wide =
    let rest = spaced_after-deadlines (anchor + gap) gaps wide.1 in let far = wide.0 in ground arith

-- The last deadline, or the anchor where there is none.
abbrev pub final : ℕ → List ℕ → ℕ
final anchor [] = anchor
final anchor (d ∷ ds) = final d ds

final-deadlines :
    (anchor : ℕ) (gaps : List ℕ) → final anchor (deadlines anchor gaps) ≡ anchor + total gaps
unfolding deadlines
final-deadlines anchor [] = omega arith
final-deadlines anchor (gap ∷ gaps) = let rest = final-deadlines (anchor + gap) gaps in omega arith

-- Five deadlines, each at least five minutes after the one before it and the first after the anchor,
-- and the last one an hour after it.
abbrev pub FillsHour : ℕ → List ℕ → Type 0
FillsHour anchor planned =
    (length planned ≡ creations_per_cycle)
    × (spaced_after anchor planned ≡ true)
    × (final anchor planned ≡ anchor + cycle_duration)

deadlines-FillsHour :
    (anchor : ℕ) (gaps : List ℕ)
    → Shared free_minutes first_gaps gaps
    → FillsHour anchor (deadlines anchor gaps)
deadlines-FillsHour anchor gaps (same, wide, sum) = (
  length-deadlines anchor gaps ∙ same,
  spaced_after-deadlines anchor gaps wide,
  final-deadlines anchor gaps ∙ ap (λ n. anchor + n) sum,
)

pub generate_plan-cases :
    (anchor : ℕ) (random : ℕ → ℕ)
    → ((i : ℕ) × (creations_per_cycle ≤ random i) × (generate_plan anchor random ≡ none))
      ⊎ ((planned : List ℕ) × (generate_plan anchor random ≡ some planned)
          × FillsHour anchor planned)
unfolding generate_plan
generate_plan-cases anchor random =
    let plan_of : Option (List ℕ) → Option (List ℕ) = λ o. elim o as (λ x. Option (List ℕ)) [
      | none ↦ none
      | some gaps ↦ some (deadlines anchor gaps)
    ] in
    let least : minimum_interval ≤ minimum_interval = omega arith in
    elim (distribute-cases random free_minutes 0 first_gaps refl
      (least, (least, (least, (least, (least, tt)))))) [
        | inl (i, high, e) ↦ inl (i, high, ap plan_of e)
        | inr (gaps, e, shared) ↦
            inr (deadlines anchor gaps, ap plan_of e, deadlines-FillsHour anchor gaps shared)
      ]

-- With draws in range a plan is made at every anchor: five deadlines, each at least five minutes
-- after the one before it and the first after the anchor, and the last one an hour after it.
pub generate_plan-FillsHour :
    (anchor : ℕ) (random : ℕ → ℕ)
    → ((i : ℕ) → random i < creations_per_cycle)
    → (planned : List ℕ) × (generate_plan anchor random ≡ some planned) × FillsHour anchor planned
generate_plan-FillsHour anchor random drawn = elim (generate_plan-cases anchor random) [
  | inl (i, high, e) ↦ absurd (let low = drawn i in omega arith)
  | inr made ↦ made
]
