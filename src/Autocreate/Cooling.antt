-- ===== src/Autocreate/Cooling.antt =====
-- How a cooldown follows an attempt that Apple refused.
use icloud_api_mangobubu.Base.{
  ℕ, ◌+◌, ◌≤◌, ◌≡◌, ◌⊎◌, inl, inr, refl, sym, ap, ◌∙◌, subst, Bool, true, false, Option, none, some,
  List, [], ◌∷◌, arith, Result-cases, length,
}
use icloud_api_mangobubu.Autocreate.Plan.{
  creations_per_cycle, apple_rate_limit_cooldown, with_first, new_plan_starting_at,
}
use icloud_api_mangobubu.Autocreate.Manager.{kept, cool_down_with, cool_down}
use icloud_api_mangobubu.Store.Creation.{Tables, first_planned, cas_plan, reschedule}
use icloud_api_mangobubu.Autocreate.Swaps.{next_of, Swapped, cas_plan-Swapped}
use icloud_api_mangobubu.Autocreate.Deadlines.{generate_plan-cases}

-- A cooldown changes nothing, or moves the deadline of the attempt beyond the cooldown.
abbrev pub Cooled : ℕ → ℕ → ℕ → Tables → Tables → Type 0
Cooled id first failed_at t u =
    (next_of id u ≡ next_of id t)
    ⊎ ((next_of id t ≡ some first) × (next_of id u ≡ some (failed_at + apple_rate_limit_cooldown)))

first_planned-with_first :
    (first : ℕ) (planned : List ℕ)
    → length planned ≡ creations_per_cycle
    → first_planned (with_first first planned) ≡ some first
first_planned-with_first first [] five = absurd (omega (arith, five))
first_planned-with_first first (d ∷ ds) five = refl

new_plan_starting_at-first :
    (first : ℕ) (random : ℕ → ℕ)
    → (new_plan_starting_at first random ≡ none)
      ⊎ ((planned : List ℕ) × (new_plan_starting_at first random ≡ some planned)
          × (first_planned planned ≡ some first))
unfolding new_plan_starting_at
new_plan_starting_at-first first random =
    let restart : Option (List ℕ) → Option (List ℕ) = λ o. elim o as (λ x. Option (List ℕ)) [
      | none ↦ none
      | some planned ↦ some (with_first first planned)
    ] in
    elim (generate_plan-cases first random) [
      | inl (i, high, e) ↦ inl (ap restart e)
      | inr (planned, e, fills) ↦
          inr
            (with_first first planned, ap restart e, first_planned-with_first first planned fills.0)
    ]

Swapped-Cooled :
    (id first failed_at : ℕ) (planned : List ℕ) (t u : Tables) (changed : Bool)
    → first_planned planned ≡ some (failed_at + apple_rate_limit_cooldown)
    → Swapped id first planned t u changed
    → Cooled id first failed_at t u
Swapped-Cooled id first failed_at planned t u false far same = inl (ap (next_of id) same)
Swapped-Cooled id first failed_at planned t u true far (before, behind) = inr (before, behind ∙ far)

kept-Cooled :
    (id first failed_at now : ℕ) (planned : List ℕ) (t : Tables)
    → 1 ≤ first
    → first_planned planned ≡ some (failed_at + apple_rate_limit_cooldown)
    → Cooled id first failed_at t (kept t (reschedule id first planned now t))
unfolding reschedule
kept-Cooled id first failed_at now planned t positive far =
    elim (Result-cases (cas_plan id first planned now false t)) [
      | inl (r, e) ↦
          subst (λ q. Cooled id first failed_at t (kept t q)) (sym e)
            (Swapped-Cooled id first failed_at planned t r.0 r.1 far
              (cas_plan-Swapped id first planned now false t r.0 r.1 positive e))
      | inr (failure, e) ↦ subst (λ q. Cooled id first failed_at t (kept t q)) (sym e) (inl refl)
    ]

pub cool_down-Cooled :
    (id first failed_at now : ℕ) (random : ℕ → ℕ) (t : Tables)
    → 1 ≤ first
    → Cooled id first failed_at t (cool_down id (some first) failed_at now random t)
unfolding cool_down
cool_down-Cooled id first failed_at now random t positive =
    elim (new_plan_starting_at-first (failed_at + apple_rate_limit_cooldown) random) [
      | inl e ↦
          subst (λ o. Cooled id first failed_at t (cool_down_with id first now t o)) (sym e)
            (inl refl)
      | inr (planned, e, far) ↦
          subst (λ o. Cooled id first failed_at t (cool_down_with id first now t o)) (sym e)
            (kept-Cooled id first failed_at now planned t positive far)
    ]
