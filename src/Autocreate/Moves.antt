-- ===== src/Autocreate/Moves.antt =====
-- What the other statements of the workers keep of the distance between attempts.
use icloud_api_mangobubu.Base.{
  ℕ, ◌+◌, ◌≤◌, ◌≡◌, inl, inr, refl, sym, ap, ◌∙◌, subst, Bool, true, false, Option, none, some,
  List, [], ◌∷◌, ◌++◌, arith, All-append, Pairwise-rotate,
}
use icloud_api_mangobubu.Autocreate.Plan.{minimum_interval}
use icloud_api_mangobubu.Store.Creation.{AliasCreationSchedule, Tables, next_or_zero}
use icloud_api_mangobubu.Autocreate.Manager.{postponed, claimed}
use icloud_api_mangobubu.Autocreate.Decisions.{Begins, Sound}
use icloud_api_mangobubu.Autocreate.Swaps.{next_of, Swapped}
use icloud_api_mangobubu.Autocreate.Beginnings.{head, Begins-head, Begins-first}
use icloud_api_mangobubu.Autocreate.Steps.{Attempt, claim_of}
use icloud_api_mangobubu.Autocreate.Spacing.{
  Disjoint, Long, Below, IsSpaced, Below-mono, claim-Disjoint, claim-Clear,
}

-- Other tables with a deadline that is as far.
pub moved-IsSpaced :
    (id : ℕ) (t u : Tables) (attempts : List Attempt) (starts : List ℕ)
    → Below (next_of id u) attempts starts
    → IsSpaced id (record { tables = t; attempts = attempts; starts = starts })
    → IsSpaced id (record { tables = u; attempts = attempts; starts = starts })
moved-IsSpaced id t u attempts starts below spaced = record {
  apart = spaced.apart;
  disjoint = spaced.disjoint;
  clear = spaced.clear;
  long = spaced.long;
  below = below;
}

pub same-IsSpaced :
    (id : ℕ) (t u : Tables) (attempts : List Attempt) (starts : List ℕ)
    → next_of id u ≡ next_of id t
    → IsSpaced id (record { tables = t; attempts = attempts; starts = starts })
    → IsSpaced id (record { tables = u; attempts = attempts; starts = starts })
same-IsSpaced id t u attempts starts same spaced =
    moved-IsSpaced id t u attempts starts
      (subst (λ n. Below n attempts starts) (sym same) spaced.below) spaced

pub postponed-due :
    (next : Option ℕ) (now : ℕ) (planned : List ℕ)
    → Sound next now (postponed planned)
    → (expected : ℕ) × (next ≡ some expected) × (expected ≤ now) × Begins (now + 1) planned
postponed-due none now planned sound = absurd sound
postponed-due (some expected) now planned (due, roomy) = (expected, refl, due, roomy)

pub claimed-due :
    (next : Option ℕ) (now : ℕ) (planned : List ℕ)
    → Sound next now (claimed planned)
    → (expected : ℕ) × (next ≡ some expected)
      × (expected ≤ now)
      × Begins (now + minimum_interval) planned
claimed-due none now planned sound = absurd sound
claimed-due (some expected) now planned (due, roomy) = (expected, refl, due, roomy)

pub expected_time :
    (s : AliasCreationSchedule) (expected : ℕ)
    → s.next_run_at ≡ some expected
    → next_or_zero s ≡ expected
expected_time s expected e =
    ap (λ (o : Option ℕ). elim o as (λ x. ℕ) [ none ↦ 0 | some next ↦ next ]) e

pub Swapped-IsSpaced :
    (id expected : ℕ) (planned : List ℕ) (t u : Tables) (changed : Bool) (attempts : List Attempt)
    (starts : List ℕ)
    → Begins (expected + 1) planned
    → Swapped id expected planned t u changed
    → IsSpaced id (record { tables = t; attempts = attempts; starts = starts })
    → IsSpaced id (record { tables = u; attempts = attempts; starts = starts })
Swapped-IsSpaced id expected planned t u false attempts starts roomy same spaced =
    same-IsSpaced id t u attempts starts (ap (next_of id) same) spaced
Swapped-IsSpaced id expected planned t u true attempts starts roomy (before, behind) spaced =
    let far = Begins-head _ planned roomy in
    let old = subst (λ n. Below n attempts starts) before spaced.below in
    moved-IsSpaced id t u attempts starts
      (subst (λ n. Below n attempts starts) (sym (behind ∙ Begins-first _ planned roomy))
        (Below-mono expected (head planned) attempts starts (omega arith) old))
      spaced

pub claims-IsSpaced :
    (id expected now : ℕ) (planned : List ℕ) (t u : Tables) (attempts : List Attempt)
    (starts : List ℕ)
    → expected ≤ now
    → Begins (now + minimum_interval) planned
    → Swapped id expected planned t u true
    → IsSpaced id (record { tables = t; attempts = attempts; starts = starts })
    → IsSpaced id
        (record { tables = u; attempts = claim_of now planned ∷ attempts; starts = starts })
claims-IsSpaced id expected now planned t u attempts starts due roomy (before, behind) spaced =
    let far = Begins-head _ planned roomy in
    let old = subst (λ n. Below n attempts starts) before spaced.below in
    let (ahead, early) = Below-mono expected (head planned) attempts starts (omega arith) old in
    let next : Below (some (head planned)) (claim_of now planned ∷ attempts) starts =
      ((omega arith, ahead), early) in
    record {
      apart = spaced.apart;
      disjoint = (claim-Disjoint now expected planned attempts starts due old, spaced.disjoint);
      clear = (claim-Clear now expected planned attempts starts due old, spaced.clear);
      long = (roomy, spaced.long);
      below =
          subst (λ n. Below n (claim_of now planned ∷ attempts) starts)
            (sym (behind ∙ Begins-first _ planned roomy)) next;
    }

Below-drop :
    (next : Option ℕ) (a : Attempt) (attempts : List Attempt) (starts : List ℕ)
    → Below next (a ∷ attempts) starts
    → Below next attempts starts
Below-drop none a attempts starts below = tt
Below-drop (some next) a attempts starts (ahead, early) = (ahead.1, early)

pub ends-IsSpaced :
    (id : ℕ) (t : Tables) (a : Attempt) (attempts : List Attempt) (starts : List ℕ)
    → IsSpaced id (record { tables = t; attempts = a ∷ attempts; starts = starts })
    → IsSpaced id (record { tables = t; attempts = attempts; starts = starts })
ends-IsSpaced id t a attempts starts spaced = record {
  apart = spaced.apart;
  disjoint = spaced.disjoint.1;
  clear = spaced.clear.1;
  long = spaced.long.1;
  below = Below-drop (next_of id t) a attempts starts spaced.below;
}

Below-turn :
    (next : Option ℕ) (a : Attempt) (attempts : List Attempt) (starts : List ℕ)
    → Below next (a ∷ attempts) starts
    → Below next (attempts ++ a ∷ []) starts
Below-turn none a attempts starts below = tt
Below-turn (some next) a attempts starts (ahead, early) =
    (All-append _ attempts (a ∷ []) ahead.1 (ahead.0, tt), early)

Disjoint-sym : (a b : Attempt) → Disjoint a b → Disjoint b a
Disjoint-sym a b (inl h) = inr h
Disjoint-sym a b (inr h) = inl h

pub turns-IsSpaced :
    (id : ℕ) (t : Tables) (a : Attempt) (attempts : List Attempt) (starts : List ℕ)
    → IsSpaced id (record { tables = t; attempts = a ∷ attempts; starts = starts })
    → IsSpaced id (record { tables = t; attempts = attempts ++ a ∷ []; starts = starts })
turns-IsSpaced id t a attempts starts spaced = record {
  apart = spaced.apart;
  disjoint = Pairwise-rotate Disjoint a attempts Disjoint-sym spaced.disjoint.0 spaced.disjoint.1;
  clear = All-append _ attempts (a ∷ []) spaced.clear.1 (spaced.clear.0, tt);
  long = All-append Long attempts (a ∷ []) spaced.long.1 (spaced.long.0, tt);
  below = Below-turn (next_of id t) a attempts starts spaced.below;
}
