-- ===== src/Autocreate/Apart.antt =====
-- The creations of an account begin at least five minutes apart, however its workers interleave.
use icloud_api_mangobubu.Base.{
  ℕ, ◌+◌, max, ◌≤◌, ◌≡◌, inl, inr, sym, ap, subst, true, false, Option, none, some, List, [], ◌∷◌,
  arith, after, All, Pairwise, All-map, All-both,
}
use icloud_api_mangobubu.Autocreate.Plan.{minimum_interval, apple_rate_limit_cooldown}
use icloud_api_mangobubu.Store.Creation.{
  Tables, first_planned, next_or_zero, disable, reschedule, claim,
}
use icloud_api_mangobubu.Autocreate.Manager.{cool_down}
use icloud_api_mangobubu.Autocreate.Decisions.{Sound, decide-Sound, Begins-mono}
use icloud_api_mangobubu.Autocreate.Swaps.{
  next_of, cas_plan-Swapped, record_success-next, record_failure-next, disable-next,
}
use icloud_api_mangobubu.Autocreate.Beginnings.{head, Begins-head, Begins-first, start-Begun}
use icloud_api_mangobubu.Autocreate.Cooling.{Cooled, cool_down-Cooled}
use icloud_api_mangobubu.Autocreate.Steps.{
  Attempt, World, claim_of, begun, Step, postpones, claims, begins, cools, ends, turns,
  records_success, records_failure, disables, Reach, idle, then_step,
}
use icloud_api_mangobubu.Autocreate.Spacing.{
  Apart, Disjoint, Clear, Long, Below, IsSpaced, Long-head,
}
use icloud_api_mangobubu.Autocreate.Started.{begins-IsSpaced}
use icloud_api_mangobubu.Autocreate.Moves.{
  same-IsSpaced, Swapped-IsSpaced, claims-IsSpaced, ends-IsSpaced, turns-IsSpaced, moved-IsSpaced,
  postponed-due, claimed-due, expected_time,
}

-- The deadline after a cooldown is behind the other attempts and starts.
Below-cooled :
    (claimed_at at later : ℕ) (planned : List ℕ) (attempts : List Attempt) (starts : List ℕ)
    → claimed_at ≤ at
    → at + minimum_interval ≤ later
    → All (Clear (begun planned at (claim_of claimed_at planned))) starts
    → All (Disjoint (begun planned at (claim_of claimed_at planned))) attempts
    → All Long attempts
    → Below (some (head planned)) attempts starts
    → Below (some later) attempts starts
Below-cooled claimed_at at later planned attempts starts order far clear disjoint long
      (ahead, early) =
    (
      All-map _ _ attempts
          (λ (a : Attempt) h. elim h.0 [
            | inl after_it ↦
                absurd (let bound = h.1.0 in let wide = Long-head a h.1.1 in omega arith)
            | inr before ↦ omega arith
          ])
          (All-both _ _ attempts disjoint (All-both _ _ attempts ahead long)),
      All-map _ _ starts
          (λ s h. elim h.0 [
            | inl before ↦ omega arith
            | inr after_it ↦ absurd (let bound = h.1 in omega arith)
          ])
          (All-both _ _ starts clear early),
    )

Cooled-IsSpaced :
    (id claimed_at at failed_at : ℕ) (planned : List ℕ) (t u : Tables) (attempts : List Attempt)
    (starts : List ℕ)
    → at ≤ failed_at
    → Cooled id (head planned) failed_at t u
    → IsSpaced id (record {
      tables = t;
      attempts = begun planned at (claim_of claimed_at planned) ∷ attempts;
      starts = starts;
    })
    → IsSpaced id (record { tables = u; attempts = attempts; starts = starts })
Cooled-IsSpaced id claimed_at at failed_at planned t u attempts starts order (inl same) spaced =
    same-IsSpaced id t u attempts starts same (ends-IsSpaced id t _ attempts starts spaced)
Cooled-IsSpaced id claimed_at at failed_at planned t u attempts starts order (inr (before, behind))
      spaced =
    let own =
      subst (λ n. Below n (begun planned at (claim_of claimed_at planned) ∷ attempts) starts) before
        spaced.below in
    let next =
      Below-cooled claimed_at at (failed_at + apple_rate_limit_cooldown) planned attempts starts
        spaced.long.0.1 (omega arith) spaced.clear.0 spaced.disjoint.0 spaced.long.1
        (own.0.1, own.1) in
    moved-IsSpaced id t u attempts starts (subst (λ n. Below n attempts starts) (sym behind) next)
      (ends-IsSpaced id t _ attempts starts spaced)

-- A cooldown of an attempt whose plan is a list with a first deadline.
cools-IsSpaced :
    (id claimed_at at failed_at now : ℕ) (planned : List ℕ) (random : ℕ → ℕ) (t : Tables)
    (attempts : List Attempt) (starts : List ℕ)
    → at ≤ failed_at
    → IsSpaced id (record {
      tables = t;
      attempts = begun planned at (claim_of claimed_at planned) ∷ attempts;
      starts = starts;
    })
    → IsSpaced id (record {
      tables = cool_down id (first_planned planned) failed_at now random t;
      attempts = attempts;
      starts = starts;
    })
cools-IsSpaced id claimed_at at failed_at now planned random t attempts starts order spaced =
    let roomy = spaced.long.0.0 in
    let far = Begins-head _ planned roomy in
    subst
      (λ o. IsSpaced id (record {
        tables = cool_down id o failed_at now random t;
        attempts = attempts;
        starts = starts;
      }))
      (sym (Begins-first _ planned roomy))
      (Cooled-IsSpaced id claimed_at at failed_at planned t _ attempts starts order
        (cool_down-Cooled id (head planned) failed_at now random t (omega arith)) spaced)

Below-disabled :
    (next : Option ℕ) (attempts : List Attempt) (starts : List ℕ)
    → next ≡ none
    → Below next attempts starts
Below-disabled next attempts starts off = subst (λ n. Below n attempts starts) (sym off) tt

disables-IsSpaced :
    (id now : ℕ) (t : Tables) (attempts : List Attempt) (starts : List ℕ)
    → IsSpaced id (record { tables = t; attempts = attempts; starts = starts })
    → IsSpaced id
        (record { tables = after t (disable id now t); attempts = attempts; starts = starts })
disables-IsSpaced id now t attempts starts spaced = elim (disable-next id now t) [
  | inl off ↦ moved-IsSpaced id t _ attempts starts (Below-disabled _ attempts starts off) spaced
  | inr same ↦ same-IsSpaced id t _ attempts starts (ap (next_of id) same) spaced
]

Step-IsSpaced : (id : ℕ) (w v : World) → Step id w v → IsSpaced id w → IsSpaced id v
unfolding reschedule claim
Step-IsSpaced id w v
      (postpones {t} {u} {attempts} {starts} {changed} grace now s random planned positive decided
        went)
      spaced =
    let sound = subst (Sound s.next_run_at now) decided (decide-Sound grace s now random) in
    let (expected, due, reached, roomy) = postponed-due s.next_run_at now planned sound in
    let time = expected_time s expected due in
    Swapped-IsSpaced id (next_or_zero s) planned t u changed attempts starts
      (Begins-mono (next_or_zero s + 1) (now + 1) planned (omega arith) roomy)
      (cas_plan-Swapped id (next_or_zero s) planned now false t u changed positive went) spaced
Step-IsSpaced id w v
      (claims {t} {u} {attempts} {starts} grace now s random planned positive decided went) spaced =
    let sound = subst (Sound s.next_run_at now) decided (decide-Sound grace s now random) in
    let (expected, due, reached, roomy) = claimed-due s.next_run_at now planned sound in
    let time = expected_time s expected due in
    claims-IsSpaced id (next_or_zero s) now planned t u attempts starts (omega arith) roomy
      (cas_plan-Swapped id (next_or_zero s) planned now true t u true positive went) spaced
Step-IsSpaced id w v (begins {t} {u} {attempts} {starts} claimed_at actual planned corrected went)
      spaced =
    begins-IsSpaced id t u claimed_at (max claimed_at actual) planned corrected attempts starts
      (omega arith) (start-Begun id claimed_at actual planned t u corrected spaced.long.0 went)
      spaced
Step-IsSpaced id w v
      (cools {t} {attempts} {starts} claimed_at at failed_at now planned random order) spaced =
    cools-IsSpaced id claimed_at at failed_at now planned random t attempts starts order spaced
Step-IsSpaced id w v (ends {t} {a} {attempts} {starts}) spaced =
    ends-IsSpaced id t a attempts starts spaced
Step-IsSpaced id w v (turns {t} {a} {attempts} {starts}) spaced =
    turns-IsSpaced id t a attempts starts spaced
Step-IsSpaced id w v (records_success {t} {attempts} {starts} at now address) spaced =
    same-IsSpaced id t _ attempts starts (record_success-next id at address now t) spaced
Step-IsSpaced id w v (records_failure {t} {attempts} {starts} at now message) spaced =
    same-IsSpaced id t _ attempts starts (record_failure-next id at message now t) spaced
Step-IsSpaced id w v (disables {t} {attempts} {starts} now) spaced =
    disables-IsSpaced id now t attempts starts spaced

Below-idle : (next : Option ℕ) → Below next [] []
Below-idle none = tt
Below-idle (some next) = (tt, tt)

pub Reach-IsSpaced : (id : ℕ) (w : World) → Reach id w → IsSpaced id w
Reach-IsSpaced id w (idle t) = record {
  apart = tt;
  disjoint = tt;
  clear = tt;
  long = tt;
  below = Below-idle (next_of id t);
}
Reach-IsSpaced id end (then_step {w} {v} reached step) =
    Step-IsSpaced id w v step (Reach-IsSpaced id w reached)

-- While nobody switches an account on anew, any two creations for it begin at least five minutes
-- apart, whichever workers decide on whichever old copies of its schedule and in whatever order
-- their statements take effect, if the clock of one turn does not go back.
pub Reach-Apart : (id : ℕ) (w : World) → Reach id w → Pairwise Apart w.starts
Reach-Apart id w reached = (Reach-IsSpaced id w reached).apart
