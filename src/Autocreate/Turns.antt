-- ===== src/Autocreate/Turns.antt =====
-- One turn of `processDue` is a run of the steps that several workers interleave.
use icloud_api_mangobubu.Base.{
  ℕ, ◌+◌, max, ◌≤◌, ◌≡◌, refl, sym, subst, Bool, true, false, ◌||◌, Option, none, some, List, [],
  ◌∷◌, ◌++◌, inl, inr, if-both, Result, ok, err, after, Text, trim_space,
}
use icloud_api_mangobubu.Autocreate.Plan.{minimum_interval}
use icloud_api_mangobubu.Store.Creation.{
  AliasCreationSchedule, Tables, Error, next_or_zero, reschedule, claim, record_success,
  record_failure,
}
use icloud_api_mangobubu.Autocreate.Manager.{
  Decision, skip, unplanned, postponed, claimed, decide, start, CreateError, kept, finish_failure,
  finish, Turn, Calls, go_on, after_claim, act, process_due,
}
use icloud_api_mangobubu.Autocreate.Decisions.{Begins, Sound, decide-Sound}
use icloud_api_mangobubu.Autocreate.Swaps.{cas_plan-Swapped}
use icloud_api_mangobubu.Autocreate.Beginnings.{start-none}
use icloud_api_mangobubu.Autocreate.Steps.{
  Attempt, World, claim_of, begun, postpones, claims, begins, cools, ends, records_success,
  records_failure, disables,
}
use icloud_api_mangobubu.Autocreate.Moves.{claimed-due}
use icloud_api_mangobubu.Autocreate.Called.{act-CallsOnce}
use icloud_api_mangobubu.Autocreate.Courses.{
  named, outcome_of, outcome, Runs, stay, onwards, world, Turned, CallsOnce,
}

module _ (calls : Calls) (u : Turn) (id : ℕ) (w : World) where
  fail-Runs :
      (corrected : List ℕ) (at : ℕ) (e : CreateError) (t : Tables) (attempts : List Attempt)
      (starts : List ℕ)
      → at ≤ u.ended
      → outcome calls id ≡ err e
      → Runs calls u id w
          (world t (begun corrected at (claim_of u.now corrected) ∷ attempts) (at ∷ starts))
      → Runs calls u id w (
          world
            (finish_failure id corrected at e u.ended u.cooldown_random t)
            attempts
            (at ∷ starts))
  unfolding finish_failure
  fail-Runs corrected at e t attempts starts order came run =
      let recorded =
        onwards run (records_failure at u.ended e.message) (inl (e, came, refl, refl)) in
      let cooled =
        if-both (λ x. Runs calls u id w (world x attempts (at ∷ starts))) e.rate_limited _ _
          (λ limited.
            onwards recorded (cools u.now at u.ended u.ended corrected u.cooldown_random order)
              (e, came, limited))
          (λ other. onwards recorded ends tt) in
      if-both (λ x. Runs calls u id w (world x attempts (at ∷ starts)))
        (e.capacity_reached || e.untracked_side_effect) _ _
        (λ off. onwards cooled (disables u.ended) (e, came, off)) (λ on. cooled)

  -- The result of a creation by the address that it gave.
  named-Runs :
      (corrected : List ℕ) (at : ℕ) (trimmed : Text) (t : Tables) (attempts : List Attempt)
      (starts : List ℕ)
      → at ≤ u.ended
      → outcome calls id ≡ named calls.empty_address trimmed
      → Runs calls u id w
          (world t (begun corrected at (claim_of u.now corrected) ∷ attempts) (at ∷ starts))
      → Runs calls u id w (
          world
            (elim trimmed as (λ x. Tables) [
              | [] ↦ finish_failure id corrected at calls.empty_address u.ended u.cooldown_random t
              | c ∷ cs ↦ after t (record_success id at (c ∷ cs) u.ended t)
            ])
            attempts
            (at ∷ starts))
  named-Runs corrected at [] t attempts starts order came run =
      fail-Runs corrected at calls.empty_address t attempts starts order came run
  named-Runs corrected at (c ∷ cs) t attempts starts order came run =
      onwards (onwards run (records_success at u.ended (c ∷ cs)) (came, refl)) ends tt

  finish-Runs :
      (corrected : List ℕ) (at : ℕ) (made : Result CreateError Text) (t : Tables)
      (attempts : List Attempt) (starts : List ℕ)
      → at ≤ u.ended
      → outcome calls id ≡ outcome_of calls.empty_address made
      → Runs calls u id w
          (world t (begun corrected at (claim_of u.now corrected) ∷ attempts) (at ∷ starts))
      → Runs calls u id w (
          world
            (finish id corrected at made u.ended u.cooldown_random calls.empty_address t)
            attempts
            (at ∷ starts))
  unfolding finish
  finish-Runs corrected at (err e) t attempts starts order came run =
      fail-Runs corrected at e t attempts starts order came run
  finish-Runs corrected at (ok address) t attempts starts order came run =
      named-Runs corrected at (trim_space address) t attempts starts order came run

  -- A plan that is not corrected ends its attempt before the creation.
  uncorrected-Runs :
      (t : Tables) (planned : List ℕ) (attempts : List Attempt) (starts : List ℕ)
      → Runs calls u id w (world t (claim_of u.now planned ∷ attempts) starts)
      → Runs calls u id w (
          world
            (after t (record_failure id u.actual calls.correction_failed u.actual t))
            attempts
            starts)
  uncorrected-Runs t planned attempts starts run =
      onwards
        (onwards run (records_failure u.actual u.actual calls.correction_failed)
          (inr (planned, attempts, refl, refl, refl)))
        ends tt

  go_on-Runs :
      (planned : List ℕ) (t : Tables) (attempts : List Attempt) (starts : List ℕ)
      (r : Result Error (Tables × Option (List ℕ)))
      → Begins (u.now + minimum_interval) planned
      → max u.now u.actual ≤ u.ended
      → start id planned u.now u.actual t ≡ r
      → Runs calls u id w (world t (claim_of u.now planned ∷ attempts) starts)
      → Turned calls u id w attempts starts (go_on calls u id t r)
  go_on-Runs planned t attempts starts (err e) roomy order went run =
      uncorrected-Runs t planned attempts starts run
  go_on-Runs planned t attempts starts (ok (v, none)) roomy order went run =
      uncorrected-Runs v planned attempts starts (
        subst (λ x. Runs calls u id w (world x (claim_of u.now planned ∷ attempts) starts))
          (sym (start-none id u.now u.actual planned t v roomy went)) run)
  go_on-Runs planned t attempts starts (ok (v, some corrected)) roomy order went run =
      finish-Runs corrected (max u.now u.actual) (calls.create id) v attempts starts order refl
        (onwards run (begins u.now u.actual planned corrected went) tt)

missed-claim :
    (s : AliasCreationSchedule) (planned : List ℕ) (u : Turn) (t v : Tables)
    → 1 ≤ next_or_zero s
    → claim s.account_id (next_or_zero s) planned u.now t ≡ ok (v, false)
    → v ≡ t
unfolding claim
missed-claim s planned u t v positive went =
    cas_plan-Swapped s.account_id (next_or_zero s) planned u.now true t v false positive went

claimed-roomy :
    (s : AliasCreationSchedule) (u : Turn) (planned : List ℕ)
    → decide u.grace s u.now u.random ≡ claimed planned
    → Begins (u.now + minimum_interval) planned
claimed-roomy s u planned decided =
    let sound = subst (Sound s.next_run_at u.now) decided (decide-Sound u.grace s u.now u.random) in
    let (expected, due, reached, roomy) = claimed-due s.next_run_at u.now planned sound in roomy

after_claim-Runs :
    (calls : Calls) (u : Turn) (s : AliasCreationSchedule) (planned : List ℕ) (t : Tables)
    (attempts : List Attempt) (starts : List ℕ) (r : Result Error (Tables × Bool))
    → 1 ≤ next_or_zero s
    → max u.now u.actual ≤ u.ended
    → decide u.grace s u.now u.random ≡ claimed planned
    → claim s.account_id (next_or_zero s) planned u.now t ≡ r
    → Turned calls u s.account_id
        (world t attempts starts)
        attempts
        starts
        (after_claim calls u s.account_id planned t r)
after_claim-Runs calls u s planned t attempts starts (err e) positive order decided went = stay
after_claim-Runs calls u s planned t attempts starts (ok (v, false)) positive order decided went =
    subst (λ x. Runs calls u s.account_id (world t attempts starts) (world x attempts starts))
      (sym (missed-claim s planned u t v positive went)) stay
after_claim-Runs calls u s planned t attempts starts (ok (v, true)) positive order decided went =
    go_on-Runs calls u s.account_id (world t attempts starts) planned v attempts starts _
      (claimed-roomy s u planned decided) order refl
      (onwards stay (claims u.grace u.now s u.random planned positive decided went) tt)

kept-Runs :
    (calls : Calls) (u : Turn) (s : AliasCreationSchedule) (planned : List ℕ) (t : Tables)
    (attempts : List Attempt) (starts : List ℕ) (r : Result Error (Tables × Bool))
    → 1 ≤ next_or_zero s
    → decide u.grace s u.now u.random ≡ postponed planned
    → reschedule s.account_id (next_or_zero s) planned u.now t ≡ r
    → Turned calls u s.account_id (world t attempts starts) attempts starts (kept t r, [])
kept-Runs calls u s planned t attempts starts (err e) positive decided went = stay
kept-Runs calls u s planned t attempts starts (ok (v, changed)) positive decided went =
    onwards stay (postpones u.grace u.now s u.random planned positive decided went) tt

act-Runs :
    (calls : Calls) (u : Turn) (s : AliasCreationSchedule) (t : Tables) (attempts : List Attempt)
    (starts : List ℕ) (d : Decision)
    → 1 ≤ next_or_zero s
    → max u.now u.actual ≤ u.ended
    → decide u.grace s u.now u.random ≡ d
    → Turned calls u s.account_id
        (world t attempts starts)
        attempts
        starts
        (act calls u s.account_id (next_or_zero s) t d)
act-Runs calls u s t attempts starts skip positive order decided = stay
act-Runs calls u s t attempts starts unplanned positive order decided = stay
act-Runs calls u s t attempts starts (postponed planned) positive order decided =
    kept-Runs calls u s planned t attempts starts _ positive decided refl
act-Runs calls u s t attempts starts (claimed planned) positive order decided =
    after_claim-Runs calls u s planned t attempts starts _ positive order decided refl

-- A turn of processDue on a schedule with a next deadline, whose clock does not go back, calls the
-- creator once, at the later of its two readings of the clock, exactly if its decision is to claim,
-- the claim takes, and the plan stands or is corrected; it then finishes with what comes of it. The
-- turn is a run of steps of the workers, whose starts are these calls: every success or failure
-- that it records is the outcome of its creation under that time, or that its plan could not be
-- corrected; it cools down and switches off only for an error that asks for it; and it leaves the
-- attempts of the others as they were.
pub process_due-Runs :
    (calls : Calls) (u : Turn) (s : AliasCreationSchedule) (t : Tables) (attempts : List Attempt)
    (starts : List ℕ)
    → 1 ≤ next_or_zero s
    → max u.now u.actual ≤ u.ended
    → CallsOnce calls u s t (process_due calls u s t)
      × Runs calls u s.account_id
          (record { tables = t; attempts = attempts; starts = starts })
          (record {
            tables = (process_due calls u s t).0;
            attempts = attempts;
            starts = (process_due calls u s t).1 ++ starts;
          })
unfolding process_due
process_due-Runs calls u s t attempts starts positive order =
    (act-CallsOnce calls u s t _ refl, act-Runs calls u s t attempts starts _ positive order refl)
