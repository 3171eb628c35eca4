-- ===== src/Autocreate/Swaps.antt =====
-- What the statements on a schedule do to the next deadline of an account.
use icloud_api_mangobubu.Base.{
  ℕ, ◌≤◌, ◌≡◌, ◌⊎◌, inl, inr, refl, sym, ap, ◌∙◌, subst, Bool, true, false, ◌&&◌, Option, none,
  some, List, [], ◌∷◌, arith, ltb, ◌==◌, if◌then◌else◌, Option-cases, if-eq_true, if-eq_false,
  if-both, Result, ok, ◌>>◌, require, after, ok-injective, or_fail-inv, Text, first_where,
  update_key, update_where, first_where-update_key_self, first_where-key,
}
use icloud_api_mangobubu.Store.Creation.{
  AliasCreationSchedule, Tables, Error, account_id_not_positive, planned_time_zero, of_account,
  encode_planned, first_planned, disable, next_is, cas_fits, cas_row, cas_found, update_enabled,
  update_found, disabled_row, cas_plan, record_success, record_failure,
}

abbrev live_deadline : AliasCreationSchedule → Option ℕ
live_deadline s = if s.enabled then s.next_run_at else none

abbrev deadline_of : Option AliasCreationSchedule → Option ℕ
deadline_of none = none
deadline_of (some s) = live_deadline s

-- The next deadline of an account that is switched on.
abbrev pub next_of : ℕ → Tables → Option ℕ
next_of id t = deadline_of (first_where (of_account id) t.schedules)

encode_planned-same :
    (planned encoded : List ℕ) → encode_planned planned ≡ some encoded → encoded ≡ planned
encode_planned-same [] encoded e = ground arith
encode_planned-same (d ∷ ds) encoded e = elim (Option-cases (encode_planned ds)) [
  | inl stopped ↦ absurd (ground arith)
  | inr (es, went) ↦ let same = encode_planned-same ds es went in grind arith
]

-- What the comparison leads to: nothing, or the deadline changes from the expected one to the
-- first of the plan.
abbrev pub Swapped : ℕ → ℕ → List ℕ → Tables → Tables → Bool → Type 0
Swapped id expected planned t u false = u ≡ t
Swapped id expected planned t u true =
    (next_of id t ≡ some expected) × (next_of id u ≡ first_planned planned)

next_is-same :
    (expected : ℕ) (next : Option ℕ)
    → 1 ≤ expected
    → next_is expected next ≡ true
    → next ≡ some expected
next_is-same expected none positive fits = absurd (ground arith)
next_is-same expected (some next) positive fits = ap some (ground arith)

and-inv : (a b : Bool) → a && b ≡ true → (a ≡ true) × (b ≡ true)
and-inv true b h = (refl, h)
and-inv false b h = absurd (ground arith)

cas_fits-deadline :
    (expected : ℕ) (s : AliasCreationSchedule)
    → 1 ≤ expected
    → cas_fits expected s ≡ true
    → (s.enabled ≡ true) × (live_deadline s ≡ some expected)
cas_fits-deadline expected s positive fits =
    let (on, same) = and-inv s.enabled (next_is expected s.next_run_at) fits in
    (
      on,
      if-eq_true s.enabled s.next_run_at none on
          ∙ next_is-same expected s.next_run_at positive same,
    )

swap_row :
    (id expected : ℕ) (planned : List ℕ) (at : ℕ) (claims : Bool) (t : Tables)
    (s : AliasCreationSchedule)
    → 1 ≤ expected
    → first_where (of_account id) t.schedules ≡ some s
    → cas_fits expected s ≡ true
    → Swapped id expected planned t
        (record t {
          schedules = update_key (of_account id) (cas_row planned at claims s) t.schedules;
        })
        true
swap_row id expected planned at claims t s positive found fits =
    let (on, same) = cas_fits-deadline expected s positive fits in
    let own = first_where-key (of_account id) t.schedules found in
    let after =
      first_where-update_key_self (of_account id) (cas_row planned at claims s) t.schedules found
        own in
    (
      ap deadline_of found ∙ same,
      ap deadline_of after ∙ if-eq_true s.enabled (first_planned planned) none on,
    )

cas_found-Swapped :
    (id expected : ℕ) (planned : List ℕ) (at : ℕ) (claims : Bool) (t : Tables)
    (o : Option AliasCreationSchedule)
    → 1 ≤ expected
    → first_where (of_account id) t.schedules ≡ o
    → let r = cas_found id expected planned at claims t o in Swapped id expected planned t r.0 r.1
cas_found-Swapped id expected planned at claims t none positive found = refl
cas_found-Swapped id expected planned at claims t (some s) positive found =
    if-both (λ (r : Tables × Bool). Swapped id expected planned t r.0 r.1) (cas_fits expected s) _ _
      (λ fits. swap_row id expected planned at claims t s positive found fits) (λ other. refl)

pub cas_plan-Swapped :
    (id expected : ℕ) (planned : List ℕ) (at : ℕ) (claims : Bool) (t u : Tables) (changed : Bool)
    → 1 ≤ expected
    → cas_plan id expected planned at claims t ≡ ok (u, changed)
    → Swapped id expected planned t u changed
unfolding cas_plan
cas_plan-Swapped id expected planned at claims t u changed positive e =
    let (encoded, went, done) = or_fail-inv (encode_planned planned) planned_time_zero _ e in
    let swapped = cas_found-Swapped id expected encoded at claims t _ positive refl in
    let result =
      subst (λ (r : Tables × Bool). Swapped id expected encoded t r.0 r.1) (ok-injective _ _ done)
        swapped in
    subst (λ p. Swapped id expected p t u changed) (encode_planned-same planned encoded went) result

update_found-next :
    (id : ℕ) (f : AliasCreationSchedule → AliasCreationSchedule) (t : Tables)
    (o : Option AliasCreationSchedule)
    → ((s : AliasCreationSchedule)
        → (live_deadline (f s) ≡ live_deadline s) × ((f s).account_id ≡ s.account_id))
    → first_where (of_account id) t.schedules ≡ o
    → next_of id (after t (update_found id f t o)) ≡ next_of id t
update_found-next id f t none kept found = refl
update_found-next id f t (some s) kept found =
    if-both (λ (r : Result Error Tables). next_of id (after t r) ≡ next_of id t) s.enabled _ _
      (λ on.
        let own = first_where-key (of_account id) t.schedules found in
        let after_it =
          first_where-update_key_self (of_account id) (f s) t.schedules found
            (ap (λ n. n == id) (kept s).1 ∙ own) in
        ap deadline_of after_it ∙ (kept s).0 ∙ sym (ap deadline_of found))
      (λ off. refl)

update_enabled-next :
    (id : ℕ) (f : AliasCreationSchedule → AliasCreationSchedule) (t : Tables)
    → ((s : AliasCreationSchedule)
        → (live_deadline (f s) ≡ live_deadline s) × ((f s).account_id ≡ s.account_id))
    → next_of id (after t (update_enabled id f t)) ≡ next_of id t
update_enabled-next id f t kept = update_found-next id f t _ kept refl

pub record_success-next :
    (id at : ℕ) (address : Text) (now : ℕ) (t : Tables)
    → next_of id (after t (record_success id at address now t)) ≡ next_of id t
unfolding record_success
record_success-next id at address now t = update_enabled-next id _ t (λ s. (refl, refl))

pub record_failure-next :
    (id at : ℕ) (message : Text) (now : ℕ) (t : Tables)
    → next_of id (after t (record_failure id at message now t)) ≡ next_of id t
unfolding record_failure
record_failure-next id at message now t = update_enabled-next id _ t (λ s. (refl, refl))

first_where-disabled :
    (id now : ℕ) (rows : List AliasCreationSchedule)
    → deadline_of
        (first_where (of_account id) (update_where (of_account id) (disabled_row now) rows))
      ≡ none
unfolding first_where update_where
first_where-disabled id now [] = refl
first_where-disabled id now (s ∷ rows) =
    let rest = first_where-disabled id now rows in
    let later : Option AliasCreationSchedule =
      first_where (of_account id) (update_where (of_account id) (disabled_row now) rows) in
    let choose : AliasCreationSchedule → Option ℕ =
      λ r. deadline_of (if of_account id r then some r else later) in
    if-both (λ r. choose r ≡ none) (of_account id s) (disabled_row now s) s
      (λ own.
        if-both (λ o. deadline_of o ≡ none) (of_account id s) _ _ (λ found. refl) (λ other. rest))
      (λ foreign. ap deadline_of (if-eq_false (of_account id s) (some s) later foreign) ∙ rest)

after-require :
    (b : Bool) (e : Error) (t u : Tables)
    → (after t (require b e >> ok u) ≡ u) ⊎ (after t (require b e >> ok u) ≡ t)
after-require true e t u = inl refl
after-require false e t u = inr refl

-- Switching off leaves no deadline, or an account that is no account as it was.
pub disable-next :
    (id now : ℕ) (t : Tables)
    → (next_of id (after t (disable id now t)) ≡ none) ⊎ (after t (disable id now t) ≡ t)
unfolding disable
disable-next id now t = elim (after-require (ltb 0 id) account_id_not_positive t _) [
  | inl off ↦ inl (ap (next_of id) off ∙ first_where-disabled id now t.schedules)
  | inr same ↦ inr same
]
