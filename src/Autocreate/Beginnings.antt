-- ===== src/Autocreate/Beginnings.antt =====
-- How a creation begins after its claim.
use icloud_api_mangobubu.Base.{
  ℕ, ◌+◌, max, ◌≤◌, ◌≡◌, ◌⊎◌, inl, inr, refl, sym, ap, ◌∙◌, subst, Bool, true, false, Option, none,
  some, List, [], ◌∷◌, arith, ltb, if◌then◌else◌, ltb→lt, Bool-cases, if-eq_true, if-eq_false,
  ltb-false, Result, ok, ok-injective, >>=-eq-ok,
}
use icloud_api_mangobubu.Autocreate.Plan.{minimum_interval}
use icloud_api_mangobubu.Autocreate.Manager.{correct_plan_after_claim, start}
use icloud_api_mangobubu.Store.Creation.{Tables, Error, first_planned, reschedule}
use icloud_api_mangobubu.Autocreate.Decisions.{Begins, postpone-Begins}
use icloud_api_mangobubu.Autocreate.Swaps.{next_of, cas_plan-Swapped}

abbrev pub head : List ℕ → ℕ
head [] = 0
head (d ∷ ds) = d

pub Begins-head :
    (earliest : ℕ) (planned : List ℕ) → Begins earliest planned → earliest ≤ head planned
Begins-head earliest [] b = absurd b
Begins-head earliest (d ∷ ds) b = b

pub Begins-first :
    (earliest : ℕ) (planned : List ℕ)
    → Begins earliest planned
    → first_planned planned ≡ some (head planned)
Begins-first earliest [] b = absurd b
Begins-first earliest (d ∷ ds) b = refl

-- The plan stays, since it leaves five minutes; or the deadline was still the one of the claim, and
-- the corrected plan leaves them.
abbrev pub Begun : ℕ → ℕ → List ℕ → ℕ → Tables → Tables → List ℕ → Type 0
Begun id claimed_at planned at t u corrected =
    ((u ≡ t) × (corrected ≡ planned) × Begins (at + minimum_interval) planned)
    ⊎ ((next_of id t ≡ some (head planned))
        × (next_of id u ≡ some (head corrected))
        × Begins (at + minimum_interval) corrected)

-- The result of the correction, by the answer of its comparison.
abbrev answer : List ℕ → Tables × Bool → Tables × Option (List ℕ)
answer shifted p = (p.0, if p.1 then some shifted else none)

plan_or_nil : Option (List ℕ) → List ℕ
plan_or_nil none = []
plan_or_nil (some planned) = planned

shifted-Begun :
    (id claimed_at actual first : ℕ) (rest shifted : List ℕ) (t u : Tables) (corrected : List ℕ)
    (p : Tables × Bool)
    → 1 ≤ first
    → Begins (actual + minimum_interval) shifted
    → reschedule id first shifted actual t ≡ ok p
    → answer shifted p ≡ (u, some corrected)
    → Begun id claimed_at (first ∷ rest) actual t u corrected
unfolding reschedule plan_or_nil
shifted-Begun id claimed_at actual first rest shifted t u corrected (v, false) positive far went e =
    absurd (let gone = ap (λ r. r.1) e in ground arith)
shifted-Begun id claimed_at actual first rest shifted t u corrected (v, true) positive far went e =
    let (before, behind) = cas_plan-Swapped id first shifted actual false t v true positive went in
    let same_tables = ap (λ r. r.0) e in
    let same_plan = ap (λ r. plan_or_nil r.1) e in
    inr (
      before,
      ap (next_of id) (sym same_tables)
          ∙ behind
          ∙ Begins-first _ shifted far
          ∙ ap (λ q. some (head q)) same_plan,
      subst (Begins (actual + minimum_interval)) same_plan far,
    )

kept-Begun :
    (id claimed_at at : ℕ) (planned : List ℕ) (t u : Tables) (corrected : List ℕ)
    → Begins (at + minimum_interval) planned
    → ◌≡◌ {A = Result Error (Tables × Option (List ℕ))}
        (ok (t, some planned))
        (ok (u, some corrected))
    → Begun id claimed_at planned at t u corrected
unfolding plan_or_nil
kept-Begun id claimed_at at planned t u corrected far e =
    let same = ok-injective _ _ e in
    inl (sym (ap (λ r. r.0) same), sym (ap (λ r. plan_or_nil r.1) same), far)

corrected-Begun :
    (id claimed_at actual : ℕ) (planned : List ℕ) (t u : Tables) (corrected : List ℕ)
    → Begins (claimed_at + minimum_interval) planned
    → correct_plan_after_claim id planned actual t ≡ ok (u, some corrected)
    → Begun id claimed_at planned actual t u corrected
unfolding correct_plan_after_claim
corrected-Begun id claimed_at actual [] t u corrected begins e = absurd begins
corrected-Begun id claimed_at actual (first ∷ rest) t u corrected begins e =
    elim (Bool-cases (ltb first (actual + minimum_interval))) [
      | inl late ↦
          let (p, went, out) =
            >>=-eq-ok _ _ (sym (if-eq_true (ltb first (actual + minimum_interval)) _ _ late) ∙ e) in
          shifted-Begun id claimed_at actual first rest _ t u corrected p (omega arith)
            (postpone-Begins (actual + minimum_interval) (first ∷ rest) refl) went
            (ok-injective _ _ out)
      | inr far ↦
          kept-Begun id claimed_at actual (first ∷ rest) t u corrected (ltb-false _ _ far)
            (sym (if-eq_false (ltb first (actual + minimum_interval)) _ _ far) ∙ e)
    ]

pub start-Begun :
    (id claimed_at actual : ℕ) (planned : List ℕ) (t u : Tables) (corrected : List ℕ)
    → Begins (claimed_at + minimum_interval) planned
    → start id planned claimed_at actual t ≡ ok (u, some corrected)
    → Begun id claimed_at planned (max claimed_at actual) t u corrected
unfolding start
start-Begun id claimed_at actual planned t u corrected begins e =
    elim (Bool-cases (ltb claimed_at actual)) [
      | inl later ↦
          let before = ltb→lt claimed_at actual later in
          subst (λ at. Begun id claimed_at planned at t u corrected) (omega arith)
            (corrected-Begun id claimed_at actual planned t u corrected begins
              (sym (if-eq_true (ltb claimed_at actual) _ _ later) ∙ e))
      | inr at_once ↦
          let before = ltb-false claimed_at actual at_once in
          subst (λ at. Begun id claimed_at planned at t u corrected) (omega arith)
            (kept-Begun id claimed_at claimed_at planned t u corrected begins
              (sym (if-eq_false (ltb claimed_at actual) _ _ at_once) ∙ e))
    ]

shifted-none :
    (id actual first : ℕ) (shifted : List ℕ) (t u : Tables) (p : Tables × Bool)
    → 1 ≤ first
    → reschedule id first shifted actual t ≡ ok p
    → answer shifted p ≡ (u, none)
    → u ≡ t
unfolding reschedule
shifted-none id actual first shifted t u (v, true) positive went e =
    absurd (let gone = ap (λ r. r.1) e in ground arith)
shifted-none id actual first shifted t u (v, false) positive went e =
    sym (ap (λ r. r.0) e) ∙ cas_plan-Swapped id first shifted actual false t v false positive went

kept-some :
    (planned : List ℕ) (t u : Tables)
    → ◌≡◌ {A = Result Error (Tables × Option (List ℕ))} (ok (t, some planned)) (ok (u, none))
    → u ≡ t
kept-some planned t u e = absurd (let gone = ap (λ r. r.1) (ok-injective _ _ e) in ground arith)

corrected-none :
    (id claimed_at actual : ℕ) (planned : List ℕ) (t u : Tables)
    → Begins (claimed_at + minimum_interval) planned
    → correct_plan_after_claim id planned actual t ≡ ok (u, none)
    → u ≡ t
unfolding correct_plan_after_claim
corrected-none id claimed_at actual [] t u roomy e = absurd roomy
corrected-none id claimed_at actual (first ∷ rest) t u roomy e =
    elim (Bool-cases (ltb first (actual + minimum_interval))) [
      | inl late ↦
          let (p, went, out) =
            >>=-eq-ok _ _ (sym (if-eq_true (ltb first (actual + minimum_interval)) _ _ late) ∙ e) in
          shifted-none id actual first _ t u p (omega arith) went (ok-injective _ _ out)
      | inr far ↦
          kept-some (first ∷ rest) t u
            (sym (if-eq_false (ltb first (actual + minimum_interval)) _ _ far) ∙ e)
    ]

-- A correction that finds another deadline changes nothing.
pub start-none :
    (id claimed_at actual : ℕ) (planned : List ℕ) (t u : Tables)
    → Begins (claimed_at + minimum_interval) planned
    → start id planned claimed_at actual t ≡ ok (u, none)
    → u ≡ t
unfolding start
start-none id claimed_at actual planned t u roomy e = elim (Bool-cases (ltb claimed_at actual)) [
  | inl later ↦
      corrected-none id claimed_at actual planned t u roomy
        (sym (if-eq_true (ltb claimed_at actual) _ _ later) ∙ e)
  | inr at_once ↦ kept-some planned t u (sym (if-eq_false (ltb claimed_at actual) _ _ at_once) ∙ e)
]
