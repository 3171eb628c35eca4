-- ===== src/Autocreate/Started.antt =====
-- A creation that begins stays apart from the other attempts and starts.
use icloud_api_mangobubu.Base.{
  ℕ, ◌+◌, ◌≤◌, inl, inr, sym, subst, Option, none, some, List, ◌∷◌, arith, All, Pairwise, All-map,
  All-both,
}
use icloud_api_mangobubu.Autocreate.Plan.{minimum_interval}
use icloud_api_mangobubu.Store.Creation.{Tables}
use icloud_api_mangobubu.Autocreate.Decisions.{Begins}
use icloud_api_mangobubu.Autocreate.Swaps.{next_of}
use icloud_api_mangobubu.Autocreate.Beginnings.{head, Begins-head, Begun}
use icloud_api_mangobubu.Autocreate.Steps.{Attempt, claim_of, begun}
use icloud_api_mangobubu.Autocreate.Spacing.{
  Apart, Disjoint, Clear, Long, Below, IsSpaced, Long-head, Settled, Settled-Apart, Settled-begun,
  Settled-others,
}

-- A correction whose comparison succeeds finds every other attempt and start behind the claim.
shifted-Settled :
    (claimed_at at : ℕ) (planned corrected : List ℕ) (attempts : List Attempt) (starts : List ℕ)
    → claimed_at ≤ at
    → at + minimum_interval ≤ head corrected
    → All (Clear (claim_of claimed_at planned)) starts
    → All (Disjoint (claim_of claimed_at planned)) attempts
    → All Long attempts
    → Below (some (head planned)) attempts starts
    → Settled claimed_at at corrected attempts starts
      × Below (some (head corrected)) attempts starts
shifted-Settled claimed_at at planned corrected attempts starts order far clear disjoint long
      (ahead, early) =
    let past =
      All-map _ (λ s. s + minimum_interval ≤ claimed_at) starts
        (λ s h. elim h.0 [
          | inl before ↦ before
          | inr later ↦ absurd (let ahead = h.1 in omega arith)
        ])
        (All-both _ _ starts clear early) in
    let older =
      All-map _ (λ (a : Attempt). head a.planned ≤ claimed_at) attempts
        (λ (a : Attempt) h. elim h.0 [
          | inl later ↦ absurd (let ahead = h.1.0 in let wide = Long-head a h.1.1 in omega arith)
          | inr before ↦ before
        ])
        (All-both _ _ attempts disjoint (All-both _ _ attempts ahead long)) in
    (
      record {
        order = order;
        far = far;
        clear = All-map _ _ starts (λ s h. inl h) past;
        disjoint = All-map _ _ attempts (λ a h. inr h) older;
      },
      (
        All-map _ _ attempts (λ a h. omega arith) older,
        All-map _ _ starts (λ s h. omega arith) past,
      ),
    )

Settled-IsSpaced :
    (id : ℕ) (t : Tables) (claimed_at at : ℕ) (planned : List ℕ) (attempts : List Attempt)
    (starts : List ℕ)
    → Begins (at + minimum_interval) planned
    → Settled claimed_at at planned attempts starts
    → Pairwise Apart starts
    → Pairwise Disjoint attempts
    → All (λ a. All (Clear a) starts) attempts
    → All Long attempts
    → Below (next_of id t) (begun planned at (claim_of claimed_at planned) ∷ attempts) (at ∷ starts)
    → IsSpaced id (record {
      tables = t;
      attempts = begun planned at (claim_of claimed_at planned) ∷ attempts;
      starts = at ∷ starts;
    })
Settled-IsSpaced id t claimed_at at planned attempts starts roomy settled apart disjoint clear long
      below =
    record {
      apart = (Settled-Apart claimed_at at planned attempts starts settled, apart);
      disjoint = (settled.disjoint, disjoint);
      clear = (
        Settled-begun claimed_at at planned attempts starts settled,
        Settled-others claimed_at at planned attempts starts settled long clear,
      );
      long = ((roomy, settled.order), long);
      below = below;
    }

-- The next deadline after a start whose plan stays.
Below-begun :
    (next : Option ℕ) (claimed_at at : ℕ) (planned : List ℕ) (attempts : List Attempt)
    (starts : List ℕ)
    → at + minimum_interval ≤ head planned
    → Below next (claim_of claimed_at planned ∷ attempts) starts
    → Below next (begun planned at (claim_of claimed_at planned) ∷ attempts) (at ∷ starts)
Below-begun none claimed_at at planned attempts starts far below = tt
Below-begun (some next) claimed_at at planned attempts starts far (ahead, early) =
    let own = ahead.0 in (ahead, (omega arith, early))

pub begins-IsSpaced :
    (id : ℕ) (t u : Tables) (claimed_at at : ℕ) (planned corrected : List ℕ)
    (attempts : List Attempt) (starts : List ℕ)
    → claimed_at ≤ at
    → Begun id claimed_at planned at t u corrected
    → IsSpaced id
        (record { tables = t; attempts = claim_of claimed_at planned ∷ attempts; starts = starts })
    → IsSpaced id (record {
      tables = u;
      attempts = begun corrected at (claim_of claimed_at planned) ∷ attempts;
      starts = at ∷ starts;
    })
begins-IsSpaced id t u claimed_at at planned corrected attempts starts order
      (inl (same, kept, roomy)) spaced =
    let far = Begins-head _ planned roomy in
    let settled : Settled claimed_at at planned attempts starts = record {
      order = order;
      far = far;
      clear = spaced.clear.0;
      disjoint = spaced.disjoint.0;
    } in
    let below = Below-begun (next_of id t) claimed_at at planned attempts starts far spaced.below in
    subst
      (λ q. IsSpaced id (record {
        tables = u;
        attempts = begun q at (claim_of claimed_at planned) ∷ attempts;
        starts = at ∷ starts;
      }))
      (sym kept)
      (Settled-IsSpaced id u claimed_at at planned attempts starts roomy settled spaced.apart
        spaced.disjoint.1 spaced.clear.1 spaced.long.1
        (subst
          (λ v.
            Below (next_of id v) (begun planned at (claim_of claimed_at planned) ∷ attempts)
              (at ∷ starts))
          (sym same) below))
begins-IsSpaced id t u claimed_at at planned corrected attempts starts order
      (inr (before, behind, roomy)) spaced =
    let far = Begins-head _ corrected roomy in
    let (own, rest) =
      (subst (λ n. Below n (claim_of claimed_at planned ∷ attempts) starts) before spaced.below) in
    let (settled, below) =
      shifted-Settled claimed_at at planned corrected attempts starts order far spaced.clear.0
        spaced.disjoint.0 spaced.long.1 (own.1, rest) in
    let next : Below (some (head corrected))
        (begun corrected at (claim_of claimed_at planned) ∷ attempts) (at ∷ starts) =
      ((omega arith, below.0), (far, below.1)) in
    Settled-IsSpaced id u claimed_at at corrected attempts starts roomy settled spaced.apart
      spaced.disjoint.1 spaced.clear.1 spaced.long.1
      (subst
        (λ n. Below n (begun corrected at (claim_of claimed_at planned) ∷ attempts) (at ∷ starts))
        (sym behind) next)
