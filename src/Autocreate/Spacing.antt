-- ===== src/Autocreate/Spacing.antt =====
-- What keeps the attempts of several workers apart.
use icloud_api_mangobubu.Base.{
  ℕ, ◌+◌, ◌≤◌, ◌⊎◌, inl, inr, Option, none, some, List, ◌∷◌, arith, All, Pairwise, All-map,
  All-both,
}
use icloud_api_mangobubu.Autocreate.Plan.{minimum_interval}
use icloud_api_mangobubu.Autocreate.Decisions.{Begins}
use icloud_api_mangobubu.Autocreate.Swaps.{next_of}
use icloud_api_mangobubu.Autocreate.Beginnings.{head, Begins-head}
use icloud_api_mangobubu.Autocreate.Steps.{Attempt, World, claim_of, begun}

-- At least five minutes between two times.
abbrev pub Apart : ℕ → ℕ → Type 0
Apart s t = (s + minimum_interval ≤ t) ⊎ (t + minimum_interval ≤ s)

-- One of the attempts claimed only after the first deadline of the other.
abbrev pub Disjoint : Attempt → Attempt → Type 0
Disjoint a b = (head a.planned ≤ b.claimed_at) ⊎ (head b.planned ≤ a.claimed_at)

-- A start long before a claim, or before the creation of the attempt.
abbrev pub Behind : ℕ → Option ℕ → ℕ → Type 0
Behind claimed_at none s = s + minimum_interval ≤ claimed_at
Behind claimed_at (some at) s = s ≤ at

abbrev pub Clear : Attempt → ℕ → Type 0
Clear a s = Behind a.claimed_at a.started_at s ⊎ (head a.planned ≤ s)

-- The deadline of an attempt leaves five minutes.
abbrev pub LongFrom : ℕ → Option ℕ → List ℕ → Type 0
LongFrom claimed_at none planned = Begins (claimed_at + minimum_interval) planned
LongFrom claimed_at (some at) planned = Begins (at + minimum_interval) planned × (claimed_at ≤ at)

abbrev pub Long : Attempt → Type 0
Long a = LongFrom a.claimed_at a.started_at a.planned

-- The next deadline is behind those of the attempts, and five minutes behind every start.
abbrev pub Below : Option ℕ → List Attempt → List ℕ → Type 0
Below none attempts starts = Unit
Below (some next) attempts starts =
    All (λ (a : Attempt). head a.planned ≤ next) attempts
    × All (λ s. s + minimum_interval ≤ next) starts

pub record IsSpaced (id : ℕ) (w : World) : Type 0 where
  pub apart : Pairwise Apart w.starts
  pub disjoint : Pairwise Disjoint w.attempts
  pub clear : All (λ a. All (Clear a) w.starts) w.attempts
  pub long : All Long w.attempts
  pub below : Below (next_of id w.tables) w.attempts w.starts

LongFrom-head :
    (claimed_at : ℕ) (started_at : Option ℕ) (planned : List ℕ)
    → LongFrom claimed_at started_at planned
    → claimed_at + minimum_interval ≤ head planned
LongFrom-head claimed_at none planned b = Begins-head _ planned b
LongFrom-head claimed_at (some at) planned (b, order) =
    let far = Begins-head _ planned b in omega arith

pub Long-head : (a : Attempt) → Long a → a.claimed_at + minimum_interval ≤ head a.planned
Long-head a long = LongFrom-head a.claimed_at a.started_at a.planned long

-- A later deadline is behind everything that an earlier one is behind.
pub Below-mono :
    (next later : ℕ) (attempts : List Attempt) (starts : List ℕ)
    → next ≤ later
    → Below (some next) attempts starts
    → Below (some later) attempts starts
Below-mono next later attempts starts order (ahead, early) =
    (All-map _ _ attempts (λ a h. omega arith) ahead, All-map _ _ starts (λ s h. omega arith) early)

-- A claim after every deadline.
pub claim-Disjoint :
    (claimed_at next : ℕ) (planned : List ℕ) (attempts : List Attempt) (starts : List ℕ)
    → next ≤ claimed_at
    → Below (some next) attempts starts
    → All (Disjoint (claim_of claimed_at planned)) attempts
claim-Disjoint claimed_at next planned attempts starts due (ahead, early) =
    All-map _ _ attempts (λ a h. inr (omega arith)) ahead

pub claim-Clear :
    (claimed_at next : ℕ) (planned : List ℕ) (attempts : List Attempt) (starts : List ℕ)
    → next ≤ claimed_at
    → Below (some next) attempts starts
    → All (Clear (claim_of claimed_at planned)) starts
claim-Clear claimed_at next planned attempts starts due (ahead, early) =
    All-map _ _ starts (λ s h. inl (omega arith)) early

-- What holds of a creation that begins at `at` after its claim.
pub record Settled (claimed_at at : ℕ) (planned : List ℕ) (attempts : List Attempt)
    (starts : List ℕ) : Type 0 where
  pub order : claimed_at ≤ at
  pub far : at + minimum_interval ≤ head planned
  pub clear : All (Clear (claim_of claimed_at planned)) starts
  pub disjoint : All (Disjoint (claim_of claimed_at planned)) attempts

pub Settled-Apart :
    (claimed_at at : ℕ) (planned : List ℕ) (attempts : List Attempt) (starts : List ℕ)
    → Settled claimed_at at planned attempts starts
    → All (Apart at) starts
Settled-Apart claimed_at at planned attempts starts settled =
    let order = settled.order in
    let far = settled.far in
    All-map _ _ starts
      (λ s h. elim h [ inl early ↦ inr (omega arith) | inr late ↦ inl (omega arith) ]) settled.clear

pub Settled-begun :
    (claimed_at at : ℕ) (planned : List ℕ) (attempts : List Attempt) (starts : List ℕ)
    → Settled claimed_at at planned attempts starts
    → All (Clear (begun planned at (claim_of claimed_at planned))) (at ∷ starts)
Settled-begun claimed_at at planned attempts starts settled =
    let order = settled.order in
    (
      inl (omega arith),
      All-map _ _ starts (λ s h. elim h [ inl early ↦ inl (omega arith) | inr late ↦ inr late ])
          settled.clear,
    )

Behind-start :
    (at claimed_at : ℕ) (started_at : Option ℕ) (planned : List ℕ)
    → LongFrom claimed_at started_at planned
    → at + minimum_interval ≤ claimed_at
    → Behind claimed_at started_at at
Behind-start at claimed_at none planned long early = early
Behind-start at claimed_at (some later) planned (b, order) early = omega arith

-- The new start is clear of the other attempts.
pub Settled-others :
    (claimed_at at : ℕ) (planned : List ℕ) (attempts : List Attempt) (starts : List ℕ)
    → Settled claimed_at at planned attempts starts
    → All Long attempts
    → All (λ a. All (Clear a) starts) attempts
    → All (λ a. All (Clear a) (at ∷ starts)) attempts
Settled-others claimed_at at planned attempts starts settled long clear =
    let order = settled.order in
    let far = settled.far in
    All-map _ _ attempts
      (λ (a : Attempt) h. elim h.0 [
        | inl first ↦
            (inl (Behind-start at a.claimed_at a.started_at a.planned h.1.0 (omega arith)), h.1.1)
        | inr first ↦ (inr (omega arith), h.1.1)
      ])
      (All-both _ _ attempts settled.disjoint (All-both _ _ attempts long clear))
