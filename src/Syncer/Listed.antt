-- ===== src/Syncer/Listed.antt =====
-- The accounts that a turn of the worker lists.
use icloud_api_mangobubu.Base.{
  ℕ, ◌≤◌, ◌≡◌, inl, inr, refl, sym, ap, ◌∙◌, subst, Bool, true, false, ◌||◌, Option, none, some,
  List, [], ◌∷◌, arith, ◌==◌, Bool-cases, Result, ok, err, All, All-append, Pairwise,
  Pairwise-rotate, delete_where, All-map,
}
use icloud_api_mangobubu.Store.Seen.Types.{SeenTask, Outbox, Error, task_key}
use icloud_api_mangobubu.Store.Seen.Tasks.{list_tasks, member}
use icloud_api_mangobubu.Syncer.SeenWorker.{
  SeenUidBatch, group_seen_tasks, Pending, Retry, Settings, of_retry, is_deferred, Plan, grouped,
  listed_result, list_account, listed, plan_of, list_pending,
}
use icloud_api_mangobubu.Syncer.Batches.{tasks_at, covers}
use icloud_api_mangobubu.Syncer.Rounds.{group_seen_tasks-covers, list_tasks-held}

-- A task that the account is listed with is in the outbox.
abbrev pub Backed : Outbox → Pending → Type 0
Backed t p =
    (validity : ℕ) × (w : ℕ) × (covers validity w p.batches ≡ true)
    × (1 ≤ tasks_at (task_key p.id validity w) t)

abbrev Found : Outbox → ℕ → Option (Option Pending) → Type 0
Found t id none = Unit
Found t id (some none) = Unit
Found t id (some (some p)) = Backed t p × (p.id ≡ id)

task_key-own :
    (id : ℕ) (r : SeenTask)
    → (r.account_id == id) ≡ true
    → task_key id r.uid_validity r.uid r ≡ true
task_key-own id r own = ground arith

grouped-Found :
    (s : Settings) (id : ℕ) (t : Outbox) (r : SeenTask) (rs : List SeenTask)
    (o : Option (List SeenUidBatch))
    → list_tasks id s.batch_size t ≡ ok (r ∷ rs)
    → group_seen_tasks id (r ∷ rs) ≡ o
    → Found t id (grouped id (r ∷ rs) o)
grouped-Found s id t r rs none e h = tt
grouped-Found s id t r rs (some batches) e h =
    let (own, held) = group_seen_tasks-covers id r rs batches h in
    (
      (
        r.uid_validity,
        r.uid,
        held,
        list_tasks-held (task_key id r.uid_validity r.uid) id s.batch_size t r rs e
            (task_key-own id r own),
      ),
      refl,
    )

listed-Found :
    (s : Settings) (id : ℕ) (t : Outbox) (r : Result Error (List SeenTask))
    → list_tasks id s.batch_size t ≡ r
    → Found t id (listed_result id r)
listed-Found s id t (err e) h = tt
listed-Found s id t (ok []) h = tt
listed-Found s id t (ok (r ∷ rs)) h = grouped-Found s id t r rs _ h refl

abbrev pub Distinct : Pending → Pending → Type 0
Distinct p q = (p.id == q.id) ≡ false

Distinct-sym : (p q : Pending) → Distinct p q → Distinct q p
Distinct-sym p q h = ground arith

-- The accounts that a turn works on: each once, with a task.
abbrev pub Sound : Outbox → List ℕ → List Pending → Type 0
Sound t considered ps =
    All (λ (p : Pending). Backed t p × (member p.id considered ≡ true)) ps × Pairwise Distinct ps

Sound-more :
    (t : Outbox) (id : ℕ) (considered : List ℕ) (ps : List Pending)
    → Sound t considered ps
    → Sound t (id ∷ considered) ps
Sound-more t id considered ps (held, apart) =
    (All-map _ _ ps (λ (p : Pending) h. (h.0, ground (arith, h.1))) held, apart)

other_id :
    (id : ℕ) (considered : List ℕ) (p q : Pending)
    → member id considered ≡ false
    → q.id ≡ id
    → member p.id considered ≡ true
    → Distinct q p
other_id id considered p q fresh same known = elim (Bool-cases (q.id == p.id)) [
  | inl equal ↦
      let there =
        subst (λ n. member n considered ≡ true) (sym (equal_number q.id p.id equal) ∙ same) known in
      absurd (ground arith)
  | inr other ↦ other
]
  where
    equal_number : (a b : ℕ) → (a == b) ≡ true → a ≡ b
    equal_number a b h = ground arith

or-neither : (a b : Bool) → a || b ≡ false → a ≡ false
or-neither true b h = h
or-neither false b h = refl

listed-Sound :
    (s : Settings) (now id : ℕ) (t : Outbox) (considered : List ℕ) (plan : Plan)
    (o : Option (Option Pending))
    → member id considered ≡ false
    → Sound t considered plan.pending
    → Found t id o
    → Sound t (id ∷ considered) (listed s now id plan o).pending
listed-Sound s now id t considered plan none fresh sound found =
    Sound-more t id considered plan.pending sound
listed-Sound s now id t considered plan (some none) fresh sound found =
    Sound-more t id considered plan.pending sound
listed-Sound s now id t considered plan (some (some q)) fresh sound (backed, same) =
    let (held, apart) = Sound-more t id considered plan.pending sound in
    (
      All-append _ plan.pending (q ∷ []) held ((backed, ground arith), tt),
      Pairwise-rotate Distinct q plan.pending Distinct-sym
          (All-map _ _ plan.pending (λ (p : Pending) h. other_id id considered p q fresh same h.1)
            sound.0)
          apart,
    )

list_pending-Sound :
    (s : Settings) (now : ℕ) (t : Outbox) (considered ids : List ℕ) (plan : Plan)
    → Sound t considered plan.pending
    → (all : List ℕ) × Sound t all (list_pending s now t considered ids plan).pending
unfolding list_pending
list_pending-Sound s now t considered [] plan sound = (considered, sound)
list_pending-Sound s now t considered (id ∷ ids) plan sound =
    let free : Plan = record plan { retries = delete_where (of_retry id) plan.retries } in
    let branch : Bool → Plan = λ b. elim b as (λ x. Plan) [
      | true ↦ list_pending s now t (id ∷ considered) ids plan
      | false ↦
          list_pending s now t (id ∷ considered) ids (listed s now id free (list_account s t id))
    ] in
    let Goal : Plan → Type 0 = λ q. (all : List ℕ) × Sound t all q.pending in
    elim (Bool-cases (member id considered || is_deferred id now plan.retries)) [
      | inl skipped ↦ subst Goal (sym (ap branch skipped)) (
          list_pending-Sound s now t (id ∷ considered) ids plan
            (Sound-more t id considered plan.pending sound))
      | inr taken ↦ subst Goal (sym (ap branch taken)) (
          list_pending-Sound s now t (id ∷ considered) ids
            (listed s now id free (list_account s t id))
            (listed-Sound s now id t considered free (list_account s t id) (or-neither _ _ taken)
              sound (listed-Found s id t _ refl)))
    ]

-- The accounts of a turn.
pub plan_of-Sound :
    (s : Settings) (now : ℕ) (t : Outbox) (ids : List ℕ) (retries : List Retry)
    → (all : List ℕ) × Sound t all (plan_of s now t ids retries).pending
plan_of-Sound s now t ids retries = list_pending-Sound s now t [] ids _ (tt, tt)
