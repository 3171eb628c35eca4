-- ===== src/Store/Seen/Listing.antt =====
-- What the listings of the outbox give.
use icloud_api_mangobubu.Base.{
  ℕ, zero, suc, ◌+◌, min, ◌≤◌, ◌≡◌, inl, inr, refl, ◌∙◌, Bool, true, List, [], ◌∷◌, arith,
  Bool-cases, ok, length, All, count_where, select_where, All-map, All-select_where,
}
use icloud_api_mangobubu.Store.Seen.Types.{SeenTask, Outbox}
use icloud_api_mangobubu.Store.Seen.Tasks.{
  earlier_task, insert_task, sort_tasks, limited, has_position, scan_tasks, of_account, list_tasks,
}

count_where-insert_task :
    (p : SeenTask → Bool) (t : SeenTask) (ts : List SeenTask)
    → count_where p (insert_task t ts) ≡ count_where p (t ∷ ts)
unfolding insert_task count_where
count_where-insert_task p t [] = refl
count_where-insert_task p t (u ∷ us) = ground (arith, count_where-insert_task p t us)

pub count_where-sort_tasks :
    (p : SeenTask → Bool) (ts : List SeenTask) → count_where p (sort_tasks ts) ≡ count_where p ts
unfolding sort_tasks count_where
count_where-sort_tasks p [] = refl
count_where-sort_tasks p (t ∷ ts) =
    ground (arith, count_where-insert_task p t (sort_tasks ts), count_where-sort_tasks p ts)

-- Each task comes before those behind it, by its age and then by its position.
abbrev pub Sorted : List SeenTask → Type 0
Sorted [] = Unit {0}
Sorted (t ∷ ts) = All (λ u. earlier_task t u ≡ true) ts × Sorted ts

All-insert_task {κ} :
    (P : SeenTask → Type κ) (t : SeenTask) (ts : List SeenTask)
    → P t
    → All P ts
    → All P (insert_task t ts)
unfolding insert_task
All-insert_task P t [] h k = (h, tt)
All-insert_task P t (u ∷ us) h k = elim (Bool-cases (earlier_task t u)) [
  | inl e ↦ rw e (h, k)
  | inr e ↦ rw e (k.0, All-insert_task P t us h k.1)
]

insert_task-Sorted : (t : SeenTask) (ts : List SeenTask) → Sorted ts → Sorted (insert_task t ts)
unfolding insert_task
insert_task-Sorted t [] s = (tt, tt)
insert_task-Sorted t (u ∷ us) s = elim (Bool-cases (earlier_task t u)) [
  | inl e ↦ rw e (
    (
      e,
      All-map (λ v. earlier_task u v ≡ true) (λ v. earlier_task t v ≡ true) us (λ v h. ground arith)
          s.0,
    ),
    s,
  )
  | inr e ↦ rw e (
    All-insert_task (λ v. earlier_task u v ≡ true) t us (ground arith) s.0,
    insert_task-Sorted t us s.1,
  )
]

sort_tasks-Sorted : (ts : List SeenTask) → Sorted (sort_tasks ts)
unfolding sort_tasks
sort_tasks-Sorted [] = tt
sort_tasks-Sorted (t ∷ ts) = insert_task-Sorted t (sort_tasks ts) (sort_tasks-Sorted ts)

All-sort_tasks {κ} : (P : SeenTask → Type κ) (ts : List SeenTask) → All P ts → All P (sort_tasks ts)
unfolding sort_tasks
All-sort_tasks P [] h = tt
All-sort_tasks P (t ∷ ts) h = All-insert_task P t (sort_tasks ts) h.0 (All-sort_tasks P ts h.1)

All-limited {κ} :
    (P : SeenTask → Type κ) (n : ℕ) (ts : List SeenTask) → All P ts → All P (limited n ts)
unfolding limited
All-limited P zero ts h = tt
All-limited P (suc n) [] h = tt
All-limited P (suc n) (t ∷ ts) h = (h.0, All-limited P n ts h.1)

limited-Sorted : (n : ℕ) (ts : List SeenTask) → Sorted ts → Sorted (limited n ts)
unfolding limited
limited-Sorted zero ts s = tt
limited-Sorted (suc n) [] s = tt
limited-Sorted (suc n) (t ∷ ts) s =
    (All-limited (λ u. earlier_task t u ≡ true) n ts s.0, limited-Sorted n ts s.1)

length-limited : (n : ℕ) (ts : List SeenTask) → length (limited n ts) ≡ min n (length ts)
unfolding limited
length-limited zero ts = omega arith
length-limited (suc n) [] = omega arith
length-limited (suc n) (t ∷ ts) = omega (arith, length-limited n ts)

length-insert_task :
    (t : SeenTask) (ts : List SeenTask) → length (insert_task t ts) ≡ suc (length ts)
unfolding insert_task
length-insert_task t [] = refl
length-insert_task t (u ∷ us) = ground (arith, length-insert_task t us)

length-sort_tasks : (ts : List SeenTask) → length (sort_tasks ts) ≡ length ts
unfolding sort_tasks
length-sort_tasks [] = refl
length-sort_tasks (t ∷ ts) =
    omega (arith, length-insert_task t (sort_tasks ts), length-sort_tasks ts)

length-select_where :
    (p : SeenTask → Bool) (ts : List SeenTask) → length (select_where p ts) ≡ count_where p ts
unfolding select_where count_where
length-select_where p [] = refl
length-select_where p (t ∷ ts) = ground (arith, length-select_where p ts)

-- Every task of the rest is later than every one of the batch.
abbrev pub Precedes : List SeenTask → List SeenTask → Type 0
Precedes batch rest = All (λ t. All (λ u. earlier_task t u ≡ true) rest) batch

dropped : ℕ → List SeenTask → List SeenTask
dropped zero ts = ts
dropped (suc n) [] = []
dropped (suc n) (t ∷ ts) = dropped n ts

All-dropped {κ} :
    (P : SeenTask → Type κ) (n : ℕ) (ts : List SeenTask) → All P ts → All P (dropped n ts)
unfolding dropped
All-dropped P zero ts h = h
All-dropped P (suc n) [] h = tt
All-dropped P (suc n) (t ∷ ts) h = All-dropped P n ts h.1

limited-Precedes : (n : ℕ) (ts : List SeenTask) → Sorted ts → Precedes (limited n ts) (dropped n ts)
unfolding limited dropped
limited-Precedes zero ts s = tt
limited-Precedes (suc n) [] s = tt
limited-Precedes (suc n) (t ∷ ts) s =
    (All-dropped (λ u. earlier_task t u ≡ true) n ts s.0, limited-Precedes n ts s.1)

count_where-limited :
    (p : SeenTask → Bool) (n : ℕ) (ts : List SeenTask)
    → count_where p (limited n ts) + count_where p (dropped n ts) ≡ count_where p ts
unfolding limited dropped count_where
count_where-limited p zero ts = omega arith
count_where-limited p (suc n) [] = omega arith
count_where-limited p (suc n) (t ∷ ts) = omega (arith, count_where-limited p n ts)

scan_tasks-ok : (ts : List SeenTask) → All (λ t. has_position t ≡ true) ts → scan_tasks ts ≡ ok ts
unfolding scan_tasks
scan_tasks-ok [] h = refl
scan_tasks-ok (t ∷ ts) h = ground (arith, scan_tasks-ok ts h.1, h.0)

-- When every stored position is in range, a listing of an account gives as many of its tasks as the
-- limit allows. They are in order, oldest first; they and a rest are together the account's tasks,
-- each with the multiplicity it has in the table, and every task of the rest is later than every
-- one that is listed.
pub list_tasks-Sorted :
    (account_id limit : ℕ) (t : Outbox)
    → 1 ≤ account_id
    → 1 ≤ limit
    → All (λ r. has_position r ≡ true) t.seen_tasks
    → (batch rest : List SeenTask) × (list_tasks account_id limit t ≡ ok batch)
      × (length batch ≡ min limit (count_where (of_account account_id) t.seen_tasks))
      × Sorted batch
      × Precedes batch rest
      × ((p : SeenTask → Bool)
          → count_where p batch + count_where p rest
            ≡ count_where p (select_where (of_account account_id) t.seen_tasks))
unfolding list_tasks
list_tasks-Sorted account_id limit t a l fits =
    let mine = select_where (of_account account_id) t.seen_tasks in
    let sorted = sort_tasks mine in
    let valid =
      All-limited (λ r. has_position r ≡ true) limit sorted
        (All-sort_tasks (λ r. has_position r ≡ true) mine
          (All-select_where (λ r. has_position r ≡ true) (of_account account_id) t.seen_tasks
            fits)) in
    (
      limited limit sorted,
      dropped limit sorted,
      ground (arith, scan_tasks-ok (limited limit sorted) valid),
      omega (
        arith,
        length-limited limit sorted,
        length-sort_tasks mine,
        length-select_where (of_account account_id) t.seen_tasks,
      ),
      limited-Sorted limit sorted (sort_tasks-Sorted mine),
      limited-Precedes limit sorted (sort_tasks-Sorted mine),
      λ p. count_where-limited p limit sorted ∙ count_where-sort_tasks p mine,
    )
