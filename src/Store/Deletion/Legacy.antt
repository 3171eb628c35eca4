-- ===== src/Store/Deletion/Legacy.antt =====
-- What the legacy queue promises: a job is created once, ends with a restart, and is cleared once.
use icloud_api_mangobubu.Base.{
  ℕ, ◌≡◌, inl, inr, refl, ap, subst, Bool, true, false, not, ◌&&◌, Option, none, some, List, [],
  ◌∷◌, ◌++◌, arith, ◌==◌, if◌then◌else◌, Bool-cases, Option-cases, is_some, ok, err, ok-injective,
  require-inv, >>=-eq-ok, All, Text, text_eq_refl, first_where, update_where, select_where,
  first_where-append,
}
use icloud_api_mangobubu.Store.Deletion.Types.{
  AliasDeletionJob, JobRow, MetadataRow, AuditLog, Db, not_found, conflict, constraint_failed,
  is_unfinished,
}
use icloud_api_mangobubu.Store.Deletion.Normalize.{normalize_job}
use icloud_api_mangobubu.Store.Deletion.Snapshot.{job_key}
use icloud_api_mangobubu.Store.Deletion.Publish.{has_admin}
use icloud_api_mangobubu.Store.Deletion.Queue.{is_legacy}
use icloud_api_mangobubu.Store.Deletion.Enqueue.{row_of}
use icloud_api_mangobubu.Store.Deletion.Jobs.{
  Clearance, clearance_key, stamped, create_job, writable, save_job, interrupted_row,
  interrupt_jobs, is_completed, add_clearances, cleared_ids, clear_completed, newest, active_job,
}

-- A job that was created is not created again: the repetition is a conflict.
pub create_job_twice :
    (clock later : ℕ) (raw : AliasDeletionJob) (db next : Db)
    → create_job clock raw db ≡ ok next
    → create_job later raw next ≡ err conflict
unfolding create_job
create_job_twice clock later raw db next e =
    let (job, n, e1) = >>=-eq-ok (normalize_job _) _ e in
    let (a, e2) =
      require-inv (not (is_some (first_where (job_key job.admin_id job.id) db.jobs))) conflict _
        e1 in
    let (b, e3) =
      require-inv (is_some (first_where (has_admin job.admin_id) db.admins)) constraint_failed _
        e2 in
    let new = stamped clock job in
    let (r, f) =
      first_where-append (job_key job.admin_id job.id) db.jobs (row_of new new.items)
        (ground (arith, text_eq_refl job.id)) in
    let found =
      subst (λ (d : Db). first_where (job_key job.admin_id job.id) d.jobs ≡ some r)
        (ok-injective _ next e3) f in
    rw (n, found) refl

writable-interrupted :
    (clock admin : ℕ) (id : Text) (metadata : List MetadataRow) (rows : List JobRow)
    → first_where
        (writable admin id metadata)
        (update_where (is_legacy metadata) (interrupted_row clock) rows)
      ≡ none
unfolding first_where update_where
writable-interrupted clock admin id metadata [] = refl
writable-interrupted clock admin id metadata (r ∷ rs) = elim (Bool-cases (is_legacy metadata r)) [
  | inl e ↦ rw e (ground (arith, writable-interrupted clock admin id metadata rs))
  | inr e ↦ rw e (ground (arith, writable-interrupted clock admin id metadata rs))
]

-- After a restart has interrupted the legacy jobs, a late worker with a job in form saves nothing:
-- its call fails, with a conflict if the job exists and as not found otherwise.
pub save_job-interrupt_jobs :
    (clock later : ℕ) (raw job : AliasDeletionJob) (audit : Option AuditLog) (db : Db)
    → normalize_job raw ≡ ok job
    → save_job later raw audit (interrupt_jobs clock db) ≡ (
        if is_some (first_where (job_key job.admin_id job.id) (interrupt_jobs clock db).jobs)
        then err conflict
        else err not_found)
unfolding save_job interrupt_jobs
save_job-interrupt_jobs clock later raw job audit db n =
    rw (n, writable-interrupted clock job.admin_id job.id db.metadata db.jobs) refl

-- Every completed job of the administrator has a clearance.
abbrev Cleared : ℕ → List JobRow → List Clearance → Type 0
Cleared admin rows cs =
    All
      (λ r.
        (r.admin_id == admin && is_completed r.status) ≡ true
        → is_some (first_where (clearance_key admin r.id) cs) ≡ true)
      rows

add_clearances-Cleared :
    (clock admin : ℕ) (rows : List JobRow) (cs : List Clearance)
    → Cleared admin rows cs
    → add_clearances clock admin rows cs ≡ cs
unfolding add_clearances
add_clearances-Cleared clock admin [] cs h = refl
add_clearances-Cleared clock admin (r ∷ rs) cs h =
    elim (Bool-cases (r.admin_id == admin && is_completed r.status)) [
      | inl e ↦ ground (arith, add_clearances-Cleared clock admin rs cs h.1, h.0 e)
      | inr e ↦ ground (arith, add_clearances-Cleared clock admin rs cs h.1)
    ]

first_where-grown :
    (key : Clearance → Bool) (cs more : List Clearance) {c : Clearance}
    → first_where key cs ≡ some c
    → first_where key (cs ++ more) ≡ some c
unfolding first_where
first_where-grown key [] more e = absurd (ground arith)
first_where-grown key (x ∷ xs) more {c} e = ground (arith, first_where-grown key xs more {c = c})

-- The turn of one row.
abbrev cleared_row : ℕ → ℕ → JobRow → List Clearance → List Clearance
cleared_row clock admin r cs =
    if r.admin_id == admin
      && is_completed r.status
      && not (is_some (first_where (clearance_key admin r.id) cs))
    then cs ++ record { admin_id = admin; job_id = r.id; cleared_at = clock } ∷ []
    else cs

cleared_row_kept :
    (clock admin : ℕ) (key : Clearance → Bool) (r : JobRow) (cs : List Clearance) {c : Clearance}
    → first_where key cs ≡ some c
    → first_where key (cleared_row clock admin r cs) ≡ some c
cleared_row_kept clock admin key r cs {c} e =
    let new : Clearance = record { admin_id = admin; job_id = r.id; cleared_at = clock } in
    let kept = first_where-grown key cs (new ∷ []) {c = c} e in ground arith

add_clearances_kept :
    (clock admin : ℕ) (key : Clearance → Bool) (rows : List JobRow) (cs : List Clearance)
    {c : Clearance}
    → first_where key cs ≡ some c
    → first_where key (add_clearances clock admin rows cs) ≡ some c
unfolding add_clearances
add_clearances_kept clock admin key [] cs e = e
add_clearances_kept clock admin key (r ∷ rs) cs {c} e =
    add_clearances_kept clock admin key rs (cleared_row clock admin r cs) {c = c}
      (cleared_row_kept clock admin key r cs {c = c} e)

cleared_row-found :
    (clock admin : ℕ) (r : JobRow) (cs : List Clearance)
    → (r.admin_id == admin && is_completed r.status) ≡ true
    → (c : Clearance) × (first_where (clearance_key admin r.id) (cleared_row clock admin r cs)
        ≡ some c)
cleared_row-found clock admin r cs h =
    elim (Option-cases (first_where (clearance_key admin r.id) cs)) [
      | inr (c, n) ↦ (c, ground arith)
      | inl n ↦
          let new : Clearance = record { admin_id = admin; job_id = r.id; cleared_at = clock } in
          let (c, f) =
            first_where-append (clearance_key admin r.id) cs new
              (ground (arith, text_eq_refl r.id)) in
          (c, ground arith)
    ]

clear-Cleared :
    (clock admin : ℕ) (rows : List JobRow) (cs : List Clearance)
    → Cleared admin rows (add_clearances clock admin rows cs)
unfolding add_clearances
clear-Cleared clock admin [] cs = tt
clear-Cleared clock admin (r ∷ rs) cs = (
  λ h.
      let (c, f) = cleared_row-found clock admin r cs h in
      rw
        (add_clearances_kept clock admin (clearance_key admin r.id) rs
          (cleared_row clock admin r cs) {c = c} f)
        refl,
  clear-Cleared clock admin rs (cleared_row clock admin r cs),
)

-- Clearing the history again clears nothing more: it changes no row, counts no job, and gives the
-- IDs that were given before.
pub clear_completed_twice :
    (clock later admin : ℕ) (jobs : List JobRow) (cs : List Clearance)
    → let first = clear_completed clock admin jobs cs in
      clear_completed later admin jobs first.0 ≡ (first.0, (0, first.1.1))
unfolding clear_completed
clear_completed_twice clock later admin jobs cs =
    let cleared = add_clearances clock admin jobs cs in
    rw (add_clearances-Cleared later admin jobs cleared (clear-Cleared clock admin jobs cs))
      (ap (λ (n : ℕ). (cleared, (n, cleared_ids admin cleared))) (omega arith))

no_unfinished :
    (clock admin : ℕ) (metadata : List MetadataRow) (rows : List JobRow)
    → All (λ r. is_unfinished r.status ≡ true → is_legacy metadata r ≡ true) rows
    → select_where
        (λ r. r.admin_id == admin && is_unfinished r.status)
        (update_where (is_legacy metadata) (interrupted_row clock) rows)
      ≡ []
unfolding select_where update_where
no_unfinished clock admin metadata [] h = refl
no_unfinished clock admin metadata (r ∷ rs) h = elim (Bool-cases (is_legacy metadata r)) [
  | inl e ↦ rw e (ground (arith, no_unfinished clock admin metadata rs h.1))
  | inr e ↦ rw e (idle (not_unfinished e) (no_unfinished clock admin metadata rs h.1))
]
  where
    not_unfinished : is_legacy metadata r ≡ false → is_unfinished r.status ≡ false
    not_unfinished e = elim (Bool-cases (is_unfinished r.status)) [
      | inl k ↦ absurd (ground (arith, h.0 k))
      | inr k ↦ k
    ]

    idle :
        {rest : List JobRow}
        → is_unfinished r.status ≡ false
        → rest ≡ []
        → (if r.admin_id == admin && is_unfinished r.status then r ∷ rest else rest) ≡ []
    idle k e = ground arith

-- After a restart has interrupted the legacy jobs, no administrator has an active job, if every
-- unfinished job was a legacy one.
pub active_job-interrupt_jobs :
    (clock admin : ℕ) (db : Db)
    → All (λ r. is_unfinished r.status ≡ true → is_legacy db.metadata r ≡ true) db.jobs
    → active_job admin (interrupt_jobs clock db) ≡ err not_found
unfolding active_job interrupt_jobs newest
active_job-interrupt_jobs clock admin db h =
    rw (no_unfinished clock admin db.metadata db.jobs h) refl
