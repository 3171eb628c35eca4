-- ===== src/Store/Deletion/Requests.antt =====
-- What the queue promises to those who ask for deletions.
use icloud_api_mangobubu.Store.Deletion.Normalize.{normalize_job}
use icloud_api_mangobubu.Store.Deletion.Types.{
  AliasDeletionWork, AliasDeletionJob, JobRow, MetadataRow, Db, credentials_changed,
  duplicate_target,
}
use icloud_api_mangobubu.Store.Deletion.Snapshot.{job_key, metadata_key, with_metadata, get_job}
use icloud_api_mangobubu.Store.Deletion.Enqueue.{
  default_status, row_of, insert_job, enqueue_items, enqueue_new, enqueue,
}
use icloud_api_mangobubu.Store.Deletion.Publish.{prune}
use icloud_api_mangobubu.Base.{
  ℕ, ◌≡◌, inl, inr, refl, sym, ◌∙◌, subst, Option, none, some, List, arith, Option-cases, ok,
  ok-injective, require-inv, >>=-eq-ok, Text, text_eq_refl, first_where, first_where-append,
  first_where-key, text_eq_iff,
}

get_job-row :
    (id : Text) (admin : ℕ) (db : Db) (r : JobRow)
    → first_where (job_key admin id) db.jobs ≡ some r
    → (j : AliasDeletionJob) × (get_job id admin db ≡ some j)
unfolding get_job
get_job-row id admin db r f =
    (with_metadata r (first_where (metadata_key admin id) db.metadata), rw (f, get_job))

with_metadata-identity :
    (r : JobRow) (o : Option MetadataRow) (j : AliasDeletionJob)
    → ◌≡◌ {A = Option AliasDeletionJob} (some (with_metadata r o)) (some j)
    → (j.id ≡ r.id) × (j.admin_id ≡ r.admin_id)
unfolding with_metadata
with_metadata-identity r none j h = (ground arith, ground arith)
with_metadata-identity r (some m) j h = (ground arith, ground arith)

-- A job is found under its own identity.
get_job-identity :
    (id : Text) (admin : ℕ) (db : Db) (j : AliasDeletionJob)
    → get_job id admin db ≡ some j
    → (j.id ≡ id) × (j.admin_id ≡ admin)
unfolding get_job
get_job-identity id admin db j h = elim (Option-cases (first_where (job_key admin id) db.jobs)) [
  | inl n ↦ absurd (ground (arith, rw (get_job, n) at h))
  | inr (r, n) ↦
      let key = first_where-key (job_key admin id) db.jobs n in
      let (same_id, same_admin) = with_metadata-identity r _ j (rw (get_job, n) at h) in
      (same_id ∙ (text_eq_iff r.id id).0 (ground arith), same_admin ∙ ground arith)
]

get_job-same :
    (id other : Text) (admin same : ℕ) (db : Db) (j : AliasDeletionJob)
    → get_job id admin db ≡ some j
    → other ≡ id
    → same ≡ admin
    → get_job other same db ≡ some j
get_job-same id other admin same db j f h k = rw (h, k) f

insert_job-found :
    (job : AliasDeletionJob) (db next : Db)
    → insert_job job db ≡ ok next
    → (j : AliasDeletionJob) × (get_job job.id job.admin_id next ≡ some j)
unfolding insert_job
insert_job-found job db next e =
    let (clean, n, rest) = >>=-eq-ok (normalize_job job) _ e in
    let (r, f) =
      first_where-append (job_key job.admin_id job.id) db.jobs (row_of job clean.items)
        (ground (arith, text_eq_refl job.id)) in
    get_job-row job.id job.admin_id next r (
      subst (λ (d : Db). first_where (job_key job.admin_id job.id) d.jobs ≡ some r)
        (ok-injective _ next rest) f)

module _ (to_lower : Text → Text) (new_id : ℕ → Text) where
  enqueue_new-found :
      (clock : ℕ) (targets : List AliasDeletionWork) (job : AliasDeletionJob) (db : Db)
      (r : Db × AliasDeletionJob)
      → enqueue_new to_lower new_id clock targets job db ≡ ok r
      → (r.1.id ≡ job.id)
        × (r.1.admin_id ≡ job.admin_id)
        × (j : AliasDeletionJob) × (get_job job.id job.admin_id r.0 ≡ some j)
  unfolding enqueue_new
  enqueue_new-found clock targets job db r e =
      let (authorized_job, e1) = require-inv _ credentials_changed _ e in
      let (pruned, p, e2) = >>=-eq-ok (prune clock db) _ e1 in
      let (distinct, e3) = require-inv _ duplicate_target _ e2 in
      let (queue, q, e4) =
        >>=-eq-ok (enqueue_items to_lower new_id clock targets job.items pruned) _ e3 in
      let (stored, s, e5) = >>=-eq-ok (insert_job _ queue.0) _ e4 in
      let (j, f) = insert_job-found _ queue.0 stored s in
      subst
        (λ (x : Db × AliasDeletionJob).
          (x.1.id ≡ job.id)
          × (x.1.admin_id ≡ job.admin_id)
          × (j : AliasDeletionJob) × (get_job job.id job.admin_id x.0 ≡ some j))
        (ok-injective _ r e5) (refl, refl, j, f)

  enqueue-existing :
      (clock : ℕ) (targets : List AliasDeletionWork) (raw job j : AliasDeletionJob) (db : Db)
      → normalize_job (record raw { status = default_status raw.status }) ≡ ok job
      → get_job job.id job.admin_id db ≡ some j
      → enqueue to_lower new_id clock targets raw db ≡ ok (db, j)
  unfolding enqueue
  enqueue-existing clock targets raw job j db n f = ground arith

  -- Repeating a request that was accepted gives back the job that is stored under the identity of
  -- the accepted one, whatever targets it names and whenever it comes, and changes nothing.
  pub enqueue_twice :
      (clock later : ℕ) (targets others : List AliasDeletionWork) (raw : AliasDeletionJob) (db : Db)
      (r : Db × AliasDeletionJob)
      → enqueue to_lower new_id clock targets raw db ≡ ok r
      → (j : AliasDeletionJob) × (get_job r.1.id r.1.admin_id r.0 ≡ some j)
        × (j.id ≡ r.1.id)
        × (j.admin_id ≡ r.1.admin_id)
        × (enqueue to_lower new_id later others raw r.0 ≡ ok (r.0, j))
  unfolding enqueue
  enqueue_twice clock later targets others raw db r e =
      let (job, n, e1) = >>=-eq-ok (normalize_job _) _ e in
      elim (Option-cases (get_job job.id job.admin_id db)) [
        | inr (existing, f) ↦
            let same = ok-injective (db, existing) r (rw f at e1) in
            let (id, admin) = get_job-identity job.id job.admin_id db existing f in
            subst
              (λ (x : Db × AliasDeletionJob).
                (j : AliasDeletionJob) × (get_job x.1.id x.1.admin_id x.0 ≡ some j)
                × (j.id ≡ x.1.id)
                × (j.admin_id ≡ x.1.admin_id)
                × (enqueue to_lower new_id later others raw x.0 ≡ ok (x.0, j)))
              same
              (
                existing,
                get_job-same job.id _ job.admin_id _ db existing f id admin,
                refl,
                refl,
                enqueue-existing later others raw job existing db n f,
              )
        | inl f ↦
            let (id, admin, j, g) = enqueue_new-found clock targets job db r (rw f at e1) in
            let (same_id, same_admin) = get_job-identity job.id job.admin_id r.0 j g in
            (
              j,
              get_job-same job.id _ job.admin_id _ r.0 j g id admin,
              same_id ∙ sym id,
              same_admin ∙ sym admin,
              enqueue-existing later others raw job j r.0 n g,
            )
      ]
