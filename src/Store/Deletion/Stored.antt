-- ===== src/Store/Deletion/Stored.antt =====
-- What a snapshot of a job leaves of it (`writeDeletionSnapshotTx` of
-- internal/store/alias_deletion_queue.go), behind its audit.
use icloud_api_mangobubu.Base.{
  ℕ, ◌≡◌, inl, inr, refl, sym, ap, ◌∙◌, subst, Bool, Option, none, some, List, [], ◌∷◌, arith,
  Option-cases, ok, ok-injective, >>=-eq-ok, Text, first_where, update_where,
}
use icloud_api_mangobubu.Store.Deletion.Types.{
  AliasDeletionJobItem, AliasDeletionJob, JobRow, MetadataRow, Db,
}
use icloud_api_mangobubu.Store.Deletion.Normalize.{
  normalize_items, normalize_job, normalize_job-items,
}
use icloud_api_mangobubu.Store.Deletion.Snapshot.{
  job_key, metadata_key, with_metadata, get_job, write_snapshot, is_unaudited, audit_item,
  audit_loop, audit_items,
}

-- A row that is found stays the first where an update keeps the key.
first_where-update_where :
    (key : JobRow → Bool) (f : JobRow → JobRow) (rows : List JobRow) {r : JobRow}
    → first_where key rows ≡ some r
    → ((x : JobRow) → key (f x) ≡ key x)
    → first_where key (update_where key f rows) ≡ some (f r)
unfolding first_where update_where
first_where-update_where key f [] h k = absurd (ground arith)
first_where-update_where key f (x ∷ xs) {r} h k =
    ground (arith, first_where-update_where key f xs {r = r}, k x)

audit_item-jobs :
    (job : AliasDeletionJob) (item : AliasDeletionJobItem) (db : Db)
    → ((audit_item job item db).jobs ≡ db.jobs) × ((audit_item job item db).metadata ≡ db.metadata)
unfolding audit_item
audit_item-jobs job item db =
    elim (Option-cases (first_where (is_unaudited job.admin_id job.id item.id) db.job_works)) [
      | inl e ↦ rw (e, audit_item) (refl, refl)
      | inr (r, e) ↦ rw (e, audit_item) (refl, refl)
    ]

audit_loop-jobs :
    (unaudited : List ℕ) (job : AliasDeletionJob) (items : List AliasDeletionJobItem) (db : Db)
    → ((audit_loop unaudited job items db).jobs ≡ db.jobs)
      × ((audit_loop unaudited job items db).metadata ≡ db.metadata)
unfolding audit_loop
audit_loop-jobs unaudited job [] db = (refl, refl)
audit_loop-jobs unaudited job (item ∷ items) db = ground (
  arith,
  audit_loop-jobs unaudited job items db,
  audit_item-jobs job item db,
  audit_loop-jobs unaudited job items (audit_item job item db),
)

with_metadata-row :
    (r : JobRow) (o : Option MetadataRow)
    → ((with_metadata r o).items ≡ r.items)
      × ((with_metadata r o).updated_at ≡ r.updated_at)
      × ((with_metadata r o).status ≡ r.status)
unfolding with_metadata
with_metadata-row r none = (refl, refl, refl)
with_metadata-row r (some m) = (refl, refl, refl)

get_job-with :
    (id : Text) (admin : ℕ) (db : Db) (r : JobRow)
    → first_where (job_key admin id) db.jobs ≡ some r
    → get_job id admin db ≡ some (with_metadata r (first_where (metadata_key admin id) db.metadata))
unfolding get_job
get_job-with id admin db r f = rw (f, get_job) refl

pub job_row :
    (id : Text) (admin : ℕ) (db : Db) (job : AliasDeletionJob)
    → get_job id admin db ≡ some job
    → (r : JobRow) × (first_where (job_key admin id) db.jobs ≡ some r)
unfolding get_job
job_row id admin db job f = elim (Option-cases (first_where (job_key admin id) db.jobs)) [
  | inl n ↦ absurd (ground (arith, rw (get_job, n) at f))
  | inr found ↦ found
]

-- A snapshot is what is read back, with its items normalized.
pub snapshot-stored :
    (job : AliasDeletionJob) (db written : Db) (r : JobRow)
    → first_where (job_key job.admin_id job.id) db.jobs ≡ some r
    → write_snapshot job db ≡ ok written
    → (stored : AliasDeletionJob) × (get_job job.id job.admin_id (audit_items job written)
        ≡ some stored)
      × (normalize_items [] job.items ≡ ok stored.items)
      × (stored.updated_at ≡ job.updated_at)
      × (stored.status ≡ job.status)
unfolding write_snapshot audit_items
snapshot-stored job db written r f w =
    let (clean, n, e) = >>=-eq-ok (normalize_job job) _ w in
    let row : JobRow = record r {
      items = clean.items;
      status = job.status;
      updated_at = job.updated_at;
    } in
    let key = job_key job.admin_id job.id in
    let found : first_where key written.jobs ≡ some row =
      subst (λ (d : Db). first_where key d.jobs ≡ some row) (ok-injective _ written e)
        (first_where-update_where key _ db.jobs f (λ x. refl)) in
    let (jobs, metadata) = audit_loop-jobs _ job job.items written in
    let stored = with_metadata row _ in
    let (items, time, status) = with_metadata-row row _ in
    (
      stored,
      get_job-with job.id job.admin_id (audit_items job written) row
          (ap (λ (rows : List JobRow). first_where key rows) jobs ∙ found),
      normalize_job-items job clean n ∙ ap (λ (is : List AliasDeletionJobItem). ok is) (sym items),
      time,
      status,
    )
