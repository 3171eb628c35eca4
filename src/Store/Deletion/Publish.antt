-- ===== src/Store/Deletion/Publish.antt =====
-- The publication of a piece of work to the jobs that subscribe to it, and the cancellation of
-- jobs and of unwanted work (internal/store/alias_deletion_queue.go).
use icloud_api_mangobubu.Base.{
  ℕ, Bool, true, false, not, ◌&&◌, ◌||◌, Option, none, some, List, [], ◌∷◌, ◌==◌, if◌then◌else◌,
  is_some, Result, ok, ◌>>=◌, or_fail, Text, text_eq, first_where, update_key, update_where,
  select_where,
}
use icloud_api_mangobubu.Store.Deletion.Types.{
  cancelled, interrupted, AliasDeletionWork, AliasDeletionJobItem, AliasDeletionJob, JobRow,
  MetadataRow, JobWork, Admin, Db, Error, no_rows, is_terminal, is_idle, is_running, is_unfinished,
}
use icloud_api_mangobubu.Store.Deletion.Snapshot.{
  has_id, job_key, metadata_key, of_job, cancelled_code, cancelled_message, is_finished,
  deletion_job_status, apply_work, get_job, write_snapshot, audit_items, is_empty,
}

-- One of the rows of SELECT DISTINCT admin_id, job_id.
pub record Identity : Type 0 where
  pub admin_id : ℕ
  pub job_id : Text

abbrev same_identity : ℕ → Text → Identity → Bool
same_identity admin id i = i.admin_id == admin && text_eq i.job_id id

-- SELECT DISTINCT admin_id, job_id FROM alias_deletion_job_work WHERE work_id = ?
unfoldable pub subscribers : Text → List JobWork → List Identity
subscribers work_id [] = []
subscribers work_id (r ∷ rs) =
    let rest = subscribers work_id rs in
    if text_eq r.work_id work_id
      && not (is_some (first_where (same_identity r.admin_id r.job_id) rest))
    then record { admin_id = r.admin_id; job_id = r.job_id } ∷ rest
    else rest

unfoldable pub apply_items :
    AliasDeletionWork → List AliasDeletionJobItem → List AliasDeletionJobItem
apply_items work [] = []
apply_items work (item ∷ items) =
    (if text_eq item.work_id work.id && not item.done then apply_work item work else item)
    ∷ apply_items work items

-- The snapshot of one subscribed job.
unfoldable pub publish_job : AliasDeletionWork → AliasDeletionJob → Db → Result Error Db
publish_job work job db = do
  let items = apply_items work job.items
  let job' = record job {
    items = items;
    status = deletion_job_status job.status items;
    updated_at = work.updated_at;
  }
  written ← write_snapshot job' db
  ok (audit_items job' written)

unfoldable pub publish_jobs : AliasDeletionWork → List Identity → Db → Result Error Db
publish_jobs work [] db = ok db
publish_jobs work (i ∷ is) db = elim (get_job i.job_id i.admin_id db) [
  | none ↦ publish_jobs work is db
  | some job ↦ publish_job work job db >>= λ next. publish_jobs work is next
]

abbrev pub of_work : Text → JobWork → Bool
of_work id r = text_eq r.work_id id

abbrev pub deactivate : JobWork → JobWork
deactivate r = record r { active = false }

-- `publishDeletionWorkTx`
unfoldable pub publish : AliasDeletionWork → Db → Result Error Db
unfolding publish_jobs subscribers
publish work db =
    let rows =
      if is_terminal work.status
      then update_where (of_work work.id) deactivate db.job_works
      else db.job_works in
    publish_jobs work (subscribers work.id rows) (record db { job_works = rows })

-- `updateDeletionWorkTx`
abbrev pub update_work : AliasDeletionWork → Db → Db
update_work work db = record db { works = update_key (has_id work.id) work db.works }

-- `cancelDeletionWork`
abbrev pub cancel_work : AliasDeletionWork → AliasDeletionWork
cancel_work work = record work {
  status = cancelled;
  claim_token = [];
  next_run_at = 0;
  wait_reason = [];
  deleted = false;
  local_retained = true;
  code = cancelled_code;
  message = cancelled_message;
}

-- The subscription that keeps a piece of work alive.
abbrev pub keeps : Text → JobWork → Bool
keeps id r = text_eq r.work_id id && r.active

abbrev pub is_unwanted : List JobWork → AliasDeletionWork → Bool
is_unwanted rows w =
    is_idle w.status && not w.reconcile && not (is_some (first_where (keeps w.id) rows))

unfoldable pub cancel_works : ℕ → List AliasDeletionWork → Db → Result Error Db
cancel_works clock [] db = ok db
cancel_works clock (w ∷ ws) db = do
  let work = record (cancel_work w) { updated_at = clock }
  next ← publish work (update_work work db)
  cancel_works clock ws next

-- `cancelUnwantedDeletionWorkTx`
unfoldable pub cancel_unwanted : ℕ → Db → Result Error Db
cancel_unwanted clock db = cancel_works clock (select_where (is_unwanted db.job_works) db.works) db

abbrev pub cancelled_item : AliasDeletionJobItem → AliasDeletionJobItem
cancelled_item item = record item {
  done = true;
  deleted = false;
  local_retained = true;
  state = some cancelled;
  code = cancelled_code;
  message = cancelled_message;
  retry_at = 0;
  wait_reason = [];
}

-- What the work of an item allows: a request in flight or in doubt is left to its worker.
abbrev pub cancel_item : AliasDeletionJobItem → AliasDeletionWork → AliasDeletionJobItem
cancel_item item w = if is_running w.status || w.reconcile then item else cancelled_item item

-- The loop of `cancelDeletionJobTx`.
unfoldable pub cancel_items :
    List AliasDeletionWork → List AliasDeletionJobItem → Result Error (List AliasDeletionJobItem)
cancel_items works [] = ok []
cancel_items works (item ∷ items) = do
  item' ←
      if item.done || is_empty item.work_id
      then ok item
      else or_fail (first_where (has_id item.work_id) works) no_rows >>= λ w.
          ok (cancel_item item w)
  rest ← cancel_items works items
  ok (item' ∷ rest)

-- `cancelDeletionJobTx`
unfoldable pub cancel_job_rows : ℕ → AliasDeletionJob → Bool → Db → Result Error Db
cancel_job_rows clock job interrupt db = do
  let marked = record db {
    metadata =
        update_where (metadata_key job.admin_id job.id) (λ m. record m { cancel_requested = true })
          db.metadata;
    job_works = update_where (of_job job.admin_id job.id) deactivate db.job_works;
  }
  items ← cancel_items marked.works job.items
  let job' = record job {
    cancel_requested = true;
    items = items;
    status = if interrupt then interrupted else deletion_job_status job.status items;
    updated_at = clock;
  }
  written ← write_snapshot job' marked
  ok (audit_items job' written)

abbrev pub has_admin : ℕ → Admin → Bool
has_admin id a = a.id == id

abbrev pub agrees : Option Admin → MetadataRow → Bool
agrees none m = false
agrees (some a) m = a.password_version == m.password_version

-- The owner of a job still has the password that authorized it.
abbrev pub authorized : List Admin → MetadataRow → Bool
authorized admins m = agrees (first_where (has_admin m.admin_id) admins) m

abbrev unfinished_row : Option JobRow → Bool
unfinished_row none = false
unfinished_row (some r) = is_unfinished r.status

-- The query of `pruneDeletionSubscriptionsTx`.
unfoldable pub stale_jobs : Db → List MetadataRow → List Identity
stale_jobs db [] = []
stale_jobs db (m ∷ ms) =
    if unfinished_row (first_where (job_key m.admin_id m.job_id) db.jobs)
      && not m.cancel_requested
      && not (authorized db.admins m)
    then record { admin_id = m.admin_id; job_id = m.job_id } ∷ stale_jobs db ms
    else stale_jobs db ms

unfoldable pub prune_jobs : ℕ → List Identity → Db → Result Error Db
prune_jobs clock [] db = ok db
prune_jobs clock (i ∷ is) db = elim (get_job i.job_id i.admin_id db) [
  | none ↦ prune_jobs clock is db
  | some job ↦
      (if is_finished job.status then ok db else cancel_job_rows clock job true db) >>= λ next.
      prune_jobs clock is next
]

-- `pruneDeletionSubscriptionsTx`
unfoldable pub prune : ℕ → Db → Result Error Db
unfolding stale_jobs
prune clock db = do
  pruned ← prune_jobs clock (stale_jobs db db.metadata) db
  cancel_unwanted clock pruned

-- One subscription of `deletionWorkWantedTx`.
abbrev wanted_by : List Admin → Option MetadataRow → Bool
wanted_by admins none = false
wanted_by admins (some m) = authorized admins m && not m.cancel_requested

abbrev pub wants : Text → Db → JobWork → Bool
wants id db r =
    text_eq r.work_id id
    && r.active
    && wanted_by db.admins (first_where (metadata_key r.admin_id r.job_id) db.metadata)

-- `deletionWorkWantedTx`
unfoldable pub wanted : Text → Db → Bool
wanted id db = is_some (first_where (wants id db) db.job_works)
