-- ===== src/Store/Deletion/Snapshot.antt =====
-- The statements that the queue's transactions share (internal/store/alias_deletion_queue.go): job
-- snapshots, their audit, the publication of a result and the cancellation of what nobody wants.
-- A transaction reads the clock once, as `clock`.
use icloud_api_mangobubu.Store.Encoding.{truncate}
use icloud_api_mangobubu.Base.{
  ℕ, Bool, true, false, not, ◌&&◌, ◌||◌, Option, none, some, List, [], ◌∷◌, ◌++◌, ◌==◌,
  if◌then◌else◌, Result, ok, ◌>>=◌, Text, codes, text_eq, first_where, update_key, update_where,
}
use icloud_api_mangobubu.Store.Deletion.Types.{
  WorkStatus, JobStatus, queued, completed, interrupted, AliasDeletionWork, AliasDeletionJobItem,
  AliasDeletionJob, JobRow, MetadataRow, JobWork, AuditLog, Db, Error, is_terminal, is_pending,
}
use icloud_api_mangobubu.Store.Deletion.Normalize.{normalize_job, contains}

abbrev pub has_id : Text → AliasDeletionWork → Bool
has_id id w = text_eq w.id id

abbrev pub job_key : ℕ → Text → JobRow → Bool
job_key admin id r = r.admin_id == admin && text_eq r.id id

abbrev pub metadata_key : ℕ → Text → MetadataRow → Bool
metadata_key admin id m = m.admin_id == admin && text_eq m.job_id id

abbrev pub of_job : ℕ → Text → JobWork → Bool
of_job admin id r = r.admin_id == admin && text_eq r.job_id id

abbrev pub cancelled_code : Text
cancelled_code = codes "BATCH_DELETE_CANCELLED"

abbrev pub cancelled_message : Text
cancelled_message = codes "已取消剩余删除，本地记录保留"

abbrev pub all_done : List AliasDeletionJobItem → Bool
all_done [] = true
all_done (i ∷ is) = i.done && all_done is

-- `item.State != "" && item.State != pending`
abbrev has_started : Option WorkStatus → Bool
has_started none = false
has_started (some s) = not (is_pending s)

abbrev pub started : List AliasDeletionJobItem → Bool
started [] = false
started (i ∷ is) = i.done || has_started i.state || started is

abbrev pub is_interrupted : JobStatus → Bool
is_interrupted interrupted = true
is_interrupted _ = false

abbrev pub is_finished : JobStatus → Bool
is_finished completed = true
is_finished interrupted = true
is_finished _ = false

unfoldable pub deletion_job_status : JobStatus → List AliasDeletionJobItem → JobStatus
deletion_job_status status items =
    if is_interrupted status
    then interrupted
    else if all_done items
    then completed
    else if started items
    then JobStatus.running
    else queued

-- `applyDeletionWorkToItem`
unfoldable pub apply_work : AliasDeletionJobItem → AliasDeletionWork → AliasDeletionJobItem
apply_work item work = record item {
  account_email = work.account_email;
  apple_subject = work.apple_subject;
  state = some work.status;
  retry_at = work.next_run_at;
  wait_reason = work.wait_reason;
  used = work.used;
  limit = work.limit;
  operation = work.operation;
  http_status = work.http_status;
  service_code = work.service_code;
  done = is_terminal work.status;
  deleted = work.deleted;
  code = work.code;
  message = work.message;
  local_retained = work.local_retained;
}

-- `scanDeletionJobMetadata`: a job with no metadata is a legacy one, of version 0.
unfoldable pub with_metadata : JobRow → Option MetadataRow → AliasDeletionJob
with_metadata r none = record {
  id = r.id;
  admin_id = r.admin_id;
  request_id = r.request_id;
  status = r.status;
  items = r.items;
  created_at = r.created_at;
  updated_at = r.updated_at;
  queue_version = 0;
  authorizing_password_version = 0;
  username = [];
  ip = [];
  cancel_requested = false;
}
with_metadata r (some m) = record {
  id = r.id;
  admin_id = r.admin_id;
  request_id = r.request_id;
  status = r.status;
  items = r.items;
  created_at = r.created_at;
  updated_at = r.updated_at;
  queue_version = m.queue_version;
  authorizing_password_version = m.password_version;
  username = m.username;
  ip = m.ip;
  cancel_requested = m.cancel_requested;
}

-- `getDeletionJobTx`; `none` is ErrNotFound.
unfoldable pub get_job : Text → ℕ → Db → Option AliasDeletionJob
unfolding with_metadata
get_job id admin db = elim (first_where (job_key admin id) db.jobs) [
  | none ↦ none
  | some r ↦ some (with_metadata r (first_where (metadata_key admin id) db.metadata))
]

-- The row that `writeDeletionSnapshotTx` leaves: the items are normalized, the status is not.
unfoldable pub write_snapshot : AliasDeletionJob → Db → Result Error Db
write_snapshot job db = do
  clean ← normalize_job job
  ok (record db {
    jobs =
        update_where (job_key job.admin_id job.id)
          (λ r. record r { items = clean.items; status = job.status; updated_at = job.updated_at })
          db.jobs;
  })

abbrev pub is_unaudited : ℕ → Text → ℕ → JobWork → Bool
is_unaudited admin id alias_id r = of_job admin id r && r.alias_id == alias_id && not r.audited

unfoldable pub unaudited_ids : ℕ → Text → List JobWork → List ℕ
unaudited_ids admin id [] = []
unaudited_ids admin id (r ∷ rs) =
    if of_job admin id r && not r.audited
    then r.alias_id ∷ unaudited_ids admin id rs
    else unaudited_ids admin id rs

unfoldable pub audit_of : AliasDeletionJob → AliasDeletionJobItem → AuditLog
audit_of job item = record {
  admin_id = job.admin_id;
  username = truncate job.username 128;
  resource_id = item.id;
  success = item.deleted;
  ip = truncate job.ip 64;
  request_id = truncate job.request_id 128;
  job_id = job.id;
  address = item.address;
  code = item.code;
  message = item.message;
  local_retained = item.local_retained;
  created_at = job.updated_at;
}

-- The UPDATE … AND audited = 0 of one item, and its audit record where it changed a row.
unfoldable pub audit_item : AliasDeletionJob → AliasDeletionJobItem → Db → Db
audit_item job item db =
    let key = is_unaudited job.admin_id job.id item.id in
    elim (first_where key db.job_works) [
      | none ↦ db
      | some r ↦ record db {
        job_works = update_key key (record r { audited = true }) db.job_works;
        audits = db.audits ++ audit_of job item ∷ [];
      }
    ]

-- An empty text, as an item without work has.
abbrev pub is_empty {ℓ} : {A : Type ℓ} → List A → Bool
is_empty [] = true
is_empty (x ∷ xs) = false

unfoldable pub audit_loop : List ℕ → AliasDeletionJob → List AliasDeletionJobItem → Db → Db
unfolding audit_item
audit_loop unaudited job [] db = db
audit_loop unaudited job (item ∷ items) db = audit_loop unaudited job items (
    if not item.done || is_empty item.work_id || not (contains item.id unaudited)
    then db
    else audit_item job item db)

unfoldable pub audit_items : AliasDeletionJob → Db → Db
unfolding audit_loop unaudited_ids
audit_items job db = audit_loop (unaudited_ids job.admin_id job.id db.job_works) job job.items db
