-- ===== src/Store/Deletion/Jobs.antt =====
-- internal/store/alias_deletion_job.go: the jobs of the legacy queue, which a worker saves as a
-- whole, and the history that an administrator clears.
use icloud_api_mangobubu.Base.{
  ℕ, ◌-◌, Bool, true, false, not, ◌&&◌, ◌||◌, Option, none, some, List, [], ◌∷◌, ◌++◌, ltb, ◌==◌,
  if◌then◌else◌, is_some, Result, ok, err, ◌>>=◌, ◌>>◌, require, or_fail, length, Text, text_eq,
  trim_space, first_where, update_where, select_where,
}
use icloud_api_mangobubu.Store.Encoding.{truncate}
use icloud_api_mangobubu.Store.Deletion.Types.{
  JobStatus, completed, interrupted, AliasDeletionJob, JobRow, MetadataRow, AuditLog, Db, Error,
  not_found, conflict, constraint_failed, is_unfinished,
}
use icloud_api_mangobubu.Store.Deletion.Normalize.{normalize_job}
use icloud_api_mangobubu.Store.Deletion.Snapshot.{job_key, metadata_key, with_metadata, get_job}
use icloud_api_mangobubu.Store.Deletion.Publish.{has_admin}
use icloud_api_mangobubu.Store.Deletion.Queue.{is_legacy}
use icloud_api_mangobubu.Store.Deletion.Enqueue.{default_status, row_of}

-- A row of alias_deletion_job_clearances.
pub record Clearance : Type 0 where
  pub admin_id : ℕ
  pub job_id : Text
  pub cleared_at : ℕ

abbrev pub clearance_key : ℕ → Text → Clearance → Bool
clearance_key admin id c = c.admin_id == admin && text_eq c.job_id id

-- The times that a new job starts with.
abbrev pub stamped : ℕ → AliasDeletionJob → AliasDeletionJob
stamped clock job =
    let created = if job.created_at == 0 then clock else job.created_at in
    record job {
      created_at = created;
      updated_at = if job.updated_at == 0 then created else job.updated_at;
    }

-- `CreateAliasDeletionJob`
unfoldable pub create_job : ℕ → AliasDeletionJob → Db → Result Error Db
create_job clock raw db = do
  job ← normalize_job (record raw { status = default_status raw.status })
  require (not (is_some (first_where (job_key job.admin_id job.id) db.jobs))) conflict
  require (is_some (first_where (has_admin job.admin_id) db.admins)) constraint_failed
  let new = stamped clock job
  ok (record db { jobs = db.jobs ++ row_of new new.items ∷ [] })

-- `GetAliasDeletionJob`
unfoldable pub read_job : Text → ℕ → Db → Result Error AliasDeletionJob
read_job id admin db = or_fail (get_job (trim_space id) admin db) not_found

-- The row that a legacy worker may write: its own, unfinished, and not of the queue of version 1.
abbrev pub writable : ℕ → Text → List MetadataRow → JobRow → Bool
writable admin id metadata r = job_key admin id r && is_legacy metadata r

abbrev pub progressed : AliasDeletionJob → ℕ → JobRow → JobRow
progressed job at r = record r { items = job.items; status = job.status; updated_at = at }

-- `insertAuditLog`, without the default of its time.
abbrev pub limited_log : AuditLog → AuditLog
limited_log log = record log {
  username = truncate log.username 128;
  ip = truncate log.ip 64;
  request_id = truncate log.request_id 128;
}

abbrev pub appended : Option AuditLog → List AuditLog → List AuditLog
appended none logs = logs
appended (some log) logs = logs ++ limited_log log ∷ []

-- `SaveAliasDeletionJob`
unfoldable pub save_job : ℕ → AliasDeletionJob → Option AuditLog → Db → Result Error Db
save_job clock raw audit db = do
  job ← normalize_job raw
  let at = if job.updated_at == 0 then clock else job.updated_at
  let key = writable job.admin_id job.id db.metadata
  if is_some (first_where key db.jobs)
      then ok (record db {
        jobs = update_where key (progressed job at) db.jobs;
        audits = appended audit db.audits;
      })
      else if is_some (first_where (job_key job.admin_id job.id) db.jobs)
      then err conflict
      else err not_found

abbrev pub interrupted_row : ℕ → JobRow → JobRow
interrupted_row clock r = record r { status = interrupted; updated_at = clock }

-- `InterruptAliasDeletionJobs`
unfoldable pub interrupt_jobs : ℕ → Db → Db
interrupt_jobs clock db = record db {
  jobs = update_where (is_legacy db.metadata) (interrupted_row clock) db.jobs;
}

abbrev pub is_completed : JobStatus → Bool
is_completed completed = true
is_completed _ = false

-- INSERT … SELECT … ON CONFLICT DO NOTHING, over the administrator's completed jobs
unfoldable pub add_clearances : ℕ → ℕ → List JobRow → List Clearance → List Clearance
add_clearances clock admin [] cs = cs
add_clearances clock admin (r ∷ rs) cs = add_clearances clock admin rs (
    if r.admin_id == admin
      && is_completed r.status
      && not (is_some (first_where (clearance_key admin r.id) cs))
    then cs ++ record { admin_id = admin; job_id = r.id; cleared_at = clock } ∷ []
    else cs)

abbrev pub text_le : Text → Text → Bool
text_le [] b = true
text_le (x ∷ a) [] = false
text_le (x ∷ a) (y ∷ b) = ltb x y || (x == y && text_le a b)

unfoldable pub insert_id : Text → List Text → List Text
insert_id a [] = a ∷ []
insert_id a (b ∷ bs) = if text_le a b then a ∷ b ∷ bs else b ∷ insert_id a bs

-- SELECT job_id … WHERE admin_id = ? ORDER BY job_id, in the order of the bytes
unfoldable pub cleared_ids : ℕ → List Clearance → List Text
cleared_ids admin [] = []
cleared_ids admin (c ∷ cs) =
    let rest = cleared_ids admin cs in if c.admin_id == admin then insert_id c.job_id rest else rest

-- `ClearCompletedAliasDeletionJobs`: the clearances, the number of new ones, and all the IDs.
unfoldable pub clear_completed :
    ℕ → ℕ → List JobRow → List Clearance → List Clearance × (ℕ × List Text)
clear_completed clock admin jobs cs =
    let after_clear = add_clearances clock admin jobs cs in
    (after_clear, (length after_clear - length cs, cleared_ids admin after_clear))

-- ORDER BY created_at DESC, id DESC
abbrev pub comes_first : JobRow → JobRow → Bool
comes_first a b =
    ltb b.created_at a.created_at || (a.created_at == b.created_at && text_le b.id a.id)

unfoldable pub insert_newest : JobRow → List JobRow → List JobRow
insert_newest r [] = r ∷ []
insert_newest r (s ∷ ss) = if comes_first r s then r ∷ s ∷ ss else s ∷ insert_newest r ss

unfoldable pub newest : List JobRow → List JobRow
newest [] = []
newest (r ∷ rs) = insert_newest r (newest rs)

-- A row with its metadata: `hydrateDeletionJobMetadata`.
abbrev pub hydrated : Db → JobRow → AliasDeletionJob
hydrated db r = with_metadata r (first_where (metadata_key r.admin_id r.id) db.metadata)

abbrev head_job : Db → List JobRow → Result Error AliasDeletionJob
head_job db [] = err not_found
head_job db (r ∷ rs) = ok (hydrated db r)

-- `GetLatestAliasDeletionJob`
unfoldable pub latest_job : ℕ → List Clearance → Db → Result Error AliasDeletionJob
latest_job admin cs db = head_job db (
    newest (
      select_where
        (λ r. r.admin_id == admin && not (is_some (first_where (clearance_key admin r.id) cs)))
        db.jobs))

-- `GetActiveAliasDeletionJob`
unfoldable pub active_job : ℕ → Db → Result Error AliasDeletionJob
active_job admin db =
    head_job db (newest (select_where (λ r. r.admin_id == admin && is_unfinished r.status) db.jobs))
