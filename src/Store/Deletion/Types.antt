-- ===== src/Store/Deletion/Types.antt =====
-- The rows of the deletion queue: internal/domain/alias_deletion.go, alias_deletion_queue.go and
-- the schema in internal/store/alias_deletion_queue.go. A time is a number of nanoseconds since
-- 1970; a zero time is stored as 0.
use icloud_api_mangobubu.Base.{ℕ, Bool, true, false, Option, List, Text}

-- `AliasDeletionWork.Status`; `unknown` is any other text.
pub data WorkStatus : Type 0 where
  pending running waiting paused succeeded failed cancelled unknown : WorkStatus

-- `AliasDeletionJob.Status`; `unset` is the empty text, `unknown` any other.
pub data JobStatus : Type 0 where
  queued running completed interrupted unset unknown : JobStatus

-- A row of alias_deletion_work, and `domain.AliasDeletionWork`.
pub record AliasDeletionWork : Type 0 where
  pub id : Text
  pub sequence : ℕ
  pub account_id : ℕ
  pub alias_id : ℕ
  pub address : Text
  pub account_email : Text
  pub apple_id : Text
  pub apple_subject : Text
  pub status : WorkStatus
  pub claim_token : Text
  pub reconcile : Bool
  pub next_run_at : ℕ
  pub wait_reason : Text
  pub operation : Text
  pub used : ℕ
  pub limit : ℕ
  pub attempts : ℕ
  pub http_status : ℕ
  pub service_code : Text
  pub deleted : Bool
  pub code : Text
  pub message : Text
  pub local_retained : Bool
  pub created_at : ℕ
  pub updated_at : ℕ

-- `domain.AliasDeletionJobItem`; an empty `State` is `none`.
pub record AliasDeletionJobItem : Type 0 where
  pub id : ℕ
  pub address : Text
  pub done : Bool
  pub deleted : Bool
  pub code : Text
  pub message : Text
  pub local_retained : Bool
  pub account_id : ℕ
  pub account_email : Text
  pub apple_subject : Text
  pub work_id : Text
  pub state : Option WorkStatus
  pub retry_at : ℕ
  pub wait_reason : Text
  pub used : ℕ
  pub limit : ℕ
  pub operation : Text
  pub http_status : ℕ
  pub service_code : Text

-- `domain.AliasDeletionJob`
pub record AliasDeletionJob : Type 0 where
  pub id : Text
  pub admin_id : ℕ
  pub request_id : Text
  pub status : JobStatus
  pub items : List AliasDeletionJobItem
  pub created_at : ℕ
  pub updated_at : ℕ
  pub queue_version : ℕ
  pub authorizing_password_version : ℕ
  pub username : Text
  pub ip : Text
  pub cancel_requested : Bool

-- A row of alias_deletion_jobs.
pub record JobRow : Type 0 where
  pub id : Text
  pub admin_id : ℕ
  pub request_id : Text
  pub status : JobStatus
  pub items : List AliasDeletionJobItem
  pub created_at : ℕ
  pub updated_at : ℕ

-- A row of alias_deletion_job_metadata.
pub record MetadataRow : Type 0 where
  pub admin_id : ℕ
  pub job_id : Text
  pub queue_version : ℕ
  pub password_version : ℕ
  pub username : Text
  pub ip : Text
  pub cancel_requested : Bool

-- A row of alias_deletion_job_work: a job's subscription to a piece of work.
pub record JobWork : Type 0 where
  pub admin_id : ℕ
  pub job_id : Text
  pub alias_id : ℕ
  pub work_id : Text
  pub active : Bool
  pub audited : Bool

-- The columns of admins that the queue reads.
pub record Admin : Type 0 where
  pub id : ℕ
  pub password_version : ℕ

-- A row of audit_logs that the queue writes; the JSON of `detail` is kept as its fields.
pub record AuditLog : Type 0 where
  pub admin_id : ℕ
  pub username : Text
  pub resource_id : ℕ
  pub success : Bool
  pub ip : Text
  pub request_id : Text
  pub job_id : Text
  pub address : Text
  pub code : Text
  pub message : Text
  pub local_retained : Bool
  pub created_at : ℕ

pub record Db : Type 0 where
  pub sequence : ℕ
  pub works : List AliasDeletionWork
  pub jobs : List JobRow
  pub metadata : List MetadataRow
  pub job_works : List JobWork
  pub admins : List Admin
  pub audits : List AuditLog

pub data Error : Type 0 where
  not_found conflict credentials_changed invalid_status duplicate_target missing_target : Error
  bad_job_id bad_admin_id bad_item_count bad_item_id duplicate_item long_address : Error
  constraint_failed no_rows : Error

abbrev pub is_terminal : WorkStatus → Bool
is_terminal succeeded = true
is_terminal failed = true
is_terminal cancelled = true
is_terminal _ = false

-- `deletionWorkActivePredicate`
abbrev pub is_active : WorkStatus → Bool
is_active pending = true
is_active WorkStatus.running = true
is_active waiting = true
is_active paused = true
is_active _ = false

-- status IN ('pending', 'waiting', 'paused')
abbrev pub is_idle : WorkStatus → Bool
is_idle pending = true
is_idle waiting = true
is_idle paused = true
is_idle _ = false

abbrev pub is_running : WorkStatus → Bool
is_running WorkStatus.running = true
is_running _ = false

abbrev pub is_pending : WorkStatus → Bool
is_pending pending = true
is_pending _ = false

-- status IN ('queued', 'running')
abbrev pub is_unfinished : JobStatus → Bool
is_unfinished queued = true
is_unfinished running = true
is_unfinished _ = false
