-- ===== src/Store/Deletion/Enqueue.antt =====
-- `EnqueueAliasDeletionJob` of internal/store/alias_deletion_queue.go. `to_lower` is
-- `strings.ToLower`; `new_id` gives the random ID that is drawn for the work of a sequence number.
use icloud_api_mangobubu.Store.Encoding.{sanitize_postgres_text, truncate}
use icloud_api_mangobubu.Base.{
  ℕ, ◌+◌, Bool, true, false, not, ◌&&◌, ◌||◌, Option, none, some, List, [], ◌∷◌, ◌++◌, leb, ◌==◌,
  if◌then◌else◌, is_some, Result, ok, ◌>>=◌, ◌>>◌, require, or_fail, Text, text_eq, is_blank,
  trim_space, first_where,
}
use icloud_api_mangobubu.Store.Deletion.Types.{
  pending, JobStatus, queued, unset, AliasDeletionWork, AliasDeletionJobItem, AliasDeletionJob,
  JobRow, JobWork, Admin, Db, Error, credentials_changed, duplicate_target, missing_target,
  constraint_failed, is_active,
}
use icloud_api_mangobubu.Store.Deletion.Normalize.{normalize_job}
use icloud_api_mangobubu.Store.Deletion.Snapshot.{
  has_id, deletion_job_status, apply_work, get_job, is_empty,
}
use icloud_api_mangobubu.Store.Deletion.Publish.{has_admin, prune}

-- The row of an active piece of work for one address of one Apple identity.
abbrev pub active_for : Text → Text → AliasDeletionWork → Bool
active_for subject address w =
    text_eq w.apple_subject subject && text_eq w.address address && is_active w.status

-- The INSERT fails on a key that is there.
unfoldable pub insert_work : AliasDeletionWork → Db → Result Error Db
insert_work w db = do
  require (not (is_some (first_where (has_id w.id) db.works))) constraint_failed
  ok (record db { works = db.works ++ w ∷ [] })

abbrev pub for_alias : ℕ → AliasDeletionWork → Bool
for_alias id t = t.alias_id == id

unfoldable pub has_duplicate : List AliasDeletionWork → Bool
has_duplicate [] = false
has_duplicate (t ∷ ts) = is_some (first_where (for_alias t.alias_id) ts) || has_duplicate ts

abbrev is_complete : AliasDeletionWork → Bool
is_complete t = leb 1 t.account_id && not (is_blank t.apple_subject) && not (is_blank t.address)

abbrev pub subscribe_item :
    AliasDeletionJobItem → AliasDeletionWork → AliasDeletionWork → AliasDeletionJobItem
subscribe_item item target work =
    apply_work
      (record item {
        account_id = target.account_id;
        account_email = work.account_email;
        apple_subject = work.apple_subject;
        work_id = work.id;
      })
      work

abbrev pub default_status : JobStatus → JobStatus
default_status unset = queued
default_status s = s

-- The rows that subscribe a job's items to their work.
unfoldable pub subscriptions : ℕ → Text → List AliasDeletionJobItem → List JobWork
subscriptions admin id [] = []
subscriptions admin id (item ∷ items) =
    let rest = subscriptions admin id items in
    if is_empty item.work_id
    then rest
    else record {
      admin_id = admin;
      job_id = id;
      alias_id = item.id;
      work_id = item.work_id;
      active = true;
      audited = false;
    }
      ∷ rest

abbrev password_matches : Option Admin → ℕ → Bool
password_matches none version = false
password_matches (some a) version = leb 1 version && a.password_version == version

-- The values that a new job starts with.
abbrev pub prepared : ℕ → AliasDeletionJob → AliasDeletionJob
prepared clock job = record job {
  created_at = if job.created_at == 0 then clock else job.created_at;
  updated_at = clock;
  queue_version = 1;
  cancel_requested = false;
  username = truncate job.username 128;
  ip = truncate job.ip 64;
  status = queued;
}

-- The row of a job, with its items normalized.
abbrev pub row_of : AliasDeletionJob → List AliasDeletionJobItem → JobRow
row_of job items = record {
  id = job.id;
  admin_id = job.admin_id;
  request_id = job.request_id;
  status = job.status;
  items = items;
  created_at = job.created_at;
  updated_at = job.updated_at;
}

-- The three INSERTs of a job.
unfoldable pub insert_job : AliasDeletionJob → Db → Result Error Db
unfolding subscriptions
insert_job job db = do
  clean ← normalize_job job
  ok (record db {
    jobs = db.jobs ++ row_of job clean.items ∷ [];
    metadata =
        db.metadata
        ++ record {
          admin_id = job.admin_id;
          job_id = job.id;
          queue_version = 1;
          password_version = job.authorizing_password_version;
          username = job.username;
          ip = job.ip;
          cancel_requested = false;
        }
          ∷ [];
    job_works = db.job_works ++ subscriptions job.admin_id job.id job.items;
  })

module _ (to_lower : Text → Text) (new_id : ℕ → Text) where
  abbrev pub normalize_target : AliasDeletionWork → AliasDeletionWork
  normalize_target t = record t {
    address = to_lower (trim_space (sanitize_postgres_text t.address));
    apple_subject = trim_space (sanitize_postgres_text t.apple_subject);
  }

  abbrev pub new_work : ℕ → ℕ → AliasDeletionWork → AliasDeletionWork
  new_work clock sequence target = record target {
    id = new_id sequence;
    sequence = sequence;
    status = pending;
    claim_token = [];
    created_at = clock;
    updated_at = clock;
  }

  -- Existing active work for the target, or new work behind all other.
  unfoldable pub find_or_append : ℕ → AliasDeletionWork → Db → Result Error (Db × AliasDeletionWork)
  unfolding insert_work
  find_or_append clock target db =
      elim (first_where (active_for target.apple_subject target.address) db.works) [
        | some w ↦ ok (db, w)
        | none ↦ do
          let work = new_work clock (db.sequence + 1) target
          next ← insert_work work (record db { sequence = db.sequence + 1 })
          ok (next, work)
      ]

  unfoldable pub enqueue_item :
      ℕ
      → List AliasDeletionWork
      → AliasDeletionJobItem
      → Db
      → Result Error (Db × AliasDeletionJobItem)
  enqueue_item clock targets item db = if item.done then ok (db, item) else (do
    target ← or_fail (first_where (for_alias item.id) targets) missing_target
    require (is_complete target) missing_target
    let clean = normalize_target target
    found ← find_or_append clock clean db
    ok (found.0, subscribe_item item clean found.1))

  unfoldable pub enqueue_items :
      ℕ
      → List AliasDeletionWork
      → List AliasDeletionJobItem
      → Db
      → Result Error (Db × List AliasDeletionJobItem)
  enqueue_items clock targets [] db = ok (db, [])
  enqueue_items clock targets (item ∷ items) db = do
    first ← enqueue_item clock targets item db
    rest ← enqueue_items clock targets items first.0
    ok (rest.0, first.1 ∷ rest.1)

  -- The transaction behind the lookup of the job.
  unfoldable pub enqueue_new :
      ℕ → List AliasDeletionWork → AliasDeletionJob → Db → Result Error (Db × AliasDeletionJob)
  unfolding has_duplicate enqueue_items insert_job
  enqueue_new clock targets job db = do
    require
        (password_matches (first_where (has_admin job.admin_id) db.admins)
          job.authorizing_password_version)
        credentials_changed
    pruned ← prune clock db
    require (not (has_duplicate targets)) duplicate_target
    let start = prepared clock job
    queue ← enqueue_items clock targets start.items pruned
    let job' = record start { items = queue.1; status = deletion_job_status start.status queue.1 }
    stored ← insert_job job' queue.0
    ok (stored, job')

  unfoldable pub enqueue :
      ℕ → List AliasDeletionWork → AliasDeletionJob → Db → Result Error (Db × AliasDeletionJob)
  unfolding enqueue_new
  enqueue clock targets raw db = do
    job ← normalize_job (record raw { status = default_status raw.status })
    elim (get_job job.id job.admin_id db) [
      | some existing ↦ ok (db, existing)
      | none ↦ enqueue_new clock targets job db
    ]
