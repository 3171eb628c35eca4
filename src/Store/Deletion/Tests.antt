-- ===== src/Store/Deletion/Tests.antt =====
-- The queue's theorems at concrete databases.
use icloud_api_mangobubu.Base.{
  ℕ, ◌+◌, ◌≤◌, ◌≡◌, ◌⊎◌, refl, true, false, ◌&&◌, Option, none, some, List, [], ◌∷◌, map, arith,
  leb, if◌then◌else◌, Result, ok, err, length, Text, codes, text_eq, trim_space, first_where,
  count_where, update_key, update_where, select_where,
}
use icloud_api_mangobubu.Store.Deletion.Types.{
  WorkStatus, pending, cancelled, queued, interrupted, unset, AliasDeletionWork,
  AliasDeletionJobItem, AliasDeletionJob, Admin, Db, Error, is_running,
}
use icloud_api_mangobubu.Store.Deletion.Normalize.{
  normalize_job, normalize_items, normalize_job-Distinct, Distinct, max_alias_deletion_job_items,
}
use icloud_api_mangobubu.Store.Deletion.Snapshot.{
  has_id, deletion_job_status, apply_work, get_job, with_metadata, write_snapshot, audit_item,
  audit_loop, audit_items, is_empty,
}
use icloud_api_mangobubu.Store.Deletion.Publish.{
  subscribers, apply_items, publish_job, publish_jobs, publish, cancel_works, cancel_unwanted,
  cancel_items, cancel_job_rows, stale_jobs, prune_jobs, prune, wanted,
}
use icloud_api_mangobubu.Store.Deletion.Heads.{list_heads_once}
use icloud_api_mangobubu.Store.Deletion.Queue.{
  list_heads, precedes, claimed, claim, saved, save, recovered, recover_works, recover,
}
use icloud_api_mangobubu.Store.Deletion.Enqueue.{find_or_append, enqueue_item, enqueue}
use icloud_api_mangobubu.Store.Deletion.Pruning.{Ordered}
use icloud_api_mangobubu.Store.Deletion.Claims.{save_fenced, claim_twice}
use icloud_api_mangobubu.Store.Deletion.Requests.{enqueue_twice}
use icloud_api_mangobubu.Store.Deletion.Cancelling.{
  Matches, IsCancelled, cancel_job_rows-IsCancelled,
}
use icloud_api_mangobubu.Store.Deletion.Recovery.{recover_in_flight}
use icloud_api_mangobubu.Store.Deletion.Runs.{
  Call, enqueues, claims, changes_admins, step, run, run-one_running, run-in_order,
}
use icloud_api_mangobubu.Store.Encoding.{sanitize_postgres_text, truncate}

abbrev apple : Text
apple = codes "apple"

abbrev token : Text
token = codes "t"

abbrev work_id : Text
work_id = codes "1"

-- Work for one address, as a request names it.
abbrev target : AliasDeletionWork
target = record {
  id = [];
  sequence = 0;
  account_id = 3;
  alias_id = 7;
  address = codes "x@icloud.com";
  account_email = codes "me@icloud.com";
  apple_id = codes "me";
  apple_subject = apple;
  status = pending;
  claim_token = [];
  reconcile = false;
  next_run_at = 0;
  wait_reason = [];
  operation = [];
  used = 0;
  limit = 0;
  attempts = 0;
  http_status = 0;
  service_code = [];
  deleted = false;
  code = [];
  message = [];
  local_retained = false;
  created_at = 0;
  updated_at = 0;
}

abbrev stored_work : AliasDeletionWork
stored_work = record target { id = work_id; sequence = 1; created_at = 5; updated_at = 5 }

abbrev item : AliasDeletionJobItem
item = record {
  id = 7;
  address = codes "x@icloud.com";
  done = false;
  deleted = false;
  code = [];
  message = [];
  local_retained = false;
  account_id = 3;
  account_email = codes "me@icloud.com";
  apple_subject = apple;
  work_id = work_id;
  state = some pending;
  retry_at = 0;
  wait_reason = [];
  used = 0;
  limit = 0;
  operation = [];
  http_status = 0;
  service_code = [];
}

abbrev pub job : AliasDeletionJob
job = record {
  id = codes "j";
  admin_id = 1;
  request_id = [];
  status = unset;
  items = record item { work_id = []; state = none } ∷ [];
  created_at = 0;
  updated_at = 0;
  queue_version = 0;
  authorizing_password_version = 1;
  username = codes "root";
  ip = [];
  cancel_requested = false;
}

abbrev pub queued_job : AliasDeletionJob
queued_job = record job { status = queued }

abbrev admins : List Admin
admins = record { id = 1; password_version = 1 } ∷ []

-- One job asks for one piece of work.
abbrev queue_of : AliasDeletionWork → Db
queue_of work = record {
  sequence = 1;
  works = work ∷ [];
  jobs =
      record {
        id = codes "j";
        admin_id = 1;
        request_id = [];
        status = queued;
        items = item ∷ [];
        created_at = 5;
        updated_at = 5;
      }
      ∷ [];
  metadata =
      record {
        admin_id = 1;
        job_id = codes "j";
        queue_version = 1;
        password_version = 1;
        username = codes "root";
        ip = [];
        cancel_requested = false;
      }
      ∷ [];
  job_works =
      record {
        admin_id = 1;
        job_id = codes "j";
        alias_id = 7;
        work_id = work_id;
        active = true;
        audited = false;
      }
      ∷ [];
  admins = admins;
  audits = [];
}

abbrev pub waiting_queue : Db
waiting_queue = queue_of stored_work

abbrev running_work : AliasDeletionWork
running_work = claimed token 6 stored_work

abbrev running_queue : Db
running_queue = queue_of running_work

-- What the worker reports.
abbrev outcome : AliasDeletionWork
outcome = record running_work { status = WorkStatus.succeeded; deleted = true }

abbrev pub get_ok {ℓ} : {A : Type ℓ} → Result Error A → A → A
get_ok (ok r) d = r
get_ok (err e) d = d

running-Ordered : Ordered running_queue
unfolding first_where text_eq
running-Ordered = record {
  unique = (refl, tt);
  increasing = (tt, tt);
  heads = (refl, tt);
  issued = (omega arith, tt);
}

waiting-Ordered : Ordered waiting_queue
unfolding first_where
waiting-Ordered = record {
  unique = (refl, tt);
  increasing = (tt, tt);
  heads = (refl, tt);
  issued = (omega arith, tt);
}

abbrev saved_queue : Db
saved_queue = get_ok (save 9 outcome running_queue) running_queue

save_fenced_example :
    (current new : AliasDeletionWork) × (first_where (has_id work_id) running_queue.works
      ≡ some current)
    × (is_running current.status ≡ true)
    × (current.claim_token ≡ token)
    × (first_where (has_id work_id) saved_queue.works ≡ some new)
    × ((new.status ≡ WorkStatus.succeeded) ⊎ (new.status ≡ cancelled))
    × (new.sequence ≡ current.sequence)
    × (new.apple_subject ≡ current.apple_subject)
    × (new.address ≡ current.address)
    × (new.account_id ≡ current.account_id)
    × (new.alias_id ≡ current.alias_id)
    × (new.attempts ≡ current.attempts)
unfolding save saved wanted prune stale_jobs prune_jobs cancel_unwanted cancel_works select_where
    first_where text_eq update_key update_where publish publish_jobs publish_job subscribers
    apply_items get_job write_snapshot audit_items audit_loop audit_item normalize_job trim_space
    deletion_job_status apply_work normalize_items sanitize_postgres_text
save_fenced_example = save_fenced 9 outcome running_queue saved_queue running-Ordered refl

abbrev claimed_queue : Db
claimed_queue = (get_ok (claim token 6 6 work_id waiting_queue) (waiting_queue, none)).0

claim_twice_example : ◌≡◌ {A = Option AliasDeletionWork} none none
unfolding claim prune stale_jobs prune_jobs cancel_unwanted cancel_works select_where first_where
    text_eq update_key update_where publish publish_jobs publish_job subscribers apply_items get_job
    write_snapshot audit_items audit_loop audit_item normalize_job trim_space deletion_job_status
    apply_work normalize_items sanitize_postgres_text
claim_twice_example =
    claim_twice token (codes "u") 6 6 7 7 work_id waiting_queue claimed_queue claimed_queue
      running_work none waiting-Ordered refl refl

recover_in_flight_example :
    first_where (has_id work_id) (get_ok (recover 8 running_queue) running_queue).works
    ≡ some (recovered 8 running_work)
unfolding recover recover_works prune stale_jobs prune_jobs cancel_unwanted cancel_works
    select_where first_where text_eq update_key update_where publish publish_jobs publish_job
    subscribers apply_items get_job write_snapshot audit_items audit_loop audit_item normalize_job
    trim_space deletion_job_status apply_work normalize_items sanitize_postgres_text
recover_in_flight_example =
    recover_in_flight 8 work_id running_queue (get_ok (recover 8 running_queue) running_queue)
      running_work running-Ordered refl refl refl

abbrev lower : Text → Text
lower t = map (λ c. if leb 65 c && leb c 90 then c + 32 else c) t

abbrev id_of : ℕ → Text
id_of n = (48 + n) ∷ []

abbrev calls : List Call
calls = claims token 6 6 work_id ∷ enqueues 5 (target ∷ []) job ∷ changes_admins admins ∷ []

run-one_running_example :
    count_where
      (λ w. is_running w.status && text_eq w.apple_subject apple)
      (run lower id_of calls).works
    ≤ 1
run-one_running_example = run-one_running lower id_of calls apple

run-in_order_example : first_where (precedes running_work) (run lower id_of calls).works ≡ none
unfolding claim prune stale_jobs prune_jobs cancel_unwanted cancel_works select_where first_where
    text_eq update_key update_where publish publish_jobs publish_job subscribers apply_items get_job
    write_snapshot audit_items audit_loop audit_item normalize_job trim_space deletion_job_status
    apply_work normalize_items sanitize_postgres_text step run enqueue enqueue_item find_or_append
run-in_order_example = run-in_order lower id_of calls work_id {w = running_work} refl refl

abbrev asked : Db × AliasDeletionJob
asked =
    get_ok (enqueue lower id_of 5 (target ∷ []) job (run lower id_of (changes_admins admins ∷ [])))
      (waiting_queue, job)

enqueue_twice_example :
    (j : AliasDeletionJob) × (get_job asked.1.id asked.1.admin_id asked.0 ≡ some j)
    × (j.id ≡ asked.1.id)
    × (j.admin_id ≡ asked.1.admin_id)
    × (enqueue lower id_of 9 [] job asked.0 ≡ ok (asked.0, j))
unfolding claim prune stale_jobs prune_jobs cancel_unwanted cancel_works select_where first_where
    text_eq update_key update_where publish publish_jobs publish_job subscribers apply_items get_job
    write_snapshot audit_items audit_loop audit_item normalize_job trim_space deletion_job_status
    apply_work normalize_items sanitize_postgres_text step run enqueue enqueue_item find_or_append
enqueue_twice_example =
    enqueue_twice lower id_of 5 9 (target ∷ []) [] job
      (run lower id_of (changes_admins admins ∷ [])) asked refl

-- The stored job, and what its interruption leaves.
abbrev stored_job : AliasDeletionJob
stored_job = record job {
  status = queued;
  items = item ∷ [];
  created_at = 5;
  updated_at = 5;
  queue_version = 1;
}

abbrev interrupted_queue : Db
interrupted_queue = get_ok (cancel_job_rows 9 stored_job true waiting_queue) waiting_queue

cancel_job_rows-IsCancelled_example :
    (stored : AliasDeletionJob) × (get_job (codes "j") 1 interrupted_queue ≡ some stored)
    × Matches (IsCancelled waiting_queue.works) stored_job.items stored.items
    × (stored.updated_at ≡ 9)
    × ((true ≡ false) ⊎ (stored.status ≡ interrupted))
unfolding cancel_job_rows cancel_items get_job with_metadata first_where text_eq update_where
    update_key write_snapshot audit_items audit_loop audit_item normalize_job normalize_items
    trim_space sanitize_postgres_text truncate
cancel_job_rows-IsCancelled_example =
    cancel_job_rows-IsCancelled 9 stored_job true waiting_queue interrupted_queue refl refl

normalize_job-Distinct_example :
    (1 ≤ job.admin_id)
    × (is_empty job.id ≡ false)
    × (job.id ≡ trim_space job.id)
    × (1 ≤ length job.items)
    × (length job.items ≤ max_alias_deletion_job_items)
    × Distinct [] queued_job.items
    × (map (λ i. i.id) queued_job.items ≡ map (λ i. i.id) job.items)
unfolding normalize_job normalize_items trim_space sanitize_postgres_text truncate
normalize_job-Distinct_example = normalize_job-Distinct queued_job queued_job refl

abbrev listed : Db × List AliasDeletionWork
listed = get_ok (list_heads 6 6 waiting_queue) (waiting_queue, [])

list_heads_once_example : count_where (λ w. text_eq w.apple_subject apple) listed.1 ≤ 1
unfolding list_heads prune stale_jobs prune_jobs cancel_unwanted cancel_works select_where
    first_where text_eq update_key update_where publish publish_jobs publish_job subscribers
    apply_items get_job write_snapshot audit_items audit_loop audit_item
list_heads_once_example = list_heads_once 6 6 waiting_queue listed apple waiting-Ordered refl
