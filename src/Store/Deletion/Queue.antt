-- ===== src/Store/Deletion/Queue.antt =====
-- The transactions of the deletion queue (internal/store/alias_deletion_queue.go). A transaction
-- that fails is rolled back; `clock` is the time that `s.now()` reads in it.
use icloud_api_mangobubu.Store.Encoding.{truncate}
use icloud_api_mangobubu.Base.{
  ℕ, ◌+◌, Bool, true, false, not, ◌&&◌, Option, none, some, List, [], ◌∷◌, ltb, leb, ◌==◌,
  if◌then◌else◌, is_some, Result, ok, ◌>>=◌, ◌>>◌, require, or_fail, Text, codes, text_eq,
  trim_space, first_where, update_where, select_where,
}
use icloud_api_mangobubu.Store.Deletion.Types.{
  WorkStatus, pending, interrupted, AliasDeletionWork, AliasDeletionJob, JobRow, MetadataRow, Db,
  Error, not_found, conflict, invalid_status, is_terminal, is_active, is_idle, is_running,
  is_unfinished,
}
use icloud_api_mangobubu.Store.Deletion.Snapshot.{
  has_id, metadata_key, is_finished, get_job, is_empty,
}
use icloud_api_mangobubu.Store.Deletion.Publish.{
  publish, update_work, cancel_work, cancel_unwanted, cancel_job_rows, prune, wanted,
}

-- An earlier piece of active work of the same Apple identity.
abbrev pub precedes : AliasDeletionWork → AliasDeletionWork → Bool
precedes w earlier =
    text_eq earlier.apple_subject w.apple_subject
    && ltb earlier.sequence w.sequence
    && is_active earlier.status

abbrev pub is_head : List AliasDeletionWork → AliasDeletionWork → Bool
is_head works w = not (is_some (first_where (precedes w) works))

abbrev pub is_due : ℕ → List AliasDeletionWork → AliasDeletionWork → Bool
is_due now works w = is_idle w.status && leb w.next_run_at now && is_head works w

-- ORDER BY sequence
unfoldable pub insert_by_sequence :
    AliasDeletionWork → List AliasDeletionWork → List AliasDeletionWork
insert_by_sequence w [] = w ∷ []
insert_by_sequence w (v ∷ vs) =
    if leb w.sequence v.sequence then w ∷ v ∷ vs else v ∷ insert_by_sequence w vs

unfoldable pub sort_by_sequence : List AliasDeletionWork → List AliasDeletionWork
unfolding insert_by_sequence
sort_by_sequence [] = []
sort_by_sequence (w ∷ ws) = insert_by_sequence w (sort_by_sequence ws)

-- `ListAliasDeletionQueueHeads`
unfoldable pub list_heads : ℕ → ℕ → Db → Result Error (Db × List AliasDeletionWork)
unfolding sort_by_sequence
list_heads clock now db = do
  pruned ← prune clock db
  ok (pruned, sort_by_sequence (select_where (is_due now pruned.works) pruned.works))

abbrev pub claimed : Text → ℕ → AliasDeletionWork → AliasDeletionWork
claimed token now w = record w {
  status = WorkStatus.running;
  claim_token = token;
  attempts = w.attempts + 1;
  updated_at = now;
}

abbrev pub claimable : Text → ℕ → List AliasDeletionWork → AliasDeletionWork → Bool
claimable id now works w = has_id id w && is_due now works w

-- `ClaimAliasDeletionWork`; `none` is ErrNotFound, behind which the pruning is kept.
unfoldable pub claim : Text → ℕ → ℕ → Text → Db → Result Error (Db × Option AliasDeletionWork)
claim token clock now id db = do
  pruned ← prune clock db
  elim (first_where (claimable id now pruned.works) pruned.works) [
    | none ↦ ok (pruned, none)
    | some w ↦ do
      let work = claimed token now w
      published ← publish work (update_work work pruned)
      ok (published, some work)
  ]

abbrev pub is_valid_status : WorkStatus → Bool
is_valid_status WorkStatus.unknown = false
is_valid_status _ = true

-- The identity, the order and the count of attempts come from the stored row.
abbrev pub keep_identity : AliasDeletionWork → AliasDeletionWork → AliasDeletionWork
keep_identity current work = record work {
  sequence = current.sequence;
  account_id = current.account_id;
  alias_id = current.alias_id;
  address = current.address;
  account_email = current.account_email;
  apple_id = current.apple_id;
  apple_subject = current.apple_subject;
  created_at = current.created_at;
  attempts = current.attempts;
}

abbrev pub cancel_if : Bool → AliasDeletionWork → AliasDeletionWork
cancel_if unwanted work =
    if unwanted && not (is_terminal work.status) && not work.reconcile
    then cancel_work work
    else work

abbrev pub bounded : ℕ → AliasDeletionWork → AliasDeletionWork
bounded clock work = record work {
  claim_token = if is_running work.status then work.claim_token else [];
  updated_at = clock;
  code = truncate (trim_space work.code) 64;
  message = truncate (trim_space work.message) 1024;
  wait_reason = truncate work.wait_reason 128;
  operation = truncate work.operation 64;
  service_code = truncate work.service_code 128;
}

-- The row that a save writes.
unfoldable pub saved : ℕ → Bool → AliasDeletionWork → AliasDeletionWork → AliasDeletionWork
saved clock is_wanted current work =
    bounded clock (cancel_if (not is_wanted) (keep_identity current work))

-- `current.Status == running && current.ClaimToken != "" && current.ClaimToken == work.ClaimToken`
abbrev pub holds_claim : AliasDeletionWork → AliasDeletionWork → Bool
holds_claim current work =
    is_running current.status
    && not (is_empty current.claim_token)
    && text_eq current.claim_token work.claim_token

-- `SaveAliasDeletionWork`
unfoldable pub save : ℕ → AliasDeletionWork → Db → Result Error Db
save clock work db = do
  require (is_valid_status work.status) invalid_status
  current ← or_fail (first_where (has_id work.id) db.works) not_found
  require (holds_claim current work) conflict
  pruned ← prune clock db
  let new = saved clock (wanted work.id pruned) current work
  publish new (update_work new pruned)

-- `CancelAliasDeletionJob`
unfoldable pub cancel : ℕ → Text → ℕ → Db → Result Error (Db × AliasDeletionJob)
cancel clock id admin db = do
  job ← or_fail (get_job id admin db) not_found
  if job.queue_version == 1 && not (is_finished job.status)
      then (do
        marked ← cancel_job_rows clock job false db
        settled ← cancel_unwanted clock marked
        after_cancel ← or_fail (get_job id admin settled) not_found
        ok (settled, after_cancel))
      else ok (db, job)

-- `AliasDeletionWorkWanted`
unfoldable pub work_wanted : ℕ → Text → Db → Result Error (Db × Bool)
work_wanted clock id db = do pruned ← prune clock db; ok (pruned, wanted id pruned)

abbrev is_current : Option MetadataRow → Bool
is_current none = false
is_current (some m) = m.queue_version == 1

-- The jobs that a restart interrupts: the unfinished ones of the legacy queue.
abbrev pub is_legacy : List MetadataRow → JobRow → Bool
is_legacy metadata r =
    is_unfinished r.status && not (is_current (first_where (metadata_key r.admin_id r.id) metadata))

abbrev pub recovered : ℕ → AliasDeletionWork → AliasDeletionWork
recovered clock w = record w {
  status = pending;
  claim_token = [];
  reconcile = true;
  next_run_at = 0;
  wait_reason = codes "reconcile";
  updated_at = clock;
}

unfoldable pub recover_works : ℕ → List AliasDeletionWork → Db → Result Error Db
recover_works clock [] db = ok db
recover_works clock (w ∷ ws) db = do
  let work = recovered clock w
  next ← publish work (update_work work db)
  recover_works clock ws next

-- `RecoverAliasDeletionQueue`
unfoldable pub recover : ℕ → Db → Result Error Db
recover clock db = do
  let marked = record db {
    jobs =
        update_where (is_legacy db.metadata)
          (λ r. record r { status = interrupted; updated_at = clock }) db.jobs;
  }
  resumed ← recover_works clock (select_where (λ w. is_running w.status) marked.works) marked
  prune clock resumed
