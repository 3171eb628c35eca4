-- ===== src/Syncer/SeenWorker.antt =====
-- internal/syncer/seen_worker.go: the turns of the worker that marks messages as seen. The accounts
-- of a turn are processed one after the other: their workers touch different rows.
use icloud_api_mangobubu.Base.{
  ℕ, zero, suc, ◌+◌, ◌-◌, min, Bool, true, false, ◌&&◌, ◌||◌, Option, none, some, List, [], ◌∷◌,
  ◌++◌, ltb, leb, ◌==◌, if◌then◌else◌, Result, ok, err, length, first_where, upsert, delete_where,
  select_where,
}
use icloud_api_mangobubu.Store.Seen.Types.{Account, SeenTask, Outbox, Error}
use icloud_api_mangobubu.Store.Seen.Tasks.{list_tasks, member, delete_tasks, list_accounts}

-- A batch of UIDs of one mailbox generation; `seen` of the source is the same set.
pub record SeenUidBatch : Type 0 where
  pub uid_validity : ℕ
  pub uids : List ℕ

-- A task in the batch of its generation.
unfoldable pub place_task : SeenTask → List SeenUidBatch → List SeenUidBatch
place_task t [] = record { uid_validity = t.uid_validity; uids = t.uid ∷ [] } ∷ []
place_task t (b ∷ bs) =
    if b.uid_validity == t.uid_validity
    then (if member t.uid b.uids then b else record b { uids = b.uids ++ t.uid ∷ [] }) ∷ bs
    else b ∷ place_task t bs

-- The loop of `groupSeenTasks`; `none` is a task of another account.
unfoldable pub place_tasks : ℕ → List SeenTask → List SeenUidBatch → Option (List SeenUidBatch)
place_tasks id [] batches = some batches
place_tasks id (t ∷ ts) batches = elim (t.account_id == id) [
  | true ↦ place_tasks id ts (place_task t batches)
  | false ↦ none
]

-- `groupSeenTasks`
unfoldable pub group_seen_tasks : ℕ → List SeenTask → Option (List SeenUidBatch)
group_seen_tasks id tasks = place_tasks id tasks []

-- The outcome of MarkSeen.
pub data Mark : Type 0 where
  marked mismatch failed : Mark

-- What the worker calls besides the store: the slot of the locker, the cipher and the marker.
pub record Calls : Type 0 where
  pub acquires : ℕ → Bool
  pub decrypts : ℕ → Bool
  pub mark : ℕ → ℕ → List ℕ → Mark

abbrev pub deleted : Result Error Outbox → Option Outbox
deleted (ok u) = some u
deleted (err e) = none

abbrev pub delete_batch : ℕ → SeenUidBatch → Outbox → Option Outbox
delete_batch id b t = deleted (delete_tasks id b.uid_validity b.uids t)

-- A generation that is gone is dropped.
abbrev pub after_mark : ℕ → SeenUidBatch → Outbox → Mark → Option Outbox
after_mark id b t marked = delete_batch id b t
after_mark id b t mismatch = delete_batch id b t
after_mark id b t failed = none

-- One turn of the loop of `processAccount`
unfoldable pub process_batch : Calls → ℕ → SeenUidBatch → Outbox → Option Outbox
process_batch calls id b t = after_mark id b t (calls.mark id b.uid_validity b.uids)

-- The loop; `false` is the return of an error, which keeps what was deleted before.
unfoldable pub process_batches : Calls → ℕ → List SeenUidBatch → Outbox → Outbox × Bool
process_batches calls id [] t = (t, true)
process_batches calls id (b ∷ bs) t = elim (process_batch calls id b t) [
  | none ↦ (t, false)
  | some u ↦ process_batches calls id bs u
]

abbrev pub has_id : ℕ → Account → Bool
has_id id a = a.id == id

abbrev pub is_open : ℕ → Outbox → Bool
is_open id t = elim (first_where (has_id id) t.accounts) [ none ↦ false | some a ↦ a.enabled ]

pub record Pending : Type 0 where
  pub id : ℕ
  pub batches : List SeenUidBatch
  pub task_count : ℕ

-- `processAccount`
unfoldable pub process_account : Calls → Pending → Outbox → Outbox × Bool
process_account calls p t =
    if calls.acquires p.id && (is_open p.id t && calls.decrypts p.id)
    then process_batches calls p.id p.batches t
    else (t, false)

-- An entry of `retryAfter`.
pub record Retry : Type 0 where
  pub account_id : ℕ
  pub at : ℕ

pub record Settings : Type 0 where
  pub interval : ℕ
  pub batch_size : ℕ

abbrev pub of_retry : ℕ → Retry → Bool
of_retry id r = r.account_id == id

-- `deferred && now.Before(retryAt)`
abbrev pub is_deferred : ℕ → ℕ → List Retry → Bool
is_deferred id now retries = elim (first_where (of_retry id) retries) [
  | none ↦ false
  | some r ↦ ltb now r.at
]

-- `deferAccount`
unfoldable pub defer_account : Settings → ℕ → ℕ → List Retry → List Retry
defer_account s id now retries =
    upsert (of_retry id) (record { account_id = id; at = now + s.interval }) retries

-- The accounts that a turn works on, and those that it puts off.
pub record Plan : Type 0 where
  pub pending : List Pending
  pub retries : List Retry

abbrev pub grouped : ℕ → List SeenTask → Option (List SeenUidBatch) → Option (Option Pending)
grouped id tasks none = none
grouped id tasks (some batches) =
    some (some (record { id = id; batches = batches; task_count = length tasks }))

abbrev pub listed_tasks : ℕ → List SeenTask → Option (Option Pending)
listed_tasks id [] = some none
listed_tasks id (t ∷ ts) = grouped id (t ∷ ts) (group_seen_tasks id (t ∷ ts))

abbrev pub listed_result : ℕ → Result Error (List SeenTask) → Option (Option Pending)
listed_result id (ok tasks) = listed_tasks id tasks
listed_result id (err e) = none

-- One account of the loop: its tasks, in batches; `none` is an error, `some none` no tasks.
abbrev pub list_account : Settings → Outbox → ℕ → Option (Option Pending)
list_account s t id = listed_result id (list_tasks id s.batch_size t)

abbrev pub listed : Settings → ℕ → ℕ → Plan → Option (Option Pending) → Plan
listed s now id plan none = record plan { retries = defer_account s id now plan.retries }
listed s now id plan (some none) = plan
listed s now id plan (some (some p)) = record plan { pending = plan.pending ++ p ∷ [] }

-- The loop over the accounts with tasks; `considered` holds those before.
unfoldable pub list_pending : Settings → ℕ → Outbox → List ℕ → List ℕ → Plan → Plan
list_pending s now t considered [] plan = plan
list_pending s now t considered (id ∷ ids) plan =
    elim (member id considered || is_deferred id now plan.retries) [
      | true ↦ list_pending s now t (id ∷ considered) ids plan
      | false ↦
          let free = record plan { retries = delete_where (of_retry id) plan.retries } in
          list_pending s now t (id ∷ considered) ids (listed s now id free (list_account s t id))
    ]

-- The workers, and the loop over their results.
unfoldable pub run_pending :
    Settings → Calls → ℕ → List Pending → Outbox → List Retry → (Outbox × List Retry) × Bool
run_pending s calls now [] t retries = ((t, retries), false)
run_pending s calls now (p ∷ ps) t retries =
    let (u, went) = process_account calls p t in
    let later = if went then retries else defer_account s p.id now retries in
    let (rest, more) = run_pending s calls now ps u later in
    (rest, (went && leb s.batch_size p.task_count) || more)

-- The plan of a turn; entries of accounts without tasks are dropped.
abbrev pub plan_of : Settings → ℕ → Outbox → List ℕ → List Retry → Plan
plan_of s now t ids retries =
    list_pending s now t [] ids
      (record { pending = []; retries = select_where (λ r. member r.account_id ids) retries })

abbrev pub process_ids :
    Settings
    → Calls
    → ℕ
    → Outbox
    → List Retry
    → Result Error (List ℕ)
    → (Outbox × List Retry) × Bool
process_ids s calls now t retries (err e) = ((t, retries), false)
process_ids s calls now t retries (ok []) = ((t, []), false)
process_ids s calls now t retries (ok (id ∷ ids)) =
    let plan = plan_of s now t (id ∷ ids) retries in
    run_pending s calls now plan.pending t plan.retries

-- `processPending`: the outbox, the entries of `retryAfter`, and whether there may be more.
unfoldable pub process_pending :
    Settings → Calls → ℕ → Outbox → List Retry → (Outbox × List Retry) × Bool
process_pending s calls now t retries = process_ids s calls now t retries (list_accounts t)

-- The loop of `wait` over `retryAfter`.
abbrev delay_until : ℕ → List Retry → ℕ → ℕ
delay_until now [] delay = delay
delay_until now (r ∷ rs) delay =
    let rest = delay_until now rs (min (r.at - now) delay) in if leb r.at now then 0 else rest

-- How long `wait` sleeps at most.
unfoldable pub wait_delay : Settings → ℕ → List Retry → ℕ
wait_delay s now retries = delay_until now retries s.interval

-- The turns of `Run` between two waits, where nothing arrives meanwhile; `none` is no more fuel. The
-- calls and the clock may answer otherwise in each turn.
unfoldable pub drain :
    ℕ → Settings → (ℕ → Calls) → (ℕ → ℕ) → Outbox → List Retry → Option (Outbox × List Retry)
drain zero s calls clock t retries = none
drain (suc fuel) s calls clock t retries =
    let (next, more) = process_pending s (calls fuel) (clock fuel) t retries in
    elim more [ true ↦ drain fuel s calls clock next.0 next.1 | false ↦ some next ]
