-- ===== src/Syncer/Tests.antt =====
-- The worker on a concrete outbox.
use icloud_api_mangobubu.Base.{
  ℕ, ◌≤◌, ◌≡◌, refl, true, some, List, [], ◌∷◌, arith, ◌==◌, if◌then◌else◌, length, first_where,
  delete_where, select_where,
}
use icloud_api_mangobubu.Store.Seen.Types.{SeenTask, Outbox}
use icloud_api_mangobubu.Store.Seen.Tasks.{
  insert_task, sort_tasks, limited, scan_tasks, list_tasks, unique_uids, insert_number,
  sort_numbers, delete_tasks, add_task, group_tasks, insert_group, sort_groups, scan_groups,
  list_accounts,
}
use icloud_api_mangobubu.Syncer.SeenWorker.{
  place_task, place_tasks, group_seen_tasks, marked, mismatch, Calls, process_batch,
  process_batches, process_account, Retry, Settings, defer_account, list_pending, run_pending,
  process_pending, drain,
}
use icloud_api_mangobubu.Syncer.Draining.{drain-ends}

abbrev task : ℕ → ℕ → SeenTask
task validity uid = record { account_id = 1; uid_validity = validity; uid = uid; created_at = 9 }

abbrev outbox : Outbox
outbox = record {
  accounts = record { id = 1; enabled = true } ∷ [];
  aliases = [];
  latest_messages = [];
  consumed_messages = [];
  seen_tasks = task 5 1 ∷ task 5 2 ∷ task 6 1 ∷ [];
}

abbrev settings : Settings
settings = record { interval = 60000000000; batch_size = 2 }

-- A server that knows only the generation 5.
abbrev answers : Calls
answers = record {
  acquires = λ id. true;
  decrypts = λ id. true;
  mark = λ id validity uids. if validity == 5 then marked else mismatch;
}

drain-ends_example :
    (out : Outbox × List Retry) × (drain 4 settings (λ turn. answers) (λ turn. 100) outbox []
      ≡ some out)
    × (length out.0.seen_tasks ≤ 3)
drain-ends_example = drain-ends 4 settings (λ turn. answers) (λ turn. 100) outbox [] (omega arith)

-- Two turns empty the outbox.
drained :
    drain 2 settings (λ turn. answers) (λ turn. 100) outbox []
    ≡ some (record outbox { seen_tasks = [] }, [])
unfolding drain process_pending list_accounts group_tasks add_task sort_groups insert_group
    scan_groups list_pending select_where delete_where first_where list_tasks scan_tasks limited
    sort_tasks insert_task group_seen_tasks place_tasks place_task run_pending process_account
    process_batches process_batch delete_tasks unique_uids sort_numbers insert_number defer_account
drained = refl
