-- ===== src/Store/Seen/Tests.antt =====
-- The theorems on the outbox at concrete tables.
use icloud_api_mangobubu.Base.{
  ℕ, ◌+◌, min, ◌≡◌, ◌⊎◌, refl, Bool, true, false, some, List, [], ◌∷◌, arith, is_some, ok, length,
  codes, text_eq, first_where, count_where, delete_where, select_where,
}
use icloud_api_mangobubu.Store.Seen.Types.{SeenTask, Outbox}
use icloud_api_mangobubu.Store.Seen.Consume.{Expected, is_current, insert_new, consumed, consume_tx}
use icloud_api_mangobubu.Store.Seen.Tasks.{
  of_account, list_tasks, member, unique_uids, insert_number, sort_numbers, deletes, delete_tasks,
  list_accounts,
}
use icloud_api_mangobubu.Store.Seen.Once.{Later, deleting, consume_tx_once}
use icloud_api_mangobubu.Store.Seen.Queued.{Consumable, IsConsumed, consume_tx-exact}
use icloud_api_mangobubu.Store.Seen.Deleting.{delete_tasks-exact}
use icloud_api_mangobubu.Store.Seen.Listing.{Sorted, Precedes, list_tasks-Sorted}
use icloud_api_mangobubu.Store.Seen.Accounts.{list_accounts_complete}

abbrev key : List ℕ
key = 7 ∷ []

-- Alias 2 of account 1 has a latest message, synchronized at time 10.
abbrev fresh : Outbox
fresh = record {
  accounts = record { id = 1; enabled = true } ∷ [];
  aliases =
      record {
        id = 2;
        account_id = 1;
        enabled = true;
        api_key_hash = key;
        last_sync_status = codes "ok";
        last_synced_at = some 10;
      }
      ∷ [];
  latest_messages = record { alias_id = 2; uid_validity = 5; uid = 6; synced_at = 10 } ∷ [];
  consumed_messages = [];
  seen_tasks = [];
}

abbrev asked : Expected
asked = record {
  alias_id = 2;
  api_key_hash = key;
  last_synced_at = some 10;
  message_synced_at = some 10;
  uid_validity = 5;
  uid = 6;
}

abbrev task : ℕ → SeenTask
task at = record { account_id = 1; uid_validity = 5; uid = 6; created_at = at }

abbrev claimed : Outbox
claimed = record fresh {
  consumed_messages = record { alias_id = 2; uid_validity = 5; uid = 6; consumed_at = 11 } ∷ [];
  seen_tasks = task 11 ∷ [];
}

-- The worker has marked the message as seen.
abbrev emptied : Outbox
emptied = record claimed { seen_tasks = [] }

consume_tx_once_example : ◌≡◌ {A = Outbox × Bool} (emptied, false) (emptied, false)
unfolding consume_tx is_current first_where text_eq consumed insert_new delete_tasks unique_uids
    insert_number sort_numbers delete_where
consume_tx_once_example =
    consume_tx_once asked asked 1 1 11 12 fresh claimed emptied (emptied, false) refl
      (deleting 1 5 (6 ∷ []) Later.same refl) refl refl refl refl

consume_tx-exact_example :
    (held : Outbox) × (b : Bool) × (consume_tx asked 1 11 fresh ≡ ok (held, b))
    × (((b ≡ true) × Consumable asked 1 fresh × IsConsumed asked 1 11 fresh held)
        ⊎ ((b ≡ false) × (¬ Consumable asked 1 fresh) × (held ≡ fresh)))
unfolding first_where
consume_tx-exact_example =
    consume_tx-exact asked 1 11 fresh (record { id = 1; enabled = true }) refl

-- The consumption there gives true.
consumed_once : consume_tx asked 1 11 fresh ≡ ok (claimed, true)
unfolding consume_tx is_current first_where text_eq consumed insert_new
consumed_once = refl

abbrev other_task : SeenTask
other_task = record { account_id = 3; uid_validity = 5; uid = 6; created_at = 9 }

abbrev two : Outbox
two = record claimed { seen_tasks = task 11 ∷ other_task ∷ [] }

delete_tasks-exact_example :
    (count_where (deletes 1 5 (6 ∷ 6 ∷ [])) (record two { seen_tasks = other_task ∷ [] }).seen_tasks
      ≡ 0)
    × (count_where (of_account 3) (record two { seen_tasks = other_task ∷ [] }).seen_tasks
        ≡ count_where (of_account 3) two.seen_tasks)
unfolding delete_tasks unique_uids insert_number sort_numbers delete_where
delete_tasks-exact_example =
    delete_tasks-exact 1 5 (6 ∷ 6 ∷ []) two (record two { seen_tasks = other_task ∷ [] })
      (of_account 3) refl (λ r h. ground arith)

list_tasks-Sorted_example :
    (batch rest : List SeenTask) × (list_tasks 1 100 two ≡ ok batch)
    × (length batch ≡ min 100 (count_where (of_account 1) two.seen_tasks))
    × Sorted batch
    × Precedes batch rest
    × ((p : SeenTask → Bool)
        → count_where p batch + count_where p rest
          ≡ count_where p (select_where (of_account 1) two.seen_tasks))
list_tasks-Sorted_example =
    list_tasks-Sorted 1 100 two (omega arith) (omega arith) (refl, (refl, tt))

list_accounts_complete_example :
    (ids : List ℕ) × (list_accounts two ≡ ok ids)
    × (member 3 ids ≡ is_some (first_where (of_account 3) two.seen_tasks))
list_accounts_complete_example = list_accounts_complete two (omega arith, (omega arith, tt)) 3
