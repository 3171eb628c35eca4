-- ===== src/Store/Seen/Queued.antt =====
-- What `ConsumeLatestMessage` of internal/store/seen.go does behind its lookup of the account, on
-- every branch, against the columns that its first statement names.
use icloud_api_mangobubu.Base.{
  ℕ, ◌≡◌, ◌⊎◌, inl, inr, refl, Bool, true, false, Option, none, some, List, [], ◌∷◌, ◌++◌, ◌+◌,
  arith, Bool-cases, Option-cases, ok, first_where, count_where,
}
use icloud_api_mangobubu.Store.Seen.Snapshot.{IsSnapshot, is_current-found, IsSnapshot-is_current}
use icloud_api_mangobubu.Store.Seen.Types.{
  Account, Alias, LatestMessage, ConsumedMessage, SeenTask, Outbox, task_key,
}
use icloud_api_mangobubu.Store.Seen.Consume.{
  Expected, account_key, consumed_key, insert_new, consumes, consumed, consume_tx,
}

-- There is such a row, and the message has no record of consumption.
abbrev pub Consumable : Expected → ℕ → Outbox → Type 0
Consumable e account_id t =
    ((a : Account) × (al : Alias) × (lm : LatestMessage) × IsSnapshot e account_id t a al lm)
    × (first_where (consumed_key e.alias_id e.uid_validity e.uid) t.consumed_messages ≡ none)

count_where-append {ℓ} :
    {A : Type ℓ} (p : A → Bool) (rows more : List A)
    → count_where p (rows ++ more) ≡ count_where p rows + count_where p more
unfolding count_where
count_where-append p [] more = ground arith
count_where-append p (r ∷ rs) more = ground (arith, count_where-append p rs more)

first_where-append_new {ℓ} :
    {A : Type ℓ} (p : A → Bool) (rows : List A) (new : A)
    → first_where p rows ≡ none
    → p new ≡ true
    → first_where p (rows ++ new ∷ []) ≡ some new
unfolding first_where
first_where-append_new p [] new n h = ground arith
first_where-append_new p (r ∷ rs) new n h = ground (arith, first_where-append_new p rs new)

-- The record and the task of a consumption.
abbrev pub record_of : Expected → ℕ → ConsumedMessage
record_of e at = record {
  alias_id = e.alias_id;
  uid_validity = e.uid_validity;
  uid = e.uid;
  consumed_at = at;
}

abbrev pub task_of : Expected → ℕ → ℕ → SeenTask
task_of e account_id at = record {
  account_id = account_id;
  uid_validity = e.uid_validity;
  uid = e.uid;
  created_at = at;
}

-- The task under the position, where an older one is kept, and the tasks that are added.
abbrev pub task_after : SeenTask → Option SeenTask → SeenTask
task_after new none = new
task_after new (some older) = older

abbrev pub tasks_added : SeenTask → Option SeenTask → List SeenTask
tasks_added new none = new ∷ []
tasks_added new (some older) = []

abbrev pub task_before : Expected → ℕ → Outbox → Option SeenTask
task_before e account_id t = first_where (task_key account_id e.uid_validity e.uid) t.seen_tasks

-- What a consumption leaves: one record more, and one task more unless there was one under its
-- position.
pub record IsConsumed (e : Expected) (account_id at : ℕ) (t held : Outbox) : Type 0 where
  pub recorded :
      first_where (consumed_key e.alias_id e.uid_validity e.uid) held.consumed_messages
      ≡ some (record_of e at)
  pub queued :
      first_where (task_key account_id e.uid_validity e.uid) held.seen_tasks
      ≡ some (task_after (task_of e account_id at) (task_before e account_id t))
  pub one_record :
      (p : ConsumedMessage → Bool)
      → count_where p held.consumed_messages
        ≡ count_where p t.consumed_messages + count_where p (record_of e at ∷ [])
  pub one_task :
      (p : SeenTask → Bool)
      → count_where p held.seen_tasks
        ≡ count_where p t.seen_tasks
          + count_where p (tasks_added (task_of e account_id at) (task_before e account_id t))
  pub same_accounts : held.accounts ≡ t.accounts
  pub same_aliases : held.aliases ≡ t.aliases
  pub same_messages : held.latest_messages ≡ t.latest_messages

insert_new-found :
    (key : SeenTask → Bool) (new : SeenTask) (rows : List SeenTask) (o : Option SeenTask)
    → first_where key rows ≡ o
    → key new ≡ true
    → first_where key (insert_new key new rows) ≡ some (task_after new o)
unfolding insert_new
insert_new-found key new rows none n h = rw n (first_where-append_new key rows new n h)
insert_new-found key new rows (some r) n h = rw n n

insert_new-count :
    (key p : SeenTask → Bool) (new : SeenTask) (rows : List SeenTask) (o : Option SeenTask)
    → first_where key rows ≡ o
    → count_where p (insert_new key new rows)
      ≡ count_where p rows + count_where p (tasks_added new o)
unfolding insert_new count_where
insert_new-count key p new rows none n = rw n (count_where-append p rows (new ∷ []))
insert_new-count key p new rows (some r) n = rw n (omega arith)

consumed-IsConsumed :
    (e : Expected) (account_id at : ℕ) (t : Outbox)
    → first_where (consumed_key e.alias_id e.uid_validity e.uid) t.consumed_messages ≡ none
    → IsConsumed e account_id at t (consumed e account_id at t)
unfolding consumed
consumed-IsConsumed e account_id at t n = record {
  recorded = first_where-append_new _ t.consumed_messages (record_of e at) n (ground arith);
  queued =
      insert_new-found (task_key account_id e.uid_validity e.uid) (task_of e account_id at)
        t.seen_tasks _ refl (ground arith);
  one_record = λ p. count_where-append p t.consumed_messages (record_of e at ∷ []);
  one_task = λ p.
      insert_new-count (task_key account_id e.uid_validity e.uid) p (task_of e account_id at)
        t.seen_tasks _ refl;
  same_accounts = refl;
  same_aliases = refl;
  same_messages = refl;
}

consumes-inv :
    (e : Expected) (account_id : ℕ) (t : Outbox)
    → consumes e account_id t ≡ true
    → Consumable e account_id t
consumes-inv e account_id t h = (
  is_current-found e account_id t (ground arith),
  elim (Option-cases
      (first_where (consumed_key e.alias_id e.uid_validity e.uid) t.consumed_messages)) [
        | inl n ↦ n
        | inr (c, n) ↦ absurd (ground (arith, rw n at h))
      ],
)

consumes-Consumable :
    (e : Expected) (account_id : ℕ) (t : Outbox)
    → Consumable e account_id t
    → consumes e account_id t ≡ true
consumes-Consumable e account_id t ((a, al, lm, s), n) =
    rw n (ground (arith, IsSnapshot-is_current e account_id t a al lm s))

-- For an account that is there, the transaction answers. It gives true exactly for a message not
-- consumed before, in the snapshot that the caller names: an enabled alias of the enabled account
-- with this API key, whose last synchronization succeeded at this time, and whose latest message
-- has this time and position. It then leaves one record of the consumption and a task to mark the
-- message as seen, an older task where there was one, and nothing else changes. Otherwise it gives
-- false and changes nothing.
pub consume_tx-exact :
    (e : Expected) (account_id at : ℕ) (t : Outbox) (a : Account)
    → first_where (account_key account_id) t.accounts ≡ some a
    → (held : Outbox) × (b : Bool) × (consume_tx e account_id at t ≡ ok (held, b))
      × (((b ≡ true) × Consumable e account_id t × IsConsumed e account_id at t held)
          ⊎ ((b ≡ false) × (¬ Consumable e account_id t) × (held ≡ t)))
unfolding consume_tx
consume_tx-exact e account_id at t a there = elim (Bool-cases (consumes e account_id t)) [
  | inl h ↦
      let (found, fresh) = consumes-inv e account_id t h in
      (
        consumed e account_id at t,
        true,
        rw (there, h) refl,
        inl (refl, (found, fresh), consumed-IsConsumed e account_id at t fresh),
      )
  | inr h ↦ (
    t,
    false,
    rw (there, h) refl,
    inr (
      refl,
      λ c. absurd (let k = consumes-Consumable e account_id t c in ground (arith, h, k)),
      refl,
    ),
  )
]
