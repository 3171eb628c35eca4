-- ===== src/Store/Seen/Once.antt =====
-- A message is consumed once (internal/store/seen.go).
use icloud_api_mangobubu.Base.{
  ℕ, ◌≡◌, subst, ◌⊎◌, inl, inr, sym, ap, ◌∙◌, Bool, true, false, some, List, [], ◌∷◌, ◌++◌, leb,
  >>=-eq-ok, arith, Bool-cases, if-eq_true, if-eq_false, is_some, ok, ok-injective, require-inv,
  first_where, first_where-append,
}
use icloud_api_mangobubu.Store.Seen.Types.{
  Account, Alias, LatestMessage, ConsumedMessage, SeenTask, Outbox, bad_account_id,
  bad_uid_validity, not_found,
}
use icloud_api_mangobubu.Store.Seen.Consume.{
  Expected, account_key, consumed_key, consumes, consumed, consume_tx,
}
use icloud_api_mangobubu.Store.Seen.Tasks.{unique_uids, delete_tasks}

pub consume_tx-inv :
    (e : Expected) (account_id at : ℕ) (t : Outbox) {r : Outbox × Bool}
    → consume_tx e account_id at t ≡ ok r
    → ((consumes e account_id t ≡ true) × (r ≡ (consumed e account_id at t, true)))
      ⊎ (r ≡ (t, false))
unfolding consume_tx
consume_tx-inv e account_id at t {r} h =
    let (there, h1) =
      require-inv (is_some (first_where (account_key account_id) t.accounts)) not_found _ h in
    elim (Bool-cases (consumes e account_id t)) [
      | inl k ↦ inl (
        k,
        sym (ok-injective (consumed e account_id at t, true) r (sym (if-eq_true _ _ _ k) ∙ h1)),
      )
      | inr k ↦ inr (sym (ok-injective (t, false) r (sym (if-eq_false _ _ _ k) ∙ h1)))
    ]

pub true-false : (a b : Outbox) → ◌≡◌ {A = Outbox × Bool} (a, true) (b, false) → ⊥
true-false a b q = cc

-- What a consumption that succeeds leaves of the row that it records.
pub recorded :
    (e : Expected) (account_id at : ℕ) (t : Outbox)
    → (c : ConsumedMessage) × (first_where
          (consumed_key e.alias_id e.uid_validity e.uid)
          (consumed e account_id at t).consumed_messages
        ≡ some c)
unfolding consumed
recorded e account_id at t =
    first_where-append (consumed_key e.alias_id e.uid_validity e.uid) t.consumed_messages _
      (ground arith)

-- What consumptions, deletions of tasks, and writers that keep the records of consumption (such as a
-- synchronization, which may change the accounts, aliases, messages and tasks) make of the tables.
pub data Later (t : Outbox) : Outbox → Type 0 where
  same : Later t t
  consuming :
      {u v : Outbox} {b : Bool} (e : Expected) (account_id at : ℕ)
      → Later t u
      → consume_tx e account_id at u ≡ ok (v, b)
      → Later t v
  deleting :
      {u v : Outbox} (account_id validity : ℕ) (uids : List ℕ)
      → Later t u
      → delete_tasks account_id validity uids u ≡ ok v
      → Later t v
  synchronizing :
      {u : Outbox} (accounts : List Account) (aliases : List Alias) (messages : List LatestMessage)
      (tasks : List SeenTask)
      → Later t u
      → Later t (record u {
        accounts = accounts;
        aliases = aliases;
        latest_messages = messages;
        seen_tasks = tasks;
      })

first_where-kept {ℓ} :
    {A : Type ℓ} (key : A → Bool) (rows more : List A) {r : A}
    → first_where key rows ≡ some r
    → first_where key (rows ++ more) ≡ some r
unfolding first_where
first_where-kept key [] more h = absurd (ground arith)
first_where-kept key (x ∷ rows) more {r} h = ground (arith, first_where-kept key rows more {r = r})

consuming-kept :
    (e : Expected) (account_id at : ℕ) (t : Outbox) {r : Outbox × Bool}
    (key : ConsumedMessage → Bool) {c : ConsumedMessage}
    → consume_tx e account_id at t ≡ ok r
    → first_where key t.consumed_messages ≡ some c
    → first_where key (r.0).consumed_messages ≡ some c
unfolding consumed
consuming-kept e account_id at t key h f = elim (consume_tx-inv e account_id at t h) [
  | inl (_, wrote) ↦ rw wrote (first_where-kept key t.consumed_messages _ f)
  | inr refused ↦ rw refused f
]

Later-kept :
    (t u : Outbox) (key : ConsumedMessage → Bool) {c : ConsumedMessage}
    → Later t u
    → first_where key t.consumed_messages ≡ some c
    → first_where key u.consumed_messages ≡ some c
unfolding delete_tasks
Later-kept t u key same f = f
Later-kept t v key (consuming {u} {v = w} {b} e account_id at before went) f =
    consuming-kept e account_id at u key went (Later-kept t u key before f)
Later-kept t v key {c} (deleting {u} {v = w} account_id validity uids before went) f =
    let (a, e1) = require-inv (leb 1 account_id) bad_account_id _ went in
    let (b, e2) = require-inv (leb 1 validity) bad_uid_validity _ e1 in
    let (unique, h, e3) = >>=-eq-ok (unique_uids [] uids) _ e2 in
    subst (λ (x : Outbox). first_where key x.consumed_messages ≡ some c) (ok-injective _ w e3)
      (Later-kept t u key before f)
Later-kept t v key (synchronizing {u} accounts aliases messages tasks before) f =
    Later-kept t u key before f

-- A message that was consumed is not consumed again, whoever asks: behind any consumptions,
-- deletions of tasks and writers that keep the records of consumption, a later call for the same
-- position of the same alias gives false and changes nothing. (A change of the account's mailbox
-- source deletes these records; it is not among them.)
pub consume_tx_once :
    (e later : Expected) (account_id other at soon : ℕ) (t held u : Outbox) (r : Outbox × Bool)
    → consume_tx e account_id at t ≡ ok (held, true)
    → Later held u
    → later.alias_id ≡ e.alias_id
    → later.uid_validity ≡ e.uid_validity
    → later.uid ≡ e.uid
    → consume_tx later other soon u ≡ ok r
    → r ≡ (u, false)
consume_tx_once e later account_id other at soon t held u r h reached same_alias same_validity
      same_uid k =
    elim (consume_tx-inv later other soon u k) [
      | inr done ↦ done
      | inl (again, _) ↦ elim (consume_tx-inv e account_id at t h) [
        | inr refused ↦ absurd (true-false held t refused)
        | inl (_, wrote) ↦
            let state = ap (λ (p : Outbox × Bool). p.0) wrote in
            let (c, f) = recorded e account_id at t in
            let found : first_where (consumed_key later.alias_id later.uid_validity later.uid)
                  u.consumed_messages
                ≡ some c =
              Later-kept held u _ reached (rw (state, same_alias, same_validity, same_uid) f) in
            absurd (ground arith)
      ]
    ]
