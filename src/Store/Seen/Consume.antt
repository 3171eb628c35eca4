-- ===== src/Store/Seen/Consume.antt =====
-- `ConsumeLatestMessage` of internal/store/seen.go: an alias's latest message is consumed once, and
-- queued to be marked as seen. A zero time is `none`.
use icloud_api_mangobubu.Base.{
  ℕ, Bool, true, false, not, ◌&&◌, Option, none, some, List, [], ◌∷◌, ◌++◌, leb, ◌==◌,
  if◌then◌else◌, is_some, Result, ok, ◌>>=◌, ◌>>◌, require, or_fail, Text, codes, text_eq,
  first_where,
}
use icloud_api_mangobubu.Store.Seen.Types.{
  Account, Alias, LatestMessage, ConsumedMessage, Outbox, Error, bad_alias_id, hash_required,
  synced_required, message_synced_required, bad_uid_validity, bad_uid, not_found, task_key,
}

-- The arguments of `ConsumeLatestMessage`: the snapshot that the caller has read.
pub record Expected : Type 0 where
  pub alias_id : ℕ
  pub api_key_hash : List ℕ
  pub last_synced_at : Option ℕ
  pub message_synced_at : Option ℕ
  pub uid_validity : ℕ
  pub uid : ℕ

abbrev pub sync_status_ok : Text
sync_status_ok = codes "ok"

abbrev has_bytes : List ℕ → Bool
has_bytes [] = false
has_bytes (b ∷ bs) = true

unfoldable pub validate : Expected → Result Error (Unit {0})
validate e = do
  require (leb 1 e.alias_id) bad_alias_id
  require (has_bytes e.api_key_hash) hash_required
  require (is_some e.last_synced_at) synced_required
  require (is_some e.message_synced_at) message_synced_required
  require (leb 1 e.uid_validity) bad_uid_validity
  require (leb 1 e.uid) bad_uid

abbrev pub alias_key : ℕ → Alias → Bool
alias_key id al = al.id == id

abbrev pub account_key : ℕ → Account → Bool
account_key id a = a.id == id

abbrev pub message_key : ℕ → LatestMessage → Bool
message_key id lm = lm.alias_id == id

abbrev pub consumed_key : ℕ → ℕ → ℕ → ConsumedMessage → Bool
consumed_key id validity uid c = c.alias_id == id && c.uid_validity == validity && c.uid == uid

abbrev pub same_time : Option ℕ → Option ℕ → Bool
same_time (some t) (some u) = t == u
same_time _ _ = false

abbrev pub account_fits : Option Account → Bool
account_fits none = false
account_fits (some a) = a.enabled

abbrev pub alias_fits : Expected → ℕ → Option Alias → Bool
alias_fits e account_id none = false
alias_fits e account_id (some al) =
    al.account_id == account_id
    && al.enabled
    && text_eq al.api_key_hash e.api_key_hash
    && text_eq al.last_sync_status sync_status_ok
    && same_time al.last_synced_at e.last_synced_at

abbrev pub message_fits : Expected → Option LatestMessage → Bool
message_fits e none = false
message_fits e (some lm) =
    same_time (some lm.synced_at) e.message_synced_at
    && lm.uid_validity == e.uid_validity
    && lm.uid == e.uid

-- The SELECT finds a row: the alias is the snapshot's and of the account, both are enabled, and the
-- latest message is the one that was read.
unfoldable pub is_current : Expected → ℕ → Outbox → Bool
is_current e account_id t =
    alias_fits e account_id (first_where (alias_key e.alias_id) t.aliases)
    && account_fits (first_where (account_key account_id) t.accounts)
    && message_fits e (first_where (message_key e.alias_id) t.latest_messages)

-- INSERT … ON CONFLICT DO NOTHING
unfoldable pub insert_new {ℓ} : {A : Type ℓ} → (A → Bool) → A → List A → List A
insert_new key new rows = if is_some (first_where key rows) then rows else rows ++ new ∷ []

-- Whether the first statement inserts a row.
abbrev pub consumes : Expected → ℕ → Outbox → Bool
consumes e account_id t =
    is_current e account_id t
    && not
        (is_some (first_where (consumed_key e.alias_id e.uid_validity e.uid) t.consumed_messages))

-- The two rows that a consumption writes.
unfoldable pub consumed : Expected → ℕ → ℕ → Outbox → Outbox
unfolding insert_new
consumed e account_id at t = record t {
  consumed_messages =
      t.consumed_messages
      ++ record {
        alias_id = e.alias_id;
        uid_validity = e.uid_validity;
        uid = e.uid;
        consumed_at = at;
      }
        ∷ [];
  seen_tasks =
      insert_new (task_key account_id e.uid_validity e.uid)
        (record {
          account_id = account_id;
          uid_validity = e.uid_validity;
          uid = e.uid;
          created_at = at;
        })
        t.seen_tasks;
}

-- The transaction, behind the lookup of the account.
unfoldable pub consume_tx : Expected → ℕ → ℕ → Outbox → Result Error (Outbox × Bool)
consume_tx e account_id at t = do
  require (is_some (first_where (account_key account_id) t.accounts)) not_found
  if consumes e account_id t then ok (consumed e account_id at t, true) else ok (t, false)

abbrev pub or_now : Option ℕ → ℕ → ℕ
or_now none clock = clock
or_now (some t) clock = t

-- `ConsumeLatestMessage`; the tables may change between the lookup, in `seen`, and the transaction.
unfoldable pub consume : ℕ → Expected → Option ℕ → Outbox → Outbox → Result Error (Outbox × Bool)
unfolding consume_tx validate
consume clock e consumed_at seen t = do
  validate e
  al ← or_fail (first_where (alias_key e.alias_id) seen.aliases) not_found
  consume_tx e al.account_id (or_now consumed_at clock) t
