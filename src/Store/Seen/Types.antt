-- ===== src/Store/Seen/Types.antt =====
-- The rows that internal/store/seen.go reads and writes. A time is a number of nanoseconds since
-- 1970; the positions of messages are numbers below 2 ^ 32, in columns that hold any number.
use icloud_api_mangobubu.Base.{ℕ, Bool, ◌&&◌, Option, List, ◌==◌, Text}

-- What the statements read of a row of accounts.
pub record Account : Type 0 where
  pub id : ℕ
  pub enabled : Bool

-- What the statements read of a row of aliases.
pub record Alias : Type 0 where
  pub id : ℕ
  pub account_id : ℕ
  pub enabled : Bool
  pub api_key_hash : List ℕ
  pub last_sync_status : Text
  pub last_synced_at : Option ℕ

-- What the statements read of a row of latest_messages.
pub record LatestMessage : Type 0 where
  pub alias_id : ℕ
  pub uid_validity : ℕ
  pub uid : ℕ
  pub synced_at : ℕ

pub record ConsumedMessage : Type 0 where
  pub alias_id : ℕ
  pub uid_validity : ℕ
  pub uid : ℕ
  pub consumed_at : ℕ

-- A row of imap_seen_tasks, and `domain.SeenTask`.
pub record SeenTask : Type 0 where
  pub account_id : ℕ
  pub uid_validity : ℕ
  pub uid : ℕ
  pub created_at : ℕ

pub record Outbox : Type 0 where
  pub accounts : List Account
  pub aliases : List Alias
  pub latest_messages : List LatestMessage
  pub consumed_messages : List ConsumedMessage
  pub seen_tasks : List SeenTask

pub data Error : Type 0 where
  bad_alias_id hash_required synced_required message_synced_required : Error
  bad_uid_validity bad_uid bad_account_id bad_limit bad_position not_found : Error

abbrev pub task_key : ℕ → ℕ → ℕ → SeenTask → Bool
task_key id validity uid t = t.account_id == id && t.uid_validity == validity && t.uid == uid
