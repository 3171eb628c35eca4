-- ===== src/Store/Quota.antt =====
-- internal/store/alias_deletion_quota.go: Apple's allowance of deletions for one principal, as
-- two tables and the transactions on them. A time is its number of nanoseconds since 1970, as
-- `timestamp` stores it.
pub mod Bounds
pub mod Leases
pub mod Lifecycle
pub mod Isolation
pub mod Retry
pub mod Tests
use icloud_api_mangobubu.Base.{
  ℕ, ◌+◌, ◌*◌, max, Bool, true, false, not, ◌&&◌, ◌||◌, Option, none, some, List, [], ◌∷◌, ltb, leb,
  if◌then◌else◌, is_some, Result, ok, ◌>>=◌, ◌>>◌, require, or_fail, Text, text_eq, is_blank,
  first_where, count_where, upsert, update_key, delete_where,
}

pub data ReservationState : Type 0 where
  reserved sent committed : ReservationState

-- A row of alias_deletion_quota_reservations.
pub record Reservation : Type 0 where
  pub principal : Text
  pub reservation_id : Text
  pub state : ReservationState
  pub accounted_at : ℕ
  pub expires_at : ℕ

-- A row of alias_deletion_quota_principals.
pub record Principal : Type 0 where
  pub principal : Text
  pub cooldown_until : ℕ

pub record Tables : Type 0 where
  pub principals : List Principal
  pub reservations : List Reservation

pub data Error : Type 0 where
  principal_required reservation_required no_rows already_committed expired_before_sending : Error

-- `domain.AliasDeletionQuota`; a zero `RetryAt` is `none`.
pub record AliasDeletionQuota : Type 0 where
  pub used : ℕ
  pub limit : ℕ
  pub retry_at : Option ℕ

abbrev pub second : ℕ
second = 1_000_000_000

abbrev pub alias_deletion_quota_limit : ℕ
alias_deletion_quota_limit = 200

-- time.Hour + 5*time.Second
abbrev pub alias_deletion_quota_window : ℕ
alias_deletion_quota_window = 3605 * second

-- 2 * time.Hour
abbrev pub alias_deletion_reservation_lifetime : ℕ
alias_deletion_reservation_lifetime = 7200 * second

pub record Snapshot : Type 0 where
  pub used : ℕ
  pub earliest_expiry : Option ℕ
  pub cooldown_until : ℕ

abbrev pub is_reserved : ReservationState → Bool
is_reserved reserved = true
is_reserved _ = false

abbrev pub is_committed : ReservationState → Bool
is_committed committed = true
is_committed _ = false

-- The later of the quota's own retry time and the cooldown.
abbrev pub with_cooldown : ℕ → ℕ → Option ℕ → Option ℕ
with_cooldown cooldown now none = if ltb now cooldown then some cooldown else none
with_cooldown cooldown now (some t) =
    if ltb now cooldown && ltb t cooldown then some cooldown else some t

unfoldable pub result : Snapshot → ℕ → Bool → AliasDeletionQuota
result v now owns_reservation =
    let full = not owns_reservation && leb alias_deletion_quota_limit v.used in
    record {
      used = v.used;
      limit = alias_deletion_quota_limit;
      retry_at = with_cooldown v.cooldown_until now (if full then v.earliest_expiry else none);
    }

pub validate_key : Text → Text → Bool → Result Error (Unit {0})
validate_key principal reservation_id needs_reservation = do
  require (not (is_blank principal)) principal_required
  require (not (needs_reservation && is_blank reservation_id)) reservation_required

abbrev pub of_principal : Text → Principal → Bool
of_principal p row = text_eq row.principal p

-- The primary key of a reservation.
abbrev pub at_key : Text → Text → Reservation → Bool
at_key p id r = text_eq r.principal p && text_eq r.reservation_id id

-- The join condition of `readAliasDeletionQuota`: the reservations that count at `now`.
abbrev pub is_live : Text → ℕ → Reservation → Bool
is_live p now r = text_eq r.principal p && ltb now r.expires_at

abbrev pub is_unsent : Text → Text → Reservation → Bool
is_unsent p id r = at_key p id r && is_reserved r.state

-- INSERT … ON CONFLICT that keeps the cooldown.
unfoldable pub lock_principal : Text → List Principal → List Principal
lock_principal p rows = elim (first_where (of_principal p) rows) [
  | none ↦ upsert (of_principal p) (record { principal = p; cooldown_until = 0 }) rows
  | some row ↦ upsert (of_principal p) row rows
]

pub lock : Text → Tables → Tables
lock p t = record t { principals = lock_principal p t.principals }

abbrev pub earlier : ℕ → Option ℕ → Option ℕ
earlier t none = some t
earlier t (some u) = some (if ltb u t then u else t)

-- MIN(r.expires_at) over the live rows
unfoldable pub earliest : Text → ℕ → List Reservation → Option ℕ
earliest p now [] = none
earliest p now (r ∷ rs) =
    if is_live p now r then earlier r.expires_at (earliest p now rs) else earliest p now rs

unfoldable pub read_quota : Text → ℕ → Tables → Snapshot
read_quota p now t = elim (first_where (of_principal p) t.principals) [
  | none ↦ record { used = 0; earliest_expiry = none; cooldown_until = 0 }
  | some row ↦ record {
    used = count_where (is_live p now) t.reservations;
    earliest_expiry = earliest p now t.reservations;
    cooldown_until = row.cooldown_until;
  }
]

-- `err == nil && (state != "reserved" || expiresAt > timestamp(now))`
unfoldable pub owns : ℕ → Option Reservation → Bool
owns now none = false
owns now (some r) = not (is_reserved r.state) || ltb now r.expires_at

abbrev pub new_reservation : Text → Text → ℕ → Reservation
new_reservation p id now = record {
  principal = p;
  reservation_id = id;
  state = reserved;
  accounted_at = now;
  expires_at = now + alias_deletion_reservation_lifetime;
}

-- The body of the transaction, behind the lock.
unfoldable pub reserve_locked : Text → Text → ℕ → Tables → Tables × AliasDeletionQuota
reserve_locked p id now t =
    let owned = owns now (first_where (at_key p id) t.reservations) in
    let quota = result (read_quota p now t) now owned in
    if is_some quota.retry_at || owned then (t, quota) else (
      record t { reservations = upsert (at_key p id) (new_reservation p id now) t.reservations },
      record quota { used = quota.used + 1 },
    )

unfoldable pub reserve : Text → Text → ℕ → Tables → Result Error (Tables × AliasDeletionQuota)
unfolding validate_key lock
reserve p id now t = do validate_key p id true; ok (reserve_locked p id now (lock p t))

abbrev pub sent_row : ℕ → Reservation → Reservation
sent_row now r =
    let accounted = max r.accounted_at now in
    record r {
      state = sent;
      accounted_at = accounted;
      expires_at = max r.expires_at (accounted + alias_deletion_reservation_lifetime);
    }

abbrev pub committed_row : ℕ → Reservation → Reservation
committed_row now r =
    let accounted = max r.accounted_at now in
    record r {
      state = committed;
      accounted_at = accounted;
      expires_at = accounted + alias_deletion_quota_window;
    }

unfoldable pub mark_sent : Text → Text → ℕ → Tables → Result Error Tables
unfolding validate_key lock
mark_sent p id now t = do
  validate_key p id true
  r ← or_fail (first_where (at_key p id) t.reservations) no_rows
  require (not (is_committed r.state)) already_committed
  require (ltb now r.expires_at) expired_before_sending
  let l = lock p t
  ok (record l { reservations = update_key (at_key p id) (sent_row now r) l.reservations })

unfoldable pub commit : Text → Text → ℕ → Tables → Result Error Tables
unfolding validate_key lock
commit p id now t = do
  validate_key p id true
  r ← or_fail (first_where (at_key p id) t.reservations) no_rows
  let l = lock p t
  ok (record l { reservations = update_key (at_key p id) (committed_row now r) l.reservations })

unfoldable pub release : Text → Text → Tables → Result Error Tables
unfolding validate_key lock
release p id t = do
  validate_key p id true
  let l = lock p t
  ok (record l { reservations = delete_where (is_unsent p id) l.reservations })

-- The row that `DeferAliasDeletionQuota` leaves: the later of two cooldowns.
unfoldable pub deferred : Text → ℕ → Option Principal → Principal
deferred p until none = record { principal = p; cooldown_until = until }
deferred p until (some row) =
    if ltb row.cooldown_until until then record row { cooldown_until = until } else row

-- A zero `until` is `none`.
unfoldable pub defer_quota : Text → Option ℕ → Tables → Result Error Tables
unfolding validate_key
defer_quota p none t = do validate_key p [] false; ok t
defer_quota p (some until) t = do
  validate_key p [] false
  let row = deferred p until (first_where (of_principal p) t.principals)
  ok (record t { principals = upsert (of_principal p) row t.principals })

unfoldable pub get_quota : Text → ℕ → Tables → Result Error AliasDeletionQuota
unfolding validate_key
get_quota p now t = do validate_key p [] false; ok (result (read_quota p now t) now false)
