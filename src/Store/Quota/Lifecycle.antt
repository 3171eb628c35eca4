-- ===== src/Store/Quota/Lifecycle.antt =====
-- The life of a reservation: reserved, sent, committed, or given back before it is sent.
use icloud_api_mangobubu.Base.{
  ℕ, ◌+◌, max, ◌≤◌, ◌<◌, ◌≡◌, inl, inr, refl, ap, ◌∙◌, List, [], ◌∷◌, Bool, true, false, none, some,
  arith, Option-cases, ok, length, Text, text_eq_refl, first_where, upsert, delete_where,
  first_where-upsert_self, first_where-update_key_self, first_where-key, first_where-delete_where,
  length-update_key,
}
use icloud_api_mangobubu.Store.Quota.{
  sent, committed, Reservation, Tables, AliasDeletionQuota, alias_deletion_quota_limit,
  alias_deletion_quota_window, alias_deletion_reservation_lifetime, result, validate_key, at_key,
  is_unsent, lock, owns, new_reservation, reserve_locked, reserve, sent_row, committed_row,
  mark_sent, commit, release,
}
use icloud_api_mangobubu.Store.Quota.Bounds.{used, read_quota-used}
use icloud_api_mangobubu.Store.Quota.Leases.{lock-locked, cooldown}

abbrev granted_tables : Text → Text → ℕ → Tables → Tables
granted_tables p id now t = record (lock p t) {
  reservations = upsert (at_key p id) (new_reservation p id now) t.reservations;
}

reserve-granted :
    (p id : Text) (now : ℕ) (t u : Tables) (q : AliasDeletionQuota)
    → reserve p id now t ≡ ok (u, q)
    → owns now (first_where (at_key p id) t.reservations) ≡ false
    → q.retry_at ≡ none
    → (u ≡ granted_tables p id now t) × (validate_key p id true ≡ ok tt)
unfolding reserve reserve_locked lock validate_key
reserve-granted p id now t u q e free granted = (ground arith, ground arith)

lock-granted_tables :
    (p id : Text) (now : ℕ) (t : Tables)
    → lock p (granted_tables p id now t) ≡ granted_tables p id now t
unfolding lock
lock-granted_tables p id now t =
    ap (λ (l : Tables). record (granted_tables p id now t) { principals = l.principals })
      (lock-locked p t)

-- What a caller that holds a reservation is told.
reserve-owned :
    (p id : Text) (now : ℕ) (t : Tables)
    → validate_key p id true ≡ ok tt
    → lock p t ≡ t
    → owns now (first_where (at_key p id) t.reservations) ≡ true
    → cooldown p now t ≤ now
    → reserve p id now t
      ≡ ok (t, record { used = used p now t; limit = alias_deletion_quota_limit; retry_at = none })
unfolding reserve reserve_locked result
reserve-owned p id now t key locked owned cool =
    rw (key, locked) (ground (arith, rw locked at (read_quota-used p now t)))

-- A fresh grant is idempotent: while the reservation lasts, asking for it again with no cooldown
-- changes no table and charges nothing, also when the allowance is used up.
pub reserve_twice :
    (p id : Text) (now later : ℕ) (t u : Tables) (q : AliasDeletionQuota)
    → reserve p id now t ≡ ok (u, q)
    → owns now (first_where (at_key p id) t.reservations) ≡ false
    → q.retry_at ≡ none
    → later < now + alias_deletion_reservation_lifetime
    → cooldown p later u ≤ later
    → reserve p id later u
      ≡ ok
          (u, record { used = used p later u; limit = alias_deletion_quota_limit; retry_at = none })
unfolding owns
reserve_twice p id now later t u q e free granted fresh cool =
    let (is, key) = reserve-granted p id now t u q e free granted in
    let held =
      first_where-upsert_self (at_key p id) (new_reservation p id now) t.reservations
        (ground (arith, text_eq_refl p, text_eq_refl id)) in
    reserve-owned p id later u key (rw is (lock-granted_tables p id now t))
      (rw is (ground (arith, held))) cool

-- A caller that is told to wait has reserved nothing.
reserve-waiting :
    (p id : Text) (now when : ℕ) (t u : Tables) (q : AliasDeletionQuota)
    → reserve p id now t ≡ ok (u, q)
    → q.retry_at ≡ some when
    → owns now (first_where (at_key p id) t.reservations) ≡ false
    → u ≡ lock p t
unfolding reserve reserve_locked lock
reserve-waiting p id now when t u q e waits free = ground arith

-- A row that is not there is not deleted, also behind its insertion.
delete_where-absent :
    (key gone : Reservation → Bool) (rows : List Reservation)
    → first_where key rows ≡ none
    → ((r : Reservation) → gone r ≡ true → key r ≡ true)
    → delete_where gone rows ≡ rows
unfolding first_where delete_where
delete_where-absent key gone [] n h = refl
delete_where-absent key gone (r ∷ rs) n h = ground (arith, delete_where-absent key gone rs, h r)

delete_where-upsert_absent :
    (key gone : Reservation → Bool) (new : Reservation) (rows : List Reservation)
    → first_where key rows ≡ none
    → ((r : Reservation) → gone r ≡ true → key r ≡ true)
    → gone new ≡ true
    → delete_where gone (upsert key new rows) ≡ rows
unfolding first_where delete_where upsert
delete_where-upsert_absent key gone new [] n h g = ground arith
delete_where-upsert_absent key gone new (r ∷ rs) n h g =
    ground (arith, delete_where-upsert_absent key gone new rs, h r)

released :
    (p id : Text) (u v : Tables)
    → release p id u ≡ ok v
    → v ≡ record (lock p u) { reservations = delete_where (is_unsent p id) u.reservations }
unfolding release lock
released p id u v f = ground arith

-- What a release makes of tables that are locked already.
released-locked :
    (p id : Text) (t u v : Tables)
    → release p id u ≡ ok v
    → lock p u ≡ u
    → u.principals ≡ (lock p t).principals
    → delete_where (is_unsent p id) u.reservations ≡ t.reservations
    → v ≡ lock p t
unfolding lock
released-locked p id t u v f locked same left =
    released p id u v f ∙ rw (ap (λ (x : Tables). x.principals) locked, same, left) refl

-- Reserving under an ID that has no reservation and giving it back unsent changes no reservation
-- and no cooldown, whether the reservation was granted or refused: only the row of the principal is
-- made if it was missing.
pub release-reserve :
    (p id : Text) (now : ℕ) (t u v : Tables) (q : AliasDeletionQuota)
    → first_where (at_key p id) t.reservations ≡ none
    → reserve p id now t ≡ ok (u, q)
    → release p id u ≡ ok v
    → v ≡ lock p t
unfolding owns lock
release-reserve p id now t u v q n e f =
    let free : owns now (first_where (at_key p id) t.reservations) ≡ false = rw n refl in
    elim (Option-cases q.retry_at) [
      | inl granted ↦
          let (is, key) = reserve-granted p id now t u q e free granted in
          released-locked p id t u v f (rw is (lock-granted_tables p id now t)) (rw is refl) (
            rw is (
              delete_where-upsert_absent (at_key p id) (is_unsent p id) (new_reservation p id now)
                t.reservations n (λ r h. ground arith)
                (ground (arith, text_eq_refl p, text_eq_refl id))))
      | inr (when, waits) ↦
          let is = reserve-waiting p id now when t u q e waits free in
          released-locked p id t u v f (rw is (lock-locked p t)) (rw is refl) (
            rw is (
              delete_where-absent (at_key p id) (is_unsent p id) t.reservations n
                (λ r h. ground arith)))
    ]

-- A reservation that was marked as sent survives being given back, and counts for two hours from
-- the mark on at least.
pub release-mark_sent :
    (p id : Text) (now : ℕ) (t u v : Tables)
    → mark_sent p id now t ≡ ok u
    → release p id u ≡ ok v
    → (r : Reservation) × (first_where (at_key p id) v.reservations ≡ some r)
      × (r.state ≡ sent)
      × (now + alias_deletion_reservation_lifetime ≤ r.expires_at)
unfolding mark_sent release lock
release-mark_sent p id now t u v e f =
    elim (Option-cases (first_where (at_key p id) t.reservations)) [
      | inl n ↦ absurd (ground arith)
      | inr (r, n) ↦ (
        sent_row now r,
        ground (
          arith,
          first_where-delete_where (at_key p id) (is_unsent p id) u.reservations
              {r = sent_row now r},
          first_where-update_key_self (at_key p id) (sent_row now r) t.reservations n,
          first_where-key (at_key p id) t.reservations n,
        ),
        refl,
        omega arith,
      )
    ]

-- Committing twice never moves the accounting back, and makes no second charge.
pub commit_twice :
    (p id : Text) (now later : ℕ) (t u v : Tables)
    → commit p id now t ≡ ok u
    → commit p id later u ≡ ok v
    → (r s : Reservation) × (first_where (at_key p id) u.reservations ≡ some r)
      × (first_where (at_key p id) v.reservations ≡ some s)
      × (s.state ≡ committed)
      × (r.accounted_at ≤ s.accounted_at)
      × (r.expires_at ≤ s.expires_at)
      × (s.expires_at ≡ max r.accounted_at later + alias_deletion_quota_window)
      × (length v.reservations ≡ length t.reservations)
unfolding commit lock
commit_twice p id now later t u v e f =
    elim (Option-cases (first_where (at_key p id) t.reservations)) [
      | inl n ↦ absurd (ground arith)
      | inr (r, n) ↦
          let key = first_where-key (at_key p id) t.reservations n in
          let once =
            first_where-update_key_self (at_key p id) (committed_row now r) t.reservations n key in
          let again = committed_row later (committed_row now r) in
          (
            committed_row now r,
            again,
            ground (arith, once),
            ground (
              arith,
              once,
              first_where-update_key_self (at_key p id) again u.reservations
                  {old = committed_row now r},
            ),
            refl,
            omega arith,
            omega arith,
            omega arith,
            ground (
              arith,
              length-update_key (at_key p id) (committed_row now r) t.reservations,
              length-update_key (at_key p id) again u.reservations,
              once,
            ),
          )
    ]
