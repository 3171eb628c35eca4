-- ===== src/Store/Quota/Tests.antt =====
-- The quota's theorems at concrete tables.
use icloud_api_mangobubu.Base.{
  ℕ, ◌+◌, max, ◌≤◌, ◌<◌, ◌≡◌, inr, refl, none, some, [], ◌∷◌, arith, ok, length, Text, text_eq,
  is_blank, first_where, count_where, upsert, update_key, delete_where,
}
use icloud_api_mangobubu.Store.Quota.{
  sent, committed, Reservation, Principal, Tables, alias_deletion_quota_window,
  alias_deletion_reservation_lifetime, result, at_key, lock_principal, lock, earliest, read_quota,
  owns, new_reservation, reserve_locked, reserve, sent_row, committed_row, mark_sent, commit,
  release, get_quota,
}
use icloud_api_mangobubu.Store.Quota.Bounds.{used, reserves, step, start, wait, run, Reach-Bounded}
use icloud_api_mangobubu.Store.Quota.Leases.{reserve_grants, reserve_refuses}
use icloud_api_mangobubu.Store.Quota.Lifecycle.{
  reserve_twice, release-reserve, release-mark_sent, commit_twice,
}
use icloud_api_mangobubu.Store.Quota.Isolation.{SameFor, step-SameFor}
use icloud_api_mangobubu.Store.Quota.Retry.{reserve-retry_at}

abbrev alice : Text
alice = b'a' ∷ []

abbrev bob : Text
bob = b'b' ∷ []

abbrev first_id : Text
first_id = b'1' ∷ []

abbrev empty : Tables
empty = record { principals = []; reservations = [] }

abbrev alice_row : Principal
alice_row = record { principal = alice; cooldown_until = 0 }

-- Alice holds one reservation, made at time 5.
abbrev holding : Tables
holding = record {
  principals = alice_row ∷ [];
  reservations = new_reservation alice first_id 5 ∷ [];
}

-- Alice waits for Apple until time 40.
abbrev cooling : Tables
cooling = record {
  principals = record { principal = alice; cooldown_until = 40 } ∷ [];
  reservations = [];
}

Reach-Bounded_example : used alice 9 (step 5 (reserves alice first_id) empty) ≤ 200
Reach-Bounded_example =
    Reach-Bounded (wait 9 (run (reserves alice first_id) (start 5) tt) (omega arith)) alice

reserve_grants_example :
    (u : Tables) × (reserve alice first_id 5 empty
      ≡ ok (u, record { used = used alice 5 empty + 1; limit = 200; retry_at = none }))
    × (used alice 5 u ≡ used alice 5 empty + 1)
    × (first_where (at_key alice first_id) u.reservations ≡ some (new_reservation alice first_id 5))
unfolding is_blank owns first_where count_where read_quota
reserve_grants_example =
    reserve_grants alice first_id 5 empty refl refl refl (omega arith) (omega arith)

reserve_refuses_example :
    (w : ℕ) × (reserve alice first_id 5 cooling
      ≡ ok (
        lock alice cooling,
        record { used = used alice 5 cooling; limit = 200; retry_at = some w },
      ))
    × (5 < w)
unfolding is_blank owns first_where count_where read_quota text_eq
reserve_refuses_example =
    reserve_refuses alice first_id 5 cooling refl refl refl (inr (omega arith))

reserve_twice_example :
    reserve alice first_id 9 holding
    ≡ ok (holding, record { used = used alice 9 holding; limit = 200; retry_at = none })
unfolding reserve reserve_locked result is_blank owns first_where count_where read_quota text_eq
    earliest lock_principal upsert
reserve_twice_example =
    reserve_twice alice first_id 5 9 empty holding
      (record { used = 1; limit = 200; retry_at = none }) refl refl refl (omega arith) (omega arith)

abbrev spent_row : Reservation
spent_row = committed_row 7 (new_reservation alice (b'2' ∷ []) 6)

abbrev given_back : Tables
given_back = record { principals = alice_row ∷ []; reservations = spent_row ∷ [] }

abbrev regranted : Tables
regranted = record {
  principals = alice_row ∷ [];
  reservations = spent_row ∷ new_reservation alice first_id 8 ∷ [];
}

release-reserve_example : given_back ≡ lock alice given_back
unfolding reserve reserve_locked result release is_blank owns first_where count_where read_quota
    text_eq earliest lock_principal upsert delete_where
release-reserve_example =
    release-reserve alice first_id 8 given_back regranted given_back
      (record { used = 2; limit = 200; retry_at = none }) refl refl refl

abbrev sent_tables : Tables
sent_tables = record {
  principals = alice_row ∷ [];
  reservations = sent_row 8 (new_reservation alice first_id 5) ∷ [];
}

release-mark_sent_example :
    (r : Reservation) × (first_where (at_key alice first_id) sent_tables.reservations ≡ some r)
    × (r.state ≡ sent)
    × (8 + alias_deletion_reservation_lifetime ≤ r.expires_at)
unfolding mark_sent release is_blank text_eq lock_principal upsert first_where delete_where
    update_key
release-mark_sent_example =
    release-mark_sent alice first_id 8 holding sent_tables sent_tables refl refl

abbrev committed_tables : ℕ → Tables
committed_tables now = record {
  principals = alice_row ∷ [];
  reservations = committed_row now (new_reservation alice first_id 5) ∷ [];
}

commit_twice_example :
    (r s : Reservation) × (first_where (at_key alice first_id) (committed_tables 9).reservations
      ≡ some r)
    × (first_where (at_key alice first_id) (committed_tables 9).reservations ≡ some s)
    × (s.state ≡ committed)
    × (r.accounted_at ≤ s.accounted_at)
    × (r.expires_at ≤ s.expires_at)
    × (s.expires_at ≡ max r.accounted_at 7 + alias_deletion_quota_window)
    × (length (committed_tables 9).reservations ≡ length holding.reservations)
unfolding commit is_blank text_eq lock_principal upsert first_where update_key
commit_twice_example =
    commit_twice alice first_id 9 7 holding (committed_tables 9) (committed_tables 9) refl refl

step-SameFor_example : SameFor bob (step 5 (reserves alice first_id) holding) holding
step-SameFor_example = step-SameFor bob 5 (reserves alice first_id) holding (λ e. ground arith)

reserve-retry_at_example :
    (5 < 40)
    × ((u : Tables) × (reserve alice first_id 41 cooling
          ≡ ok (u, record { used = used alice 41 cooling + 1; limit = 200; retry_at = none })))
unfolding is_blank owns first_where count_where read_quota get_quota result text_eq earliest
reserve-retry_at_example =
    reserve-retry_at alice first_id 5 41 cooling
      (record { used = 0; limit = 200; retry_at = some 40 }) 40 refl refl (omega arith) refl refl
      (omega arith) refl
