-- ===== src/Store/Quota/Leases.antt =====
-- What becomes of one reservation: granted once, kept when it was sent, given back otherwise.
use icloud_api_mangobubu.Base.{
  ℕ, ◌+◌, max, ◌≤◌, ◌<◌, ◌≡◌, ◌⊎◌, inl, inr, refl, sym, ap, ◌∙◌, Bool, false, Option, none, some,
  List, [], ◌∷◌, arith, leb, if◌then◌else◌, Option-cases, ok, Text, text_eq_refl, is_blank,
  first_where, upsert, first_where-upsert_self, count_where-upsert_replace,
  count_where-upsert_insert, upsert_same,
}
use icloud_api_mangobubu.Store.Quota.{
  Reservation, Principal, Tables, alias_deletion_quota_limit, Snapshot, result, validate_key,
  of_principal, at_key, is_live, lock_principal, lock, earliest, read_quota, owns, new_reservation,
  reserve_locked, reserve,
}
use icloud_api_mangobubu.Store.Quota.Bounds.{
  used, lock-principals, read_quota-used, read_quota-earliest, earliest-none,
}

pub lock-locked : (p : Text) (t : Tables) → lock p (lock p t) ≡ lock p t
unfolding lock lock_principal
lock-locked p t =
    let (row, e) = lock-principals p t in
    rw (e, lock_principal)
      (ap (λ (ps : List Principal). record t { principals = ps })
        (upsert_same (of_principal p) (lock p t).principals e))

validate_key-ok :
    (p id : Text) (need : Bool)
    → is_blank p ≡ false
    → is_blank id ≡ false
    → validate_key p id need ≡ ok tt
unfolding validate_key
validate_key-ok p id need h k = ground arith

owns-none :
    (p id : Text) (now : ℕ) (t : Tables)
    → owns now (first_where (at_key p id) t.reservations) ≡ false
    → used p now
        (record t { reservations = upsert (at_key p id) (new_reservation p id now) t.reservations })
      ≡ used p now t + 1
unfolding owns
owns-none p id now t h = elim (Option-cases (first_where (at_key p id) t.reservations)) [
  | inl e ↦ ground (
    arith,
    text_eq_refl p,
    count_where-upsert_insert (is_live p now) (at_key p id) (new_reservation p id now)
        t.reservations e,
  )
  | inr (r, e) ↦ ground (
    arith,
    text_eq_refl p,
    count_where-upsert_replace (is_live p now) (at_key p id) (new_reservation p id now)
        t.reservations e,
  )
]

abbrev pub cooldown : Text → ℕ → Tables → ℕ
cooldown p now t = (read_quota p now t).cooldown_until

pub read_quota-cooldown :
    (p : Text) (now : ℕ) (t : Tables) → cooldown p now (lock p t) ≡ cooldown p now t
unfolding read_quota lock lock_principal
read_quota-cooldown p now t = elim (Option-cases (first_where (of_principal p) t.principals)) [
  | inl e ↦ ground (
    arith,
    first_where-upsert_self (of_principal p) (record { principal = p; cooldown_until = 0 })
        t.principals (text_eq_refl p),
  )
  | inr (row, e) ↦ ground (arith, upsert_same (of_principal p) t.principals e)
]

pub earliest-future :
    (p : Text) (now : ℕ) (rows : List Reservation) {e : ℕ} → earliest p now rows ≡ some e → now < e
unfolding earliest
earliest-future p now [] h = ground arith
earliest-future p now (r ∷ rs) {e} h = elim (Option-cases (earliest p now rs)) [
  | inl n ↦ ground arith
  | inr (m, n) ↦ ground (arith, earliest-future p now rs n)
]

-- With room and no cooldown, a reservation that the caller does not hold yet is granted: it is
-- recorded for two hours, counts once, and the caller need not wait.
pub reserve_grants :
    (p id : Text) (now : ℕ) (t : Tables)
    → is_blank p ≡ false
    → is_blank id ≡ false
    → owns now (first_where (at_key p id) t.reservations) ≡ false
    → used p now t < alias_deletion_quota_limit
    → cooldown p now t ≤ now
    → (u : Tables) × (reserve p id now t
        ≡ ok (
          u,
          record { used = used p now t + 1; limit = alias_deletion_quota_limit; retry_at = none },
        ))
      × (used p now u ≡ used p now t + 1)
      × (first_where (at_key p id) u.reservations ≡ some (new_reservation p id now))
unfolding reserve reserve_locked result validate_key lock
reserve_grants p id now t hp hi free room cool = (
  record (lock p t) {
    reservations = upsert (at_key p id) (new_reservation p id now) t.reservations;
  },
  ground (arith, read_quota-used p now t, read_quota-cooldown p now t),
  owns-none p id now t free,
  first_where-upsert_self (at_key p id) (new_reservation p id now) t.reservations
      (ground (arith, text_eq_refl p, text_eq_refl id)),
)

pub result-fields :
    (v : Snapshot) (now : ℕ) (b : Bool)
    → ((result v now b).used ≡ v.used) × ((result v now b).limit ≡ alias_deletion_quota_limit)
unfolding result
result-fields v now b = (refl, refl)

abbrev time_of : Option ℕ → ℕ
time_of none = 0
time_of (some t) = t

-- The time that a refused caller is told.
abbrev wait_until : Snapshot → ℕ
wait_until v =
    if leb alias_deletion_quota_limit v.used
    then max (time_of v.earliest_expiry) v.cooldown_until
    else v.cooldown_until

result-wait_until :
    (v : Snapshot) (now : ℕ)
    → (v.earliest_expiry ≡ none → v.used ≡ 0)
    → ((e : ℕ) → v.earliest_expiry ≡ some e → now < e)
    → (alias_deletion_quota_limit ≤ v.used) ⊎ (now < v.cooldown_until)
    → ((result v now false).retry_at ≡ some (wait_until v)) × (now < wait_until v)
unfolding result
result-wait_until v now h later full = elim (Option-cases v.earliest_expiry) [
  | inl n ↦ ground (arith, h n)
  | inr (e, n) ↦ ground (arith, later e n)
]

-- Without room, or under a cooldown, such a request is refused: no reservation is made, and the
-- caller is told a later time.
pub reserve_refuses :
    (p id : Text) (now : ℕ) (t : Tables)
    → is_blank p ≡ false
    → is_blank id ≡ false
    → owns now (first_where (at_key p id) t.reservations) ≡ false
    → (alias_deletion_quota_limit ≤ used p now t) ⊎ (now < cooldown p now t)
    → (w : ℕ) × (reserve p id now t
        ≡ ok (
          lock p t,
          record { used = used p now t; limit = alias_deletion_quota_limit; retry_at = some w },
        ))
      × (now < w)
unfolding reserve reserve_locked validate_key
reserve_refuses p id now t hp hi free full =
    let v = read_quota p now (lock p t) in
    let told =
      result-wait_until v now
        (λ n.
          rw (read_quota-used p now t)
            (earliest-none p now t.reservations (sym (read_quota-earliest p now t) ∙ n)))
        (λ e n. earliest-future p now t.reservations (sym (read_quota-earliest p now t) ∙ n))
        (rw (read_quota-used p now t, read_quota-cooldown p now t) full) in
    (wait_until v, ground (arith, told, read_quota-used p now t, result-fields v now false), told.1)
