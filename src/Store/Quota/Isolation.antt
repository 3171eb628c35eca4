-- ===== src/Store/Quota/Isolation.antt =====
-- Principals do not share an allowance.
use icloud_api_mangobubu.Base.{
  ℕ, ◌≡◌, ◌≢◌, inl, inr, refl, Bool, true, false, Option, none, some, List, [], ◌∷◌, arith,
  Option-cases, after, Text, text_eq_iff, text_eq_refl, first_where, count_where, upsert,
  update_key, delete_where, count_where-upsert_fresh, count_where-update_key_other,
  count_where-delete_where_other, first_where-upsert_other, first_where-key,
}
use icloud_api_mangobubu.Store.Quota.{
  Reservation, Principal, Tables, validate_key, of_principal, at_key, is_live, is_unsent,
  lock_principal, lock, earliest, read_quota, new_reservation, reserve_locked, reserve, sent_row,
  committed_row, mark_sent, commit, release, deferred, defer_quota,
}
use icloud_api_mangobubu.Store.Quota.Bounds.{
  Op, reserves, after_reserve, marks_sent, commits, releases, defers, step,
}

module _ (p : Text) (now : ℕ) where
  earliest-upsert_other :
      (key : Reservation → Bool) (new : Reservation) (rows : List Reservation)
      → ((r : Reservation) → key r ≡ true → is_live p now r ≡ false)
      → is_live p now new ≡ false
      → earliest p now (upsert key new rows) ≡ earliest p now rows
  unfolding earliest upsert
  earliest-upsert_other key new [] h k = ground arith
  earliest-upsert_other key new (r ∷ rs) h k =
      ground (arith, earliest-upsert_other key new rs h k, h r)

  earliest-update_key_other :
      (key : Reservation → Bool) (new : Reservation) (rows : List Reservation)
      → ((r : Reservation) → key r ≡ true → is_live p now r ≡ false)
      → is_live p now new ≡ false
      → earliest p now (update_key key new rows) ≡ earliest p now rows
  unfolding earliest update_key
  earliest-update_key_other key new [] h k = refl
  earliest-update_key_other key new (r ∷ rs) h k =
      ground (arith, earliest-update_key_other key new rs h k, h r)

  earliest-delete_where_other :
      (dead : Reservation → Bool) (rows : List Reservation)
      → ((r : Reservation) → dead r ≡ true → is_live p now r ≡ false)
      → earliest p now (delete_where dead rows) ≡ earliest p now rows
  unfolding earliest delete_where
  earliest-delete_where_other dead [] h = refl
  earliest-delete_where_other dead (r ∷ rs) h =
      ground (arith, earliest-delete_where_other dead rs h, h r)

abbrev pub principal_of : Op → Text
principal_of (reserves p id) = p
principal_of (marks_sent p id) = p
principal_of (commits p id) = p
principal_of (releases p id) = p
principal_of (defers p until) = p

-- The tables tell `q` the same at every time.
abbrev pub SameFor : Text → Tables → Tables → Type 0
SameFor q t u = (at : ℕ) → read_quota q at t ≡ read_quota q at u

module _ (p q : Text) (apart : p ≢ q) where
  at_key-not_live :
      (id : Text) (now : ℕ) (r : Reservation) → at_key p id r ≡ true → is_live q now r ≡ false
  at_key-not_live id now r h = ground (arith, text_eq_iff r.principal p, text_eq_iff r.principal q)

  other-of_principal : (row : Principal) → of_principal p row ≡ true → of_principal q row ≡ false
  other-of_principal row h =
      ground (arith, text_eq_iff row.principal p, text_eq_iff row.principal q)

  lookup-lock :
      (t : Tables)
      → first_where (of_principal q) (lock p t).principals
        ≡ first_where (of_principal q) t.principals
  unfolding lock lock_principal
  lookup-lock t = elim (Option-cases (first_where (of_principal p) t.principals)) [
    | inl e ↦
        rw (e, lock_principal)
          (first_where-upsert_other (of_principal p) (of_principal q) _ t.principals
            other-of_principal (text_eq_refl p))
    | inr (row, e) ↦
        rw (e, lock_principal)
          (first_where-upsert_other (of_principal p) (of_principal q) row t.principals
            other-of_principal (first_where-key (of_principal p) t.principals e))
  ]

  lock-SameFor : (t : Tables) → SameFor q (lock p t) t
  unfolding read_quota lock
  lock-SameFor t at = rw (lookup-lock t, read_quota)

  read_quota-eq :
      (at : ℕ) (t u : Tables)
      → first_where (of_principal q) t.principals ≡ first_where (of_principal q) u.principals
      → count_where (is_live q at) t.reservations ≡ count_where (is_live q at) u.reservations
      → earliest q at t.reservations ≡ earliest q at u.reservations
      → read_quota q at t ≡ read_quota q at u
  unfolding read_quota
  read_quota-eq at t u e f g = elim (Option-cases (first_where (of_principal q) u.principals)) [
    | inl n ↦ ground arith
    | inr (row, n) ↦ ground arith
  ]

  -- Under the lock of `p`, a change of the rows at its key tells `q` nothing.
  rows-SameFor :
      (t : Tables) (rows : List Reservation)
      → ((at : ℕ) → count_where (is_live q at) rows ≡ count_where (is_live q at) t.reservations)
      → ((at : ℕ) → earliest q at rows ≡ earliest q at t.reservations)
      → SameFor q (record (lock p t) { reservations = rows }) t
  rows-SameFor t rows f g at =
      read_quota-eq at (record (lock p t) { reservations = rows }) t (lookup-lock t) (f at) (g at)

  new_hidden : (id : Text) (now at : ℕ) → is_live q at (new_reservation p id now) ≡ false
  new_hidden id now at =
      at_key-not_live id at (new_reservation p id now)
        (ground (arith, text_eq_refl p, text_eq_refl id))

  reserve-SameFor :
      (id : Text) (now : ℕ) (t : Tables) → SameFor q (after_reserve t (reserve p id now t)) t
  unfolding reserve reserve_locked validate_key lock
  reserve-SameFor id now t at =
      let key = at_key p id in
      let new = new_reservation p id now in
      ground (
        arith,
        lock-SameFor t at,
        rows-SameFor t (upsert key new t.reservations)
            (λ later. omega (
              arith,
              rw (new_hidden id now later) at (
                  count_where-upsert_fresh (is_live q later) key new t.reservations
                    (at_key-not_live id later)),
            ))
            (λ later.
              earliest-upsert_other q later key new t.reservations (at_key-not_live id later)
                (new_hidden id now later))
            at,
      )

  -- A row that keeps its key stays hidden from `q`.
  update_key-SameFor :
      (id : Text) (new : Reservation) (t : Tables)
      → at_key p id new ≡ true
      → SameFor q
          (record (lock p t) { reservations = update_key (at_key p id) new t.reservations })
          t
  update_key-SameFor id new t k =
      rows-SameFor t (update_key (at_key p id) new t.reservations)
        (λ later.
          count_where-update_key_other (is_live q later) (at_key p id) new t.reservations
            (at_key-not_live id later) (at_key-not_live id later new k))
        (λ later.
          earliest-update_key_other q later (at_key p id) new t.reservations
            (at_key-not_live id later) (at_key-not_live id later new k))

  mark_sent-SameFor :
      (id : Text) (now : ℕ) (t : Tables) → SameFor q (after t (mark_sent p id now t)) t
  unfolding mark_sent lock
  mark_sent-SameFor id now t at = elim (Option-cases (first_where (at_key p id) t.reservations)) [
    | inl e ↦ ground arith
    | inr (r, e) ↦ ground (
      arith,
      update_key-SameFor id (sent_row now r) t (first_where-key (at_key p id) t.reservations e) at,
    )
  ]

  commit-SameFor : (id : Text) (now : ℕ) (t : Tables) → SameFor q (after t (commit p id now t)) t
  unfolding commit lock
  commit-SameFor id now t at = elim (Option-cases (first_where (at_key p id) t.reservations)) [
    | inl e ↦ ground arith
    | inr (r, e) ↦ ground (
      arith,
      update_key-SameFor id (committed_row now r) t (first_where-key (at_key p id) t.reservations e)
          at,
    )
  ]

  unsent-not_live :
      (id : Text) (at : ℕ) (r : Reservation) → is_unsent p id r ≡ true → is_live q at r ≡ false
  unsent-not_live id at r h = at_key-not_live id at r (ground arith)

  release-SameFor : (id : Text) (t : Tables) → SameFor q (after t (release p id t)) t
  unfolding release lock
  release-SameFor id t at = ground (
    arith,
    rows-SameFor t (delete_where (is_unsent p id) t.reservations)
        (λ later.
          count_where-delete_where_other (is_live q later) (is_unsent p id) t.reservations
            (unsent-not_live id later))
        (λ later.
          earliest-delete_where_other q later (is_unsent p id) t.reservations
            (unsent-not_live id later))
        at,
  )

  deferred-of_principal :
      (until : ℕ) (rows : List Principal)
      → of_principal p (deferred p until (first_where (of_principal p) rows)) ≡ true
  unfolding deferred
  deferred-of_principal until rows = elim (Option-cases (first_where (of_principal p) rows)) [
    | inl e ↦ ground (arith, text_eq_refl p)
    | inr (row, e) ↦ ground (arith, first_where-key (of_principal p) rows e)
  ]

  defer_quota-SameFor :
      (until : Option ℕ) (t : Tables) → SameFor q (after t (defer_quota p until t)) t
  unfolding defer_quota
  defer_quota-SameFor none t at = ground arith
  defer_quota-SameFor (some until) t at =
      let row = deferred p until (first_where (of_principal p) t.principals) in
      ground (
        arith,
        read_quota-eq at (record t { principals = upsert (of_principal p) row t.principals }) t
            (first_where-upsert_other (of_principal p) (of_principal q) row t.principals
              other-of_principal (deferred-of_principal until t.principals))
            refl refl,
      )

-- A transaction on one principal's allowance changes nothing of what the quota says to another:
-- its count, its earliest expiry and its cooldown, at every time.
pub step-SameFor :
    (q : Text) (now : ℕ) (op : Op) (t : Tables) → principal_of op ≢ q → SameFor q (step now op t) t
unfolding step
step-SameFor q now (reserves p id) t h = reserve-SameFor p q h id now t
step-SameFor q now (marks_sent p id) t h = mark_sent-SameFor p q h id now t
step-SameFor q now (commits p id) t h = commit-SameFor p q h id now t
step-SameFor q now (releases p id) t h = release-SameFor p q h id t
step-SameFor q now (defers p until) t h = defer_quota-SameFor p q h until t
