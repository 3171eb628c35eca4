-- ===== src/Store/Quota/Retry.antt =====
-- The retry time that a refused caller is told is long enough.
use icloud_api_mangobubu.Base.{
  ℕ, ◌+◌, ◌≤◌, ◌<◌, ◌≡◌, ◌⊎◌, inl, inr, false, none, some, List, [], ◌∷◌, arith, leb, Bool-cases,
  Option-cases, ok, Text, is_blank, first_where, count_where, count_where_mono,
}
use icloud_api_mangobubu.Store.Quota.{
  Reservation, Tables, AliasDeletionQuota, alias_deletion_quota_limit, result, validate_key,
  of_principal, at_key, is_live, earliest, read_quota, owns, reserve, get_quota,
}
use icloud_api_mangobubu.Store.Quota.Bounds.{used, earliest-none, used-antitone}
use icloud_api_mangobubu.Store.Quota.Leases.{cooldown, earliest-future, reserve_grants}

-- Once the earliest live reservation has run out, fewer count.
earliest-expires :
    (p : Text) (now later : ℕ) (rows : List Reservation) {e : ℕ}
    → now ≤ later
    → earliest p now rows ≡ some e
    → e ≤ later
    → count_where (is_live p later) rows < count_where (is_live p now) rows
unfolding earliest count_where
earliest-expires p now later [] h n l = ground arith
earliest-expires p now later (r ∷ rs) {e} h n l =
    let fewer = count_where_mono (is_live p later) (is_live p now) rs (λ x k. ground arith) in
    elim (Option-cases (earliest p now rs)) [
      | inl m ↦ ground (arith, fewer)
      | inr (f, m) ↦ ground (arith, fewer, earliest-expires p now later rs {e = f} h m)
    ]

-- What a reader who is told to wait knows.
told :
    (p : Text) (now : ℕ) (t : Tables) {w : ℕ}
    → (result (read_quota p now t) now false).retry_at ≡ some w
    → (now < w)
      × (cooldown p now t ≤ w)
      × ((used p now t < alias_deletion_quota_limit)
          ⊎ ((e : ℕ) × (earliest p now t.reservations ≡ some e) × (e ≤ w)))
unfolding read_quota result
told p now t {w} h = elim (Option-cases (first_where (of_principal p) t.principals)) [
  | inl n ↦ absurd (ground arith)
  | inr (row, n) ↦ elim (Option-cases (earliest p now t.reservations)) [
    | inl m ↦
        (ground arith, ground arith, inl (ground (arith, earliest-none p now t.reservations m)))
    | inr (e, m) ↦ (
      ground (arith, earliest-future p now t.reservations m),
      ground (arith, earliest-future p now t.reservations m),
      elim (Bool-cases (leb alias_deletion_quota_limit (used p now t))) [
        | inl full ↦ inr (e, m, ground arith)
        | inr room ↦ inl (ground arith)
      ],
    )
  ]
]

cooldown-eq : (p : Text) (now later : ℕ) (t : Tables) → cooldown p later t ≡ cooldown p now t
unfolding read_quota
cooldown-eq p now later t = elim (Option-cases (first_where (of_principal p) t.principals)) [
  | inl n ↦ ground arith
  | inr (row, n) ↦ ground arith
]

get_quota-retry_at :
    (p : Text) (now : ℕ) (t : Tables) (q : AliasDeletionQuota) {w : ℕ}
    → get_quota p now t ≡ ok q
    → q.retry_at ≡ some w
    → (result (read_quota p now t) now false).retry_at ≡ some w
unfolding get_quota validate_key
get_quota-retry_at p now t q h k = ground arith

used_later :
    (p : Text) (now later : ℕ) (t : Tables) {w : ℕ}
    → used p now t ≤ alias_deletion_quota_limit
    → now ≤ later
    → (used p now t < alias_deletion_quota_limit)
      ⊎ ((e : ℕ) × (earliest p now t.reservations ≡ some e) × (e ≤ w))
    → w ≤ later
    → used p later t < alias_deletion_quota_limit
used_later p now later t bound h (inl room) past = omega (arith, used-antitone p now later t h)
used_later p now later t bound h (inr (e, m, k)) past =
    omega (arith, earliest-expires p now later t.reservations h m (omega arith))

-- A caller that is told to wait until `w` is granted a new reservation at `w` or later, if the
-- tables have not changed by then and the allowance was not exceeded.
pub reserve-retry_at :
    (p id : Text) (now later : ℕ) (t : Tables) (q : AliasDeletionQuota) (w : ℕ)
    → is_blank p ≡ false
    → is_blank id ≡ false
    → used p now t ≤ alias_deletion_quota_limit
    → get_quota p now t ≡ ok q
    → q.retry_at ≡ some w
    → w ≤ later
    → owns later (first_where (at_key p id) t.reservations) ≡ false
    → (now < w)
      × ((u : Tables) × (reserve p id later t
            ≡ ok (
              u,
              record {
                used = used p later t + 1;
                limit = alias_deletion_quota_limit;
                retry_at = none;
              },
            )))
reserve-retry_at p id now later t q w hp hi bound read waits past free =
    let (future, cool, room) = told p now t (get_quota-retry_at p now t q read waits) in
    let free_then = used_later p now later t bound (omega arith) room past in
    let (u, granted, _, _) =
      reserve_grants p id later t hp hi free free_then (omega (arith, cooldown-eq p now later t)) in
    (future, (u, granted))
