-- ===== src/Store/Quota/Bounds.antt =====
-- The allowance is never exceeded: at any time at most 200 reservations of a principal count.
use icloud_api_mangobubu.Base.{
  ℕ, ◌≤◌, ◌<◌, ◌≡◌, inl, inr, refl, false, Option, none, some, List, [], ◌∷◌, arith, Option-cases,
  Result, ok, err, after, Text, text_eq_iff, text_eq_refl, first_where, count_where,
  count_where-upsert_le, count_where-update_key_eq, count_where-delete_where_le, count_where_mono,
  first_where-upsert_self, first_where-key,
}
use icloud_api_mangobubu.Store.Quota.{
  Reservation, Principal, Tables, Error, AliasDeletionQuota, alias_deletion_quota_limit, Snapshot,
  result, of_principal, at_key, is_live, is_unsent, lock_principal, lock, earliest, read_quota,
  owns, new_reservation, reserve_locked, reserve, sent_row, committed_row, mark_sent, commit,
  release, defer_quota,
}

-- The reservations of `p` that count at `now`.
abbrev pub used : Text → ℕ → Tables → ℕ
used p now t = count_where (is_live p now) t.reservations

abbrev pub Bounded : ℕ → Tables → Type 0
Bounded now t = (p : Text) → used p now t ≤ alias_deletion_quota_limit

-- A locked principal has a row.
pub lock-principals :
    (p : Text) (t : Tables)
    → (row : Principal) × (first_where (of_principal p) (lock p t).principals ≡ some row)
unfolding lock lock_principal
lock-principals p t = elim (Option-cases (first_where (of_principal p) t.principals)) [
  | inl e ↦ (
    record { principal = p; cooldown_until = 0 },
    rw (e, lock_principal)
        (first_where-upsert_self (of_principal p) _ t.principals (text_eq_refl p)),
  )
  | inr (row, e) ↦ (
    row,
    rw (e, lock_principal)
        (first_where-upsert_self (of_principal p) row t.principals
          (first_where-key (of_principal p) t.principals e)),
  )
]

pub read_quota-used :
    (p : Text) (now : ℕ) (t : Tables) → (read_quota p now (lock p t)).used ≡ used p now t
unfolding read_quota lock
read_quota-used p now t = let (row, e) = lock-principals p t in rw (e, read_quota)

pub read_quota-earliest :
    (p : Text) (now : ℕ) (t : Tables)
    → (read_quota p now (lock p t)).earliest_expiry ≡ earliest p now t.reservations
unfolding read_quota lock
read_quota-earliest p now t = let (row, e) = lock-principals p t in rw (e, read_quota)

pub earliest-none :
    (p : Text) (now : ℕ) (rows : List Reservation)
    → earliest p now rows ≡ none
    → count_where (is_live p now) rows ≡ 0
unfolding earliest count_where
earliest-none p now [] e = refl
earliest-none p now (r ∷ rs) e = ground (arith, earliest-none p now rs)

-- A snapshot that asks nobody to wait has room.
pub result-free :
    (v : Snapshot) (now : ℕ)
    → (v.earliest_expiry ≡ none → v.used ≡ 0)
    → (result v now false).retry_at ≡ none
    → v.used < alias_deletion_quota_limit
unfolding result
result-free v now h e = ground arith

reserve_locked-Bounded :
    (p id : Text) (now : ℕ) (t : Tables)
    → Bounded now t
    → Bounded now (reserve_locked p id now (lock p t)).0
unfolding reserve_locked lock
reserve_locked-Bounded p id now t b q =
    let key = at_key p id in
    let new = new_reservation p id now in
    let owned = owns now (first_where key t.reservations) in
    ground (
      arith,
      b q,
      text_eq_iff p q,
      count_where-upsert_le (is_live q now) key new t.reservations,
      read_quota-used p now t,
      read_quota-earliest p now t,
      earliest-none p now t.reservations,
      result-free (read_quota p now (lock p t)) now,
    )

abbrev pub after_reserve : Tables → Result Error (Tables × AliasDeletionQuota) → Tables
after_reserve t (ok (u, quota)) = u
after_reserve t (err e) = t

reserve-Bounded :
    (p id : Text) (now : ℕ) (t : Tables)
    → Bounded now t
    → Bounded now (after_reserve t (reserve p id now t))
unfolding reserve
reserve-Bounded p id now t b q = ground (arith, reserve_locked-Bounded p id now t b q, b q)

mark_sent-Bounded :
    (p id : Text) (now : ℕ) (t : Tables)
    → Bounded now t
    → Bounded now (after t (mark_sent p id now t))
unfolding mark_sent
mark_sent-Bounded p id now t b q = elim (Option-cases (first_where (at_key p id) t.reservations)) [
  | inl e ↦ ground (arith, b q)
  | inr (r, e) ↦ ground (
    arith,
    b q,
    count_where-update_key_eq (is_live q now) (at_key p id) (sent_row now r) t.reservations e,
  )
]

-- A commit renews a reservation that has not run out.
abbrev pub CommitsLive : Text → Text → ℕ → Tables → Type 0
CommitsLive p id now t =
    (r : Reservation) → first_where (at_key p id) t.reservations ≡ some r → now < r.expires_at

commit-Bounded :
    (p id : Text) (now : ℕ) (t : Tables)
    → Bounded now t
    → CommitsLive p id now t
    → Bounded now (after t (commit p id now t))
unfolding commit
commit-Bounded p id now t b live q =
    elim (Option-cases (first_where (at_key p id) t.reservations)) [
      | inl e ↦ ground (arith, b q)
      | inr (r, e) ↦ ground (
        arith,
        b q,
        live r e,
        count_where-update_key_eq (is_live q now) (at_key p id) (committed_row now r) t.reservations
            e,
      )
    ]

release-Bounded :
    (p id : Text) (now : ℕ) (t : Tables) → Bounded now t → Bounded now (after t (release p id t))
unfolding release
release-Bounded p id now t b q =
    ground (arith, b q, count_where-delete_where_le (is_live q now) (is_unsent p id) t.reservations)

defer_quota-Bounded :
    (p : Text) (until : Option ℕ) (now : ℕ) (t : Tables)
    → Bounded now t
    → Bounded now (after t (defer_quota p until t))
unfolding defer_quota
defer_quota-Bounded p none now t b q = ground (arith, b q)
defer_quota-Bounded p (some until) now t b q = ground (arith, b q)

-- Time passing only frees allowance.
pub used-antitone :
    (p : Text) (now later : ℕ) (t : Tables) → now ≤ later → used p later t ≤ used p now t
used-antitone p now later t h =
    count_where_mono (is_live p later) (is_live p now) t.reservations λ r e. ground arith

pub data Op : Type 0 where
  reserves marks_sent commits releases : Text → Text → Op
  defers : Text → Option ℕ → Op

-- One transaction; a refused one is rolled back.
unfoldable pub step : ℕ → Op → Tables → Tables
step now (reserves p id) t = after_reserve t (reserve p id now t)
step now (marks_sent p id) t = after t (mark_sent p id now t)
step now (commits p id) t = after t (commit p id now t)
step now (releases p id) t = after t (release p id t)
step now (defers p until) t = after t (defer_quota p until t)

-- What is asked of a transaction: that it commits no reservation that has run out.
abbrev pub Timely : ℕ → Op → Tables → Type 0
Timely now (commits p id) t = CommitsLive p id now t
Timely now _ t = Unit {0}

pub step-Bounded :
    (now : ℕ) (op : Op) (t : Tables) → Timely now op t → Bounded now t → Bounded now (step now op t)
unfolding step
step-Bounded now (reserves p id) t h b = reserve-Bounded p id now t b
step-Bounded now (marks_sent p id) t h b = mark_sent-Bounded p id now t b
step-Bounded now (commits p id) t h b = commit-Bounded p id now t b h
step-Bounded now (releases p id) t h b = release-Bounded p id now t b
step-Bounded now (defers p until) t h b = defer_quota-Bounded p until now t b

-- The tables that timely transactions reach from the empty ones, while the clock goes forward.
pub data Reach : ℕ → Tables → Type 0 where
  start : (now : ℕ) → Reach now (record { principals = []; reservations = [] })
  wait : {now : ℕ} {t : Tables} (later : ℕ) → Reach now t → now ≤ later → Reach later t
  run : {now : ℕ} {t : Tables} (op : Op) → Reach now t → Timely now op t → Reach now (step now op t)

-- In every state that transactions reach while the clock goes forward, at most 200 reservations of
-- each principal count, if none of them commits a reservation that has run out.
pub Reach-Bounded :
    {now : ℕ} {t : Tables} → Reach now t → (p : Text) → used p now t ≤ alias_deletion_quota_limit
unfolding count_where
Reach-Bounded (start now) p = omega arith
Reach-Bounded (wait {now = past} {t = s} later r h) p =
    omega (arith, used-antitone p past later s h, Reach-Bounded r p)
Reach-Bounded (run {now = at} {t = s} op r h) p = step-Bounded at op s h (Reach-Bounded r) p
