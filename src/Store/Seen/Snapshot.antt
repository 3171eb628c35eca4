-- ===== src/Store/Seen/Snapshot.antt =====
-- The columns that the first statement of `ConsumeLatestMessage` (internal/store/seen.go) names.
use icloud_api_mangobubu.Base.{
  ℕ, ◌≡◌, inl, inr, refl, sym, ◌∙◌, true, Option, none, some, ◌&&◌, arith, Option-cases, codes,
  text_eq, text_eq_iff, first_where,
}
use icloud_api_mangobubu.Store.Seen.Types.{Account, Alias, LatestMessage, Outbox}
use icloud_api_mangobubu.Store.Seen.Consume.{
  Expected, alias_key, account_key, message_key, same_time, alias_fits, account_fits, message_fits,
  is_current,
}

-- The row of the join that the caller has read: an enabled alias of an enabled account, with the
-- API key, the successful synchronization and the latest message that the caller names.
pub record IsSnapshot (e : Expected) (account_id : ℕ) (t : Outbox) (a : Account) (al : Alias)
    (lm : LatestMessage) : Type 0 where
  pub is_alias : first_where (alias_key e.alias_id) t.aliases ≡ some al
  pub is_account : first_where (account_key account_id) t.accounts ≡ some a
  pub is_message : first_where (message_key e.alias_id) t.latest_messages ≡ some lm
  pub owned : al.account_id ≡ account_id
  pub alias_enabled : al.enabled ≡ true
  pub account_enabled : a.enabled ≡ true
  pub same_api_key : al.api_key_hash ≡ e.api_key_hash
  pub synced : al.last_sync_status ≡ codes "ok"
  pub synced_at : (s : ℕ) × (al.last_synced_at ≡ some s) × (e.last_synced_at ≡ some s)
  pub message_synced_at : e.message_synced_at ≡ some lm.synced_at
  pub same_uid_validity : lm.uid_validity ≡ e.uid_validity
  pub same_uid : lm.uid ≡ e.uid

same_time-some : (a b : Option ℕ) → same_time a b ≡ true → (s : ℕ) × (a ≡ some s) × (b ≡ some s)
same_time-some none none h = absurd (ground arith)
same_time-some none (some u) h = absurd (ground arith)
same_time-some (some s) none h = absurd (ground arith)
same_time-some (some s) (some u) h = (s, refl, ground arith)

same_time_refl : (a b : Option ℕ) (s : ℕ) → a ≡ some s → b ≡ some s → same_time a b ≡ true
same_time_refl a b s h k = rw (h, k) (ground arith)

fits-IsSnapshot :
    (e : Expected) (account_id : ℕ) (t : Outbox) (a : Account) (al : Alias) (lm : LatestMessage)
    → first_where (alias_key e.alias_id) t.aliases ≡ some al
    → first_where (account_key account_id) t.accounts ≡ some a
    → first_where (message_key e.alias_id) t.latest_messages ≡ some lm
    → alias_fits e account_id (some al) && account_fits (some a) && message_fits e (some lm) ≡ true
    → IsSnapshot e account_id t a al lm
fits-IsSnapshot e account_id t a al lm n m k h =
    let (at, here, asked) = same_time-some (some lm.synced_at) e.message_synced_at (ground arith) in
    record {
      is_alias = n;
      is_account = m;
      is_message = k;
      owned = ground arith;
      alias_enabled = ground arith;
      account_enabled = ground arith;
      same_api_key = (text_eq_iff al.api_key_hash e.api_key_hash).0 (ground arith);
      synced = (text_eq_iff al.last_sync_status (codes "ok")).0 (ground arith);
      synced_at = same_time-some al.last_synced_at e.last_synced_at (ground arith);
      message_synced_at = asked ∙ sym here;
      same_uid_validity = ground arith;
      same_uid = ground arith;
    }

pub is_current-found :
    (e : Expected) (account_id : ℕ) (t : Outbox)
    → is_current e account_id t ≡ true
    → (a : Account) × (al : Alias) × (lm : LatestMessage) × IsSnapshot e account_id t a al lm
unfolding is_current
is_current-found e account_id t h =
    elim (Option-cases (first_where (alias_key e.alias_id) t.aliases)) [
      | inl n ↦ absurd (ground (arith, rw n at h))
      | inr (al, n) ↦ elim (Option-cases (first_where (account_key account_id) t.accounts)) [
        | inl m ↦ absurd (ground (arith, rw (n, m) at h))
        | inr (a, m) ↦
            elim (Option-cases (first_where (message_key e.alias_id) t.latest_messages)) [
              | inl k ↦ absurd (ground (arith, rw (n, m, k) at h))
              | inr (lm, k) ↦
                  (a, al, lm, fits-IsSnapshot e account_id t a al lm n m k (rw (n, m, k) at h))
            ]
      ]
    ]

pub IsSnapshot-is_current :
    (e : Expected) (account_id : ℕ) (t : Outbox) (a : Account) (al : Alias) (lm : LatestMessage)
    → IsSnapshot e account_id t a al lm
    → is_current e account_id t ≡ true
unfolding is_current
IsSnapshot-is_current e account_id t a al lm s =
    let (at, x, y) = s.synced_at in
    let key : text_eq al.api_key_hash e.api_key_hash ≡ true =
      (text_eq_iff al.api_key_hash e.api_key_hash).1 s.same_api_key in
    let status : text_eq al.last_sync_status (codes "ok") ≡ true =
      (text_eq_iff al.last_sync_status (codes "ok")).1 s.synced in
    let time = same_time_refl al.last_synced_at e.last_synced_at at x y in
    let message =
      same_time_refl (some lm.synced_at) e.message_synced_at lm.synced_at refl
        s.message_synced_at in
    rw (s.is_alias, s.is_account, s.is_message)
      (ground (arith, s.owned, s.alias_enabled, s.account_enabled, s.same_uid_validity, s.same_uid))
