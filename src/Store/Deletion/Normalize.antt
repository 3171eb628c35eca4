-- ===== src/Store/Deletion/Normalize.antt =====
-- `normalizeAliasDeletionJob` of internal/store/alias_deletion_job.go. Texts are valid UTF-8 here,
-- and numbers are not negative; the item list stands for its JSON.
use icloud_api_mangobubu.Store.Encoding.{sanitize_postgres_text, truncate}
use icloud_api_mangobubu.Base.{
  ℕ, ◌≤◌, ◌≡◌, inl, inr, sym, subst, Bool, true, false, not, ◌&&◌, ◌||◌, List, [], ◌∷◌, map, arith,
  ltb, leb, ◌==◌, if◌then◌else◌, Result, ok, err, ◌>>=◌, ◌>>◌, require, Result-cases, ok-injective,
  require-inv, >>=-eq-ok, length, Text, trim_space,
}
use icloud_api_mangobubu.Store.Deletion.Types.{
  JobStatus, queued, completed, interrupted, AliasDeletionJobItem, AliasDeletionJob, Error,
  invalid_status, bad_job_id, bad_admin_id, bad_item_count, bad_item_id, duplicate_item,
  long_address,
}

abbrev pub max_alias_deletion_job_items : ℕ
max_alias_deletion_job_items = 1000

abbrev contains_nul : Text → Bool
contains_nul [] = false
contains_nul (c ∷ cs) = c == 0 || contains_nul cs

abbrev is_empty {ℓ} : {A : Type ℓ} → List A → Bool
is_empty [] = true
is_empty (x ∷ xs) = false

abbrev pub contains : ℕ → List ℕ → Bool
contains n [] = false
contains n (m ∷ ms) = n == m || contains n ms

abbrev is_known : JobStatus → Bool
is_known queued = true
is_known JobStatus.running = true
is_known completed = true
is_known interrupted = true
is_known _ = false

check_job_id : Text → Result Error Text
check_job_id raw =
    let id = trim_space raw in
    if is_empty id || contains_nul id || ltb 128 (length id) then err bad_job_id else ok id

normalize_item : AliasDeletionJobItem → AliasDeletionJobItem
normalize_item item = record item {
  address = trim_space (sanitize_postgres_text item.address);
  code = truncate (trim_space item.code) 64;
  message = truncate (trim_space item.message) 1024;
}

-- The loop over the items; `seen` holds the IDs before them.
unfoldable pub normalize_items :
    List ℕ → List AliasDeletionJobItem → Result Error (List AliasDeletionJobItem)
unfolding normalize_item
normalize_items seen [] = ok []
normalize_items seen (item ∷ items) = do
  require (leb 1 item.id) bad_item_id
  require (not (contains item.id seen)) duplicate_item
  let clean = normalize_item item
  require (leb (length clean.address) 320) long_address
  rest ← normalize_items (item.id ∷ seen) items
  ok (clean ∷ rest)

unfoldable pub normalize_job : AliasDeletionJob → Result Error AliasDeletionJob
unfolding check_job_id
normalize_job job = do
  id ← check_job_id job.id
  require (leb 1 job.admin_id) bad_admin_id
  require (is_known job.status) invalid_status
  require (leb 1 (length job.items) && leb (length job.items) max_alias_deletion_job_items)
      bad_item_count
  items ← normalize_items [] job.items
  ok (record job { id = id; request_id = truncate (trim_space job.request_id) 128; items = items })

-- The IDs of the items are positive and differ from one another and from those seen.
abbrev pub Distinct : List ℕ → List AliasDeletionJobItem → Type 0
Distinct seen [] = Unit {0}
Distinct seen (item ∷ items) =
    (1 ≤ item.id) × (contains item.id seen ≡ false) × Distinct (item.id ∷ seen) items

check_job_id-inv :
    (raw id : Text) → check_job_id raw ≡ ok id → (is_empty id ≡ false) × (id ≡ trim_space raw)
unfolding check_job_id
check_job_id-inv raw id e = ground arith

normalize_items-Distinct :
    (seen : List ℕ) (items : List AliasDeletionJobItem) {out : List AliasDeletionJobItem}
    → normalize_items seen items ≡ ok out
    → Distinct seen out × (map (λ i. i.id) out ≡ map (λ i. i.id) items)
unfolding normalize_items
normalize_items-Distinct seen [] e = ground arith
normalize_items-Distinct seen (item ∷ items) {out} e =
    elim (Result-cases (normalize_items (item.id ∷ seen) items)) [
      | inl (rest, h) ↦
          rw (cons_of rest h)
            (ground (arith, normalize_items-Distinct (item.id ∷ seen) items {out = rest} h))
      | inr (f, h) ↦ absurd (ground arith)
    ]
  where
    cons_of :
        (rest : List AliasDeletionJobItem)
        → normalize_items (item.id ∷ seen) items ≡ ok rest
        → out ≡ normalize_item item ∷ rest
    cons_of rest h = ground arith

-- A job that is accepted has a positive administrator, an ID that is not blank, and from one to
-- 1000 items with positive IDs that differ from one another; the IDs are those that were asked for,
-- in their order.
pub normalize_job-Distinct :
    (job out : AliasDeletionJob)
    → normalize_job job ≡ ok out
    → (1 ≤ out.admin_id)
      × (is_empty out.id ≡ false)
      × (out.id ≡ trim_space job.id)
      × (1 ≤ length job.items)
      × (length job.items ≤ max_alias_deletion_job_items)
      × Distinct [] out.items
      × (map (λ i. i.id) out.items ≡ map (λ i. i.id) job.items)
unfolding normalize_job
normalize_job-Distinct job out e =
    let (id, c, e1) = >>=-eq-ok (check_job_id job.id) _ e in
    let (a, e2) = require-inv (leb 1 job.admin_id) bad_admin_id _ e1 in
    let (k, e3) = require-inv (is_known job.status) invalid_status _ e2 in
    let (n, e4) =
      require-inv (leb 1 (length job.items) && leb (length job.items) max_alias_deletion_job_items)
        bad_item_count _ e3 in
    let (items, h, e5) = >>=-eq-ok (normalize_items [] job.items) _ e4 in
    let same =
      ok-injective
        (record job {
          id = id;
          request_id = truncate (trim_space job.request_id) 128;
          items = items;
        })
        out e5 in
    let (distinct, ids) = normalize_items-Distinct [] job.items h in
    let (nonempty, trimmed) = check_job_id-inv job.id id c in
    subst
      (λ (o : AliasDeletionJob).
        (1 ≤ o.admin_id)
        × (is_empty o.id ≡ false)
        × (o.id ≡ trim_space job.id)
        × (1 ≤ length job.items)
        × (length job.items ≤ max_alias_deletion_job_items)
        × Distinct [] o.items
        × (map (λ i. i.id) o.items ≡ map (λ i. i.id) job.items))
      same (ground arith, nonempty, trimmed, ground arith, ground arith, distinct, ids)

-- One turn of the loop over the items.
pub normalize_items-inv :
    (seen : List ℕ) (item : AliasDeletionJobItem) (items out : List AliasDeletionJobItem)
    → normalize_items seen (item ∷ items) ≡ ok out
    → (rest : List AliasDeletionJobItem) × (normalize_items (item.id ∷ seen) items ≡ ok rest)
      × (out
          ≡ record item {
            address = trim_space (sanitize_postgres_text item.address);
            code = truncate (trim_space item.code) 64;
            message = truncate (trim_space item.message) 1024;
          }
            ∷ rest)
unfolding normalize_items normalize_item
normalize_items-inv seen item items out e =
    let (a, e1) = require-inv (leb 1 item.id) bad_item_id _ e in
    let (b, e2) = require-inv (not (contains item.id seen)) duplicate_item _ e1 in
    let (c, e3) = require-inv _ long_address _ e2 in
    let (rest, h, e4) = >>=-eq-ok (normalize_items (item.id ∷ seen) items) _ e3 in
    (rest, h, sym (ok-injective _ out e4))

-- The items of a job that is accepted went through the loop.
pub normalize_job-items :
    (job out : AliasDeletionJob)
    → normalize_job job ≡ ok out
    → normalize_items [] job.items ≡ ok out.items
unfolding normalize_job
normalize_job-items job out e =
    let (id, c, e1) = >>=-eq-ok (check_job_id job.id) _ e in
    let (a, e2) = require-inv (leb 1 job.admin_id) bad_admin_id _ e1 in
    let (k, e3) = require-inv (is_known job.status) invalid_status _ e2 in
    let (n, e4) =
      require-inv (leb 1 (length job.items) && leb (length job.items) max_alias_deletion_job_items)
        bad_item_count _ e3 in
    let (items, h, e5) = >>=-eq-ok (normalize_items [] job.items) _ e4 in
    subst (λ (o : AliasDeletionJob). normalize_items [] job.items ≡ ok o.items)
      (ok-injective _ out e5) h
