-- ===== src/Syncer/Batches.antt =====
-- What the batches of an account delete.
use icloud_api_mangobubu.Base.{
  ℕ, ◌≤◌, ◌≡◌, inl, inr, refl, sym, ap, ◌∙◌, subst, Bool, true, false, ◌&&◌, ◌||◌, Option, none,
  some, List, [], ◌∷◌, arith, leb, ◌==◌, Bool-cases, Option-cases, Result, ok, err, Result-cases,
  ok-injective, require-inv, >>=-eq-ok, count_where, count_where-delete_where_le, count_where_mono,
}
use icloud_api_mangobubu.Store.Seen.Types.{
  SeenTask, Outbox, Error, bad_uid_validity, bad_account_id, task_key,
}
use icloud_api_mangobubu.Store.Seen.Tasks.{member, unique_uids, sort_numbers, deletes, delete_tasks}
use icloud_api_mangobubu.Syncer.SeenWorker.{
  SeenUidBatch, Mark, marked, mismatch, failed, Calls, deleted, delete_batch, after_mark,
  process_batch, process_batches,
}
use icloud_api_mangobubu.Store.Seen.Deleting.{delete_tasks-exact}

abbrev pub tasks_at : (SeenTask → Bool) → Outbox → ℕ
tasks_at p t = count_where p t.seen_tasks

-- A batch holds the task.
abbrev pub covers : ℕ → ℕ → List SeenUidBatch → Bool
covers validity uid [] = false
covers validity uid (b ∷ bs) =
    (b.uid_validity == validity && member uid b.uids) || covers validity uid bs

delete_tasks_le :
    (q : SeenTask → Bool) (id validity : ℕ) (uids : List ℕ) (t u : Outbox)
    → delete_tasks id validity uids t ≡ ok u
    → tasks_at q u ≤ tasks_at q t
unfolding delete_tasks
delete_tasks_le q id validity uids t u e =
    let (a, e1) = require-inv (leb 1 id) bad_account_id _ e in
    let (b, e2) = require-inv (leb 1 validity) bad_uid_validity _ e1 in
    let (unique, h, e3) = >>=-eq-ok (unique_uids [] uids) _ e2 in
    subst (λ o. tasks_at q o ≤ tasks_at q t) (ok-injective _ _ e3)
      (count_where-delete_where_le q (deletes id validity (sort_numbers unique)) t.seen_tasks)

-- What a call that may fail does to the counts of tasks.
abbrev Kept : Outbox → Option Outbox → Type 0
Kept t none = Unit
Kept t (some u) = (q : SeenTask → Bool) → tasks_at q u ≤ tasks_at q t

delete_batch-Kept : (id : ℕ) (b : SeenUidBatch) (t : Outbox) → Kept t (delete_batch id b t)
delete_batch-Kept id b t = elim (Result-cases (delete_tasks id b.uid_validity b.uids t)) [
  | inl (u, e) ↦
      subst (λ r. Kept t (deleted r)) (sym e)
        (λ q. delete_tasks_le q id b.uid_validity b.uids t u e)
  | inr (failure, e) ↦ subst (λ r. Kept t (deleted r)) (sym e) tt
]

after_mark-Kept : (id : ℕ) (b : SeenUidBatch) (t : Outbox) (m : Mark) → Kept t (after_mark id b t m)
after_mark-Kept id b t failed = tt
after_mark-Kept id b t marked = delete_batch-Kept id b t
after_mark-Kept id b t mismatch = delete_batch-Kept id b t

process_batch-Kept :
    (calls : Calls) (id : ℕ) (b : SeenUidBatch) (t : Outbox) → Kept t (process_batch calls id b t)
unfolding process_batch
process_batch-Kept calls id b t = after_mark-Kept id b t (calls.mark id b.uid_validity b.uids)

-- The loop behind one batch.
abbrev behind : Calls → ℕ → List SeenUidBatch → Outbox → Option Outbox → Outbox × Bool
behind calls id bs t none = (t, false)
behind calls id bs t (some u) = process_batches calls id bs u

process_batches-behind :
    (calls : Calls) (id : ℕ) (b : SeenUidBatch) (bs : List SeenUidBatch) (t : Outbox)
    (o : Option Outbox)
    → process_batch calls id b t ≡ o
    → process_batches calls id (b ∷ bs) t ≡ behind calls id bs t o
unfolding process_batches
process_batches-behind calls id b bs t none e =
    ap
      (λ o. elim o as (λ x. Outbox × Bool) [
        | none ↦ (t, false)
        | some u ↦ process_batches calls id bs u
      ])
      e
process_batches-behind calls id b bs t (some v) e =
    ap
      (λ o. elim o as (λ x. Outbox × Bool) [
        | none ↦ (t, false)
        | some u ↦ process_batches calls id bs u
      ])
      e

pub process_batches_le :
    (q : SeenTask → Bool) (calls : Calls) (id : ℕ) (bs : List SeenUidBatch) (t : Outbox)
    → tasks_at q (process_batches calls id bs t).0 ≤ tasks_at q t
unfolding process_batches
process_batches_le q calls id [] t = omega arith
process_batches_le q calls id (b ∷ bs) t = elim (Option-cases (process_batch calls id b t)) [
  | inl e ↦
      subst (λ r. tasks_at q r.0 ≤ tasks_at q t)
        (sym (process_batches-behind calls id b bs t none e)) (omega arith)
  | inr (u, e) ↦
      let first = subst (Kept t) e (process_batch-Kept calls id b t) in
      let now = first q in
      let rest = process_batches_le q calls id bs u in
      subst (λ r. tasks_at q r.0 ≤ tasks_at q t)
        (sym (process_batches-behind calls id b bs t (some u) e)) (omega arith)
]

member-same :
    (w n : ℕ) (uids : List ℕ) → (n == w) ≡ true → member w uids ≡ true → member n uids ≡ true
member-same w n uids same h = subst (λ m. member m uids ≡ true) (sym (same_number n w same)) h
  where
    same_number : (a b : ℕ) → (a == b) ≡ true → a ≡ b
    same_number a b h = ground arith

delete_batch-gone :
    (id validity w : ℕ) (b : SeenUidBatch) (t u : Outbox)
    → (b.uid_validity == validity && member w b.uids) ≡ true
    → delete_tasks id b.uid_validity b.uids t ≡ ok u
    → tasks_at (task_key id validity w) u ≡ 0
delete_batch-gone id validity w b t u held e =
    let (gone, kept) =
      delete_tasks-exact id b.uid_validity b.uids t u (λ r. false) e
        (λ r h. absurd (ground arith)) in
    let inside =
      count_where_mono (task_key id validity w) (deletes id b.uid_validity b.uids) u.seen_tasks
        (λ r k. let same = member-same w r.uid b.uids in ground (arith, same)) in
    omega arith

-- The tasks of other accounts stay.
abbrev Others : ℕ → Outbox → Option Outbox → Type 0
Others id t none = Unit
Others id t (some u) =
    (other validity w : ℕ)
    → (id == other) ≡ false
    → tasks_at (task_key other validity w) u ≡ tasks_at (task_key other validity w) t

delete_batch-Others : (id : ℕ) (b : SeenUidBatch) (t : Outbox) → Others id t (delete_batch id b t)
delete_batch-Others id b t = elim (Result-cases (delete_tasks id b.uid_validity b.uids t)) [
  | inl (u, e) ↦
      subst (λ r. Others id t (deleted r)) (sym e)
        (λ other validity w foreign.
          (delete_tasks-exact id b.uid_validity b.uids t u (task_key other validity w) e
            (λ r h. ground arith)).1)
  | inr (failure, e) ↦ subst (λ r. Others id t (deleted r)) (sym e) tt
]

after_mark-Others :
    (id : ℕ) (b : SeenUidBatch) (t : Outbox) (m : Mark) → Others id t (after_mark id b t m)
after_mark-Others id b t failed = tt
after_mark-Others id b t marked = delete_batch-Others id b t
after_mark-Others id b t mismatch = delete_batch-Others id b t

pub process_batches_other :
    (calls : Calls) (id : ℕ) (bs : List SeenUidBatch) (t : Outbox) (other validity w : ℕ)
    → (id == other) ≡ false
    → tasks_at (task_key other validity w) (process_batches calls id bs t).0
      ≡ tasks_at (task_key other validity w) t
unfolding process_batches process_batch
process_batches_other calls id [] t other validity w foreign = refl
process_batches_other calls id (b ∷ bs) t other validity w foreign =
    elim (Option-cases (process_batch calls id b t)) [
      | inl e ↦
          ap (λ r. tasks_at (task_key other validity w) r.0)
            (process_batches-behind calls id b bs t none e)
      | inr (u, e) ↦
          let first =
            subst (Others id t) e
              (after_mark-Others id b t (calls.mark id b.uid_validity b.uids)) in
          ap (λ r. tasks_at (task_key other validity w) r.0)
            (process_batches-behind calls id b bs t (some u) e)
          ∙ process_batches_other calls id bs u other validity w foreign
          ∙ first other validity w foreign
    ]

deleted-inv : (r : Result Error Outbox) (u : Outbox) → deleted r ≡ some u → r ≡ ok u
deleted-inv (ok v) u e = cc
deleted-inv (err failure) u e = absurd (ground arith)

deleted-gone :
    (id validity w : ℕ) (b : SeenUidBatch) (t u : Outbox)
    → (b.uid_validity == validity && member w b.uids) ≡ true
    → delete_batch id b t ≡ some u
    → tasks_at (task_key id validity w) u ≡ 0
deleted-gone id validity w b t u held e =
    delete_batch-gone id validity w b t u held
      (deleted-inv (delete_tasks id b.uid_validity b.uids t) u e)

after_mark-gone :
    (id validity w : ℕ) (b : SeenUidBatch) (t u : Outbox) (m : Mark)
    → (b.uid_validity == validity && member w b.uids) ≡ true
    → after_mark id b t m ≡ some u
    → tasks_at (task_key id validity w) u ≡ 0
after_mark-gone id validity w b t u failed held e = absurd (ground arith)
after_mark-gone id validity w b t u marked held e = deleted-gone id validity w b t u held e
after_mark-gone id validity w b t u mismatch held e = deleted-gone id validity w b t u held e

-- Batches that are all done leave no task that they hold.
pub process_batches-gone :
    (calls : Calls) (id : ℕ) (bs : List SeenUidBatch) (t : Outbox) (validity w : ℕ)
    → covers validity w bs ≡ true
    → (process_batches calls id bs t).1 ≡ true
    → tasks_at (task_key id validity w) (process_batches calls id bs t).0 ≡ 0
unfolding process_batch
process_batches-gone calls id [] t validity w held went = absurd (ground arith)
process_batches-gone calls id (b ∷ bs) t validity w held went =
    elim (Option-cases (process_batch calls id b t)) [
      | inl e ↦ absurd (
          let stopped = ap (λ r. r.1) (process_batches-behind calls id b bs t none e) in
          ground arith)
      | inr (u, e) ↦
          let same = process_batches-behind calls id b bs t (some u) e in
          subst (λ r. tasks_at (task_key id validity w) r.0 ≡ 0) (sym same)
            (elim (Bool-cases (b.uid_validity == validity && member w b.uids)) [
              | inl here ↦
                  let gone =
                    after_mark-gone id validity w b t u (calls.mark id b.uid_validity b.uids) here
                      e in
                  let rest = process_batches_le (task_key id validity w) calls id bs u in
                  omega arith
              | inr elsewhere ↦
                  process_batches-gone calls id bs u validity w
                    (sym (ap (λ (c : Bool). c || covers validity w bs) elsewhere) ∙ held)
                    (sym (ap (λ r. r.1) same) ∙ went)
            ])
    ]
