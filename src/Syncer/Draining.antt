-- ===== src/Syncer/Draining.antt =====
-- The turns of the worker between two waits come to an end.
use icloud_api_mangobubu.Base.{
  ℕ, zero, suc, ◌+◌, ◌≤◌, ◌<◌, ◌≡◌, inl, inr, refl, sym, ap, ◌∙◌, subst, Bool, true, false, not,
  ◌&&◌, Option, some, List, [], ◌∷◌, arith, leb, ◌==◌, if◌then◌else◌, Bool-cases, if-both, Result,
  ok, err, length, All, Pairwise, count_where, All-map, All-both,
}
use icloud_api_mangobubu.Store.Seen.Types.{SeenTask, Outbox, Error, task_key}
use icloud_api_mangobubu.Store.Seen.Tasks.{list_accounts}
use icloud_api_mangobubu.Syncer.SeenWorker.{
  Calls, is_open, Pending, process_account, Retry, Settings, defer_account, plan_of, process_ids,
  run_pending, process_pending, drain,
}
use icloud_api_mangobubu.Syncer.Batches.{
  tasks_at, covers, process_batches_le, process_batches_other, process_batches-gone,
}
use icloud_api_mangobubu.Syncer.Rounds.{or-cases}
use icloud_api_mangobubu.Syncer.Listed.{Backed, Distinct, plan_of-Sound}

process_account_le :
    (q : SeenTask → Bool) (calls : Calls) (p : Pending) (t : Outbox)
    → tasks_at q (process_account calls p t).0 ≤ tasks_at q t
unfolding process_account
process_account_le q calls p t =
    if-both (λ (r : Outbox × Bool). tasks_at q r.0 ≤ tasks_at q t)
      (calls.acquires p.id && (is_open p.id t && calls.decrypts p.id)) _ _
      (λ on. process_batches_le q calls p.id p.batches t) (λ off. omega arith)

process_account_other :
    (calls : Calls) (p : Pending) (t : Outbox) (other validity w : ℕ)
    → (p.id == other) ≡ false
    → tasks_at (task_key other validity w) (process_account calls p t).0
      ≡ tasks_at (task_key other validity w) t
unfolding process_account
process_account_other calls p t other validity w foreign =
    if-both
      (λ (r : Outbox × Bool).
        tasks_at (task_key other validity w) r.0 ≡ tasks_at (task_key other validity w) t)
      (calls.acquires p.id && (is_open p.id t && calls.decrypts p.id)) _ _
      (λ on. process_batches_other calls p.id p.batches t other validity w foreign) (λ off. refl)

process_account-gone :
    (calls : Calls) (p : Pending) (t : Outbox) (validity w : ℕ)
    → covers validity w p.batches ≡ true
    → (process_account calls p t).1 ≡ true
    → tasks_at (task_key p.id validity w) (process_account calls p t).0 ≡ 0
unfolding process_account
process_account-gone calls p t validity w held =
    if-both (λ (r : Outbox × Bool). r.1 ≡ true → tasks_at (task_key p.id validity w) r.0 ≡ 0)
      (calls.acquires p.id && (is_open p.id t && calls.decrypts p.id)) _ _
      (λ on went. process_batches-gone calls p.id p.batches t validity w held went)
      (λ off went. absurd (ground arith))

-- All tasks of the outbox.
abbrev pub total : Outbox → ℕ
total t = tasks_at (λ r. true) t

total-split :
    (q : SeenTask → Bool) (rows : List SeenTask)
    → count_where (λ r. true) rows ≡ count_where q rows + count_where (λ r. not (q r)) rows
unfolding count_where
total-split q [] = refl
total-split q (r ∷ rs) = let rest = total-split q rs in ground arith

-- An account that is done with a task leaves fewer.
done-shrinks :
    (calls : Calls) (p : Pending) (t : Outbox)
    → Backed t p
    → (process_account calls p t).1 ≡ true
    → 1 + total (process_account calls p t).0 ≤ total t
done-shrinks calls p t (validity, w, held, there) went =
    let q = task_key p.id validity w in
    let u = (process_account calls p t).0 in
    let gone = process_account-gone calls p t validity w held went in
    let others = process_account_le (λ r. not (q r)) calls p t in
    let before = total-split q t.seen_tasks in
    let after_it = total-split q u.seen_tasks in omega arith

Backed-other :
    (calls : Calls) (p q : Pending) (t : Outbox)
    → Distinct p q
    → Backed t q
    → Backed (process_account calls p t).0 q
Backed-other calls p q t apart (validity, w, held, there) = (
  validity,
  w,
  held,
  subst (λ n. 1 ≤ n) (sym (process_account_other calls p t q.id validity w apart)) there,
)

run_pending_le :
    (s : Settings) (calls : Calls) (now : ℕ) (ps : List Pending) (t : Outbox) (retries : List Retry)
    → total (run_pending s calls now ps t retries).0.0 ≤ total t
unfolding run_pending
run_pending_le s calls now [] t retries = omega arith
run_pending_le s calls now (p ∷ ps) t retries =
    let first = process_account_le (λ r. true) calls p t in
    let later =
      if (process_account calls p t).1 then retries else defer_account s p.id now retries in
    let rest = run_pending_le s calls now ps (process_account calls p t).0 later in omega arith

process_ids_le :
    (s : Settings) (calls : Calls) (now : ℕ) (t : Outbox) (retries : List Retry)
    (r : Result Error (List ℕ))
    → total (process_ids s calls now t retries r).0.0 ≤ total t
process_ids_le s calls now t retries (err e) = omega arith
process_ids_le s calls now t retries (ok []) = omega arith
process_ids_le s calls now t retries (ok (id ∷ ids)) =
    let plan = plan_of s now t (id ∷ ids) retries in
    run_pending_le s calls now plan.pending t plan.retries

process_pending_le :
    (s : Settings) (calls : Calls) (now : ℕ) (t : Outbox) (retries : List Retry)
    → total (process_pending s calls now t retries).0.0 ≤ total t
unfolding process_pending
process_pending_le s calls now t retries = process_ids_le s calls now t retries (list_accounts t)

and-left : (a b : Bool) → a && b ≡ true → a ≡ true
and-left true b h = refl
and-left false b h = h

-- A turn after which there may be more has done at least one task.
run_pending-shrinks :
    (s : Settings) (calls : Calls) (now : ℕ) (ps : List Pending) (t : Outbox) (retries : List Retry)
    → All (Backed t) ps
    → Pairwise Distinct ps
    → (run_pending s calls now ps t retries).1 ≡ true
    → 1 + total (run_pending s calls now ps t retries).0.0 ≤ total t
unfolding run_pending
run_pending-shrinks s calls now [] t retries backed apart more = absurd (ground arith)
run_pending-shrinks s calls now (p ∷ ps) t retries (own, backed) (other, apart) more =
    let u = (process_account calls p t).0 in
    let went = (process_account calls p t).1 in
    let later = if went then retries else defer_account s p.id now retries in
    let first = process_account_le (λ r. true) calls p t in
    elim (or-cases (went && leb s.batch_size p.task_count) (run_pending s calls now ps u later).1
      more) [
        | inl full ↦
            let done = done-shrinks calls p t own (and-left went _ full) in
            let rest = run_pending_le s calls now ps u later in omega arith
        | inr again ↦
            let kept =
              All-map _ (Backed u) ps (λ (q : Pending) h. Backed-other calls p q t h.0 h.1)
                (All-both _ _ ps other backed) in
            let rest = run_pending-shrinks s calls now ps u later kept apart again in omega arith
      ]

process_ids-shrinks :
    (s : Settings) (calls : Calls) (now : ℕ) (t : Outbox) (retries : List Retry)
    (r : Result Error (List ℕ))
    → (process_ids s calls now t retries r).1 ≡ true
    → 1 + total (process_ids s calls now t retries r).0.0 ≤ total t
process_ids-shrinks s calls now t retries (err e) more = absurd (ground arith)
process_ids-shrinks s calls now t retries (ok []) more = absurd (ground arith)
process_ids-shrinks s calls now t retries (ok (id ∷ ids)) more =
    let (all, (held, apart)) = plan_of-Sound s now t (id ∷ ids) retries in
    let plan = plan_of s now t (id ∷ ids) retries in
    run_pending-shrinks s calls now plan.pending t plan.retries
      (All-map _ (Backed t) plan.pending (λ (p : Pending) h. h.0) held) apart more

process_pending-shrinks :
    (s : Settings) (calls : Calls) (now : ℕ) (t : Outbox) (retries : List Retry)
    → (process_pending s calls now t retries).1 ≡ true
    → 1 + total (process_pending s calls now t retries).0.0 ≤ total t
unfolding process_pending
process_pending-shrinks s calls now t retries more =
    process_ids-shrinks s calls now t retries (list_accounts t) more

total-length : (rows : List SeenTask) → count_where (λ r. true) rows ≡ length rows
unfolding count_where
total-length [] = refl
total-length (r ∷ rs) = let rest = total-length rs in omega arith

abbrev Ends : Outbox → Option (Outbox × List Retry) → Type 0
Ends t o = (out : Outbox × List Retry) × (o ≡ some out) × (total out.0 ≤ total t)

drain-total :
    (fuel : ℕ) (s : Settings) (calls : ℕ → Calls) (clock : ℕ → ℕ) (t : Outbox)
    (retries : List Retry)
    → total t < fuel
    → Ends t (drain fuel s calls clock t retries)
unfolding drain
drain-total zero s calls clock t retries enough = absurd (omega arith)
drain-total (suc fuel) s calls clock t retries enough =
    let turn = process_pending s (calls fuel) (clock fuel) t retries in
    let go : Bool → Option (Outbox × List Retry) = λ b.
      elim b as (λ x. Option (Outbox × List Retry)) [
        | true ↦ drain fuel s calls clock turn.0.0 turn.0.1
        | false ↦ some turn.0
      ] in
    elim (Bool-cases turn.1) [
      | inl more ↦
          let fewer = process_pending-shrinks s (calls fuel) (clock fuel) t retries more in
          let (out, e, less) = drain-total fuel s calls clock turn.0.0 turn.0.1 (omega arith) in
          (out, ap go more ∙ e, omega arith)
      | inr done ↦ (turn.0, ap go done, process_pending_le s (calls fuel) (clock fuel) t retries)
    ]

-- With fuel for one turn more than there are tasks, the worker comes to a wait, whatever the locker,
-- the cipher and the mail server answer, if no task arrives meanwhile; there are no more tasks than
-- before.
pub drain-ends :
    (fuel : ℕ) (s : Settings) (calls : ℕ → Calls) (clock : ℕ → ℕ) (t : Outbox)
    (retries : List Retry)
    → length t.seen_tasks < fuel
    → (out : Outbox × List Retry) × (drain fuel s calls clock t retries ≡ some out)
      × (length out.0.seen_tasks ≤ length t.seen_tasks)
drain-ends fuel s calls clock t retries enough =
    let before = total-length t.seen_tasks in
    let (out, e, less) = drain-total fuel s calls clock t retries (omega arith) in
    let after_it = total-length out.0.seen_tasks in (out, e, omega arith)
