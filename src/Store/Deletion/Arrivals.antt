-- ===== src/Store/Deletion/Arrivals.antt =====
-- New work goes behind all other, and the queue keeps its order.
use icloud_api_mangobubu.Store.Deletion.Normalize.{normalize_job}
use icloud_api_mangobubu.Store.Deletion.Publish.{prune}
use icloud_api_mangobubu.Store.Deletion.Pruning.{Ordered, prune-Ordered}
use icloud_api_mangobubu.Store.Deletion.Enqueue.{
  active_for, insert_work, for_alias, insert_job, new_work, find_or_append, enqueue_item,
  enqueue_items, enqueue_new, enqueue,
}
use icloud_api_mangobubu.Base.{
  ℕ, ◌+◌, ◌≤◌, ◌<◌, ◌≡◌, inl, inr, refl, sym, ◌∙◌, subst, true, false, none, List, [], ◌∷◌, ◌++◌,
  arith, Bool-cases, Option-cases, if-eq_true, if-eq_false, ok, ok-injective, require-inv,
  or_fail-inv, >>=-eq-ok, All, All-append, Text, text_eq, text_eq_iff, first_where, All-map,
  All-both, first_where-append_none,
}
use icloud_api_mangobubu.Store.Deletion.Types.{
  AliasDeletionWork, AliasDeletionJobItem, AliasDeletionJob, Db, credentials_changed,
  duplicate_target, missing_target, constraint_failed, is_running,
}
use icloud_api_mangobubu.Store.Deletion.Snapshot.{has_id, get_job}
use icloud_api_mangobubu.Store.Deletion.Queue.{precedes}
use icloud_api_mangobubu.Store.Deletion.Order.{head_if_running, UniqueIds, Increasing, InOrder}

UniqueIds-append :
    (works : List AliasDeletionWork) (new : AliasDeletionWork)
    → first_where (has_id new.id) works ≡ none
    → UniqueIds works
    → UniqueIds (works ++ new ∷ [])
unfolding first_where
UniqueIds-append [] new f u = (refl, tt)
UniqueIds-append (w ∷ ws) new f u = elim (Bool-cases (text_eq w.id new.id)) [
  | inl e ↦ absurd (ground arith)
  | inr e ↦ (
    first_where-append_none (has_id w.id) ws new u.0
        (ground (arith, text_eq_iff new.id w.id, text_eq_iff w.id new.id)),
    UniqueIds-append ws new (ground arith) u.1,
  )
]

Increasing-append :
    (works : List AliasDeletionWork) (new : AliasDeletionWork) (sequence : ℕ)
    → new.sequence ≡ sequence + 1
    → All (λ w. w.sequence ≤ sequence) works
    → Increasing works
    → Increasing (works ++ new ∷ [])
Increasing-append [] new sequence e h i = (tt, tt)
Increasing-append (w ∷ ws) new sequence e h i = (
  All-append (λ v. w.sequence < v.sequence) ws (new ∷ []) i.0 (omega (arith, h.0), tt),
  Increasing-append ws new sequence e h.1 i.1,
)

-- A row with the next number goes to the end, and waits for its turn.
pub InOrder-append :
    (works : List AliasDeletionWork) (new : AliasDeletionWork) (sequence : ℕ)
    → new.sequence ≡ sequence + 1
    → first_where (has_id new.id) works ≡ none
    → is_running new.status ≡ false
    → InOrder works sequence
    → InOrder (works ++ new ∷ []) (sequence + 1)
InOrder-append works new sequence e f idle o = record {
  unique = UniqueIds-append works new f o.unique;
  increasing = Increasing-append works new sequence e o.issued o.increasing;
  heads =
      All-append (λ w. head_if_running (works ++ new ∷ []) w ≡ true) works (new ∷ [])
        (All-map (λ w. (w.sequence ≤ sequence) × (head_if_running works w ≡ true))
          (λ w. head_if_running (works ++ new ∷ []) w ≡ true) works (λ w h. waits w h.0 h.1)
          (All-both (λ w. w.sequence ≤ sequence) (λ w. head_if_running works w ≡ true) works
            o.issued o.heads))
        (ground arith, tt);
  issued =
      All-append (λ w. w.sequence ≤ sequence + 1) works (new ∷ [])
        (All-map (λ w. w.sequence ≤ sequence) (λ w. w.sequence ≤ sequence + 1) works
          (λ w h. omega arith) o.issued)
        (omega arith, tt);
}
  where
    waits :
        (w : AliasDeletionWork)
        → w.sequence ≤ sequence
        → head_if_running works w ≡ true
        → head_if_running (works ++ new ∷ []) w ≡ true
    waits w h k = ground (
      arith,
      λ (none_before : first_where (precedes w) works ≡ none).
          first_where-append_none (precedes w) works new none_before (ground arith),
    )

insert_job-Ordered :
    (job : AliasDeletionJob) (db : Db) {next : Db}
    → insert_job job db ≡ ok next
    → Ordered db
    → Ordered next
unfolding insert_job
insert_job-Ordered job db {next} e o =
    let (clean, n, rest) = >>=-eq-ok (normalize_job job) _ e in
    subst Ordered (ok-injective _ next rest) o

module _ (to_lower : Text → Text) (new_id : ℕ → Text) (clock : ℕ)
    (targets : List AliasDeletionWork) where
  find_or_append-Ordered :
      (target : AliasDeletionWork) (db : Db) {r : Db × AliasDeletionWork}
      → find_or_append to_lower new_id clock target db ≡ ok r
      → Ordered db
      → Ordered r.0
  unfolding find_or_append
  find_or_append-Ordered target db {r} e o =
      elim (Option-cases (first_where (active_for target.apple_subject target.address) db.works)) [
        | inr (w, n) ↦
            subst (λ (p : Db × AliasDeletionWork). Ordered p.0)
              (ok-injective (db, w) r (rw (n, find_or_append) at e)) o
        | inl n ↦
            let work = new_work to_lower new_id clock (db.sequence + 1) target in
            let (next, i, rest) =
              >>=-eq-ok (insert_work work (record db { sequence = db.sequence + 1 })) _
                (rw (n, find_or_append) at e) in
            let (free, stored) = require-inv _ constraint_failed _ i in
            subst (λ (p : Db × AliasDeletionWork). Ordered p.0) (ok-injective (next, work) r rest)
              (subst Ordered (ok-injective _ next stored)
                (InOrder-append db.works work db.sequence refl (ground arith) refl o))
      ]

  enqueue_item-Ordered :
      (item : AliasDeletionJobItem) (db : Db) {r : Db × AliasDeletionJobItem}
      → enqueue_item to_lower new_id clock targets item db ≡ ok r
      → Ordered db
      → Ordered r.0
  unfolding enqueue_item
  enqueue_item-Ordered item db {r} e o = elim (Bool-cases item.done) [
    | inl d ↦
        subst (λ (p : Db × AliasDeletionJobItem). Ordered p.0)
          (ok-injective (db, item) r (sym (if-eq_true item.done _ _ d) ∙ e)) o
    | inr d ↦
        let (target, n, e1) =
          or_fail-inv (first_where (for_alias item.id) targets) missing_target _
            (sym (if-eq_false item.done _ _ d) ∙ e) in
        let (complete, e2) = require-inv _ missing_target _ e1 in
        let (found, f, e3) = >>=-eq-ok (find_or_append to_lower new_id clock _ db) _ e2 in
        subst (λ (p : Db × AliasDeletionJobItem). Ordered p.0) (ok-injective _ r e3)
          (find_or_append-Ordered _ db f o)
  ]

  enqueue_items-Ordered :
      (items : List AliasDeletionJobItem) (db : Db) {r : Db × List AliasDeletionJobItem}
      → enqueue_items to_lower new_id clock targets items db ≡ ok r
      → Ordered db
      → Ordered r.0
  unfolding enqueue_items
  enqueue_items-Ordered [] db {r} e o =
      subst (λ (p : Db × List AliasDeletionJobItem). Ordered p.0) (ok-injective (db, []) r e) o
  enqueue_items-Ordered (item ∷ items) db {r} e o =
      let (first, f, e1) = >>=-eq-ok (enqueue_item to_lower new_id clock targets item db) _ e in
      let (rest, g, e2) =
        >>=-eq-ok (enqueue_items to_lower new_id clock targets items first.0) _ e1 in
      subst (λ (p : Db × List AliasDeletionJobItem). Ordered p.0) (ok-injective _ r e2)
        (enqueue_items-Ordered items first.0 g (enqueue_item-Ordered item db f o))

  enqueue_new-Ordered :
      (job : AliasDeletionJob) (db : Db) {r : Db × AliasDeletionJob}
      → enqueue_new to_lower new_id clock targets job db ≡ ok r
      → Ordered db
      → Ordered r.0
  unfolding enqueue_new
  enqueue_new-Ordered job db {r} e o =
      let (authorized_job, e1) = require-inv _ credentials_changed _ e in
      let (pruned, p, e2) = >>=-eq-ok (prune clock db) _ e1 in
      let (distinct, e3) = require-inv _ duplicate_target _ e2 in
      let (queue, q, e4) =
        >>=-eq-ok (enqueue_items to_lower new_id clock targets job.items pruned) _ e3 in
      let (stored, s, e5) = >>=-eq-ok (insert_job _ queue.0) _ e4 in
      subst (λ (p : Db × AliasDeletionJob). Ordered p.0) (ok-injective _ r e5)
        (insert_job-Ordered _ queue.0 s
          (enqueue_items-Ordered job.items pruned q (prune-Ordered clock db p o)))

  pub enqueue-Ordered :
      (raw : AliasDeletionJob) (db : Db) {r : Db × AliasDeletionJob}
      → enqueue to_lower new_id clock targets raw db ≡ ok r
      → Ordered db
      → Ordered r.0
  unfolding enqueue
  enqueue-Ordered raw db {r} e o =
      let (job, n, e1) = >>=-eq-ok (normalize_job _) _ e in
      elim (Option-cases (get_job job.id job.admin_id db)) [
        | inr (existing, f) ↦
            subst (λ (p : Db × AliasDeletionJob). Ordered p.0)
              (ok-injective (db, existing) r (rw f at e1)) o
        | inl f ↦ enqueue_new-Ordered job db (rw f at e1) o
      ]
