-- ===== src/Store/Deletion/Cancelling.antt =====
-- What the cancellation of a job leaves of it (`cancelDeletionJobTx` of
-- internal/store/alias_deletion_queue.go).
use icloud_api_mangobubu.Base.{
  ℕ, ◌≡◌, ◌⊎◌, inl, inr, refl, sym, ◌∙◌, subst, Bool, true, false, ◌||◌, some, List, [], ◌∷◌, arith,
  Bool-cases, if-eq_true, if-eq_false, if◌then◌else◌, ok, ◌>>=◌, or_fail, ok-injective, or_fail-inv,
  >>=-eq-ok, Text, first_where,
}
use icloud_api_mangobubu.Store.Deletion.Types.{
  cancelled, interrupted, AliasDeletionWork, AliasDeletionJobItem, AliasDeletionJob, Db, no_rows,
  is_running,
}
use icloud_api_mangobubu.Store.Deletion.Normalize.{normalize_items, normalize_items-inv}
use icloud_api_mangobubu.Store.Deletion.Snapshot.{has_id, is_empty, get_job, write_snapshot}
use icloud_api_mangobubu.Store.Deletion.Stored.{job_row, snapshot-stored}
use icloud_api_mangobubu.Store.Deletion.Publish.{cancel_item, cancel_items, cancel_job_rows}

-- Two lists of one length, whose elements are related in their order.
abbrev pub Matches {ℓ} : {A : Type ℓ} → (A → A → Type 0) → List A → List A → Type 0
Matches R [] [] = Unit {0}
Matches R [] (y ∷ ys) = ⊥
Matches R (x ∷ xs) [] = ⊥
Matches R (x ∷ xs) (y ∷ ys) = R x y × Matches R xs ys

-- An item that a cancellation leaves as it is.
abbrev pub IsKept : AliasDeletionJobItem → AliasDeletionJobItem → Type 0
IsKept item out =
    (out.done ≡ item.done)
    × (out.deleted ≡ item.deleted)
    × (out.state ≡ item.state)
    × (out.local_retained ≡ item.local_retained)
    × (out.retry_at ≡ item.retry_at)
    × (out.wait_reason ≡ item.wait_reason)

-- An item that a cancellation ends: nothing was deleted, and the local record stays.
abbrev pub IsDropped : AliasDeletionJobItem → Type 0
IsDropped out =
    (out.done ≡ true)
    × (out.deleted ≡ false)
    × (out.state ≡ some cancelled)
    × (out.local_retained ≡ true)
    × (out.retry_at ≡ 0)
    × (out.wait_reason ≡ [])

-- What a cancellation makes of one item. An item that is done, or has no work, is kept; so is one
-- whose work runs or is in doubt, for its worker to end; every other is ended.
abbrev pub IsCancelled :
    List AliasDeletionWork → AliasDeletionJobItem → AliasDeletionJobItem → Type 0
IsCancelled works item out =
    (out.id ≡ item.id)
    × (out.work_id ≡ item.work_id)
    × (out.apple_subject ≡ item.apple_subject)
    × (((item.done ≡ true) × IsKept item out)
        ⊎ (((item.work_id ≡ []) × IsKept item out)
            ⊎ ((w : AliasDeletionWork) × (item.done ≡ false)
                × (first_where (has_id item.work_id) works ≡ some w)
                × (((is_running w.status ≡ true) × IsKept item out)
                    ⊎ (((w.reconcile ≡ true) × IsKept item out)
                        ⊎ ((is_running w.status ≡ false)
                            × (w.reconcile ≡ false)
                            × IsDropped out))))))

is_empty-nil : (s : Text) → is_empty s ≡ true → s ≡ []
is_empty-nil [] h = refl
is_empty-nil (c ∷ cs) h = absurd (ground arith)

kept : (item : AliasDeletionJobItem) → IsKept item item
kept item = (refl, refl, refl, refl, refl, refl)

kept_item :
    (works : List AliasDeletionWork) (item : AliasDeletionJobItem)
    → item.done || is_empty item.work_id ≡ true
    → IsCancelled works item item
kept_item works item skip = elim (Bool-cases item.done) [
  | inl d ↦ (refl, refl, refl, inl (d, kept item))
  | inr d ↦ (refl, refl, refl, inr (inl (is_empty-nil item.work_id (ground arith), kept item)))
]

live_item :
    (works : List AliasDeletionWork) (item : AliasDeletionJobItem) (w : AliasDeletionWork)
    → first_where (has_id item.work_id) works ≡ some w
    → item.done ≡ false
    → IsCancelled works item (cancel_item item w)
live_item works item w found d = elim (Bool-cases (is_running w.status)) [
  | inl runs ↦ rw runs (refl, refl, refl, inr (inr (w, d, found, inl (runs, kept item))))
  | inr stands ↦ elim (Bool-cases w.reconcile) [
    | inl doubt ↦
        rw (stands, doubt) (refl, refl, refl, inr (inr (w, d, found, inr (inl (doubt, kept item)))))
    | inr sure ↦
        rw (stands, sure)
          (
            refl,
            refl,
            refl,
            inr (inr (w, d, found, inr (inr (stands, sure, (refl, refl, refl, refl, refl, refl))))),
          )
  ]
]

-- What the loop leaves of an item, before its texts are normalized.
one_item :
    (works : List AliasDeletionWork) (item out : AliasDeletionJobItem)
    → (if item.done || is_empty item.work_id
        then ok item
        else or_fail (first_where (has_id item.work_id) works) no_rows >>= λ w.
            ok (cancel_item item w))
      ≡ ok out
    → IsCancelled works item out
one_item works item out e = elim (Bool-cases (item.done || is_empty item.work_id)) [
  | inl skip ↦
      subst (IsCancelled works item) (ok-injective item out (sym (if-eq_true _ _ _ skip) ∙ e))
        (kept_item works item skip)
  | inr live ↦
      let (w, found, e1) =
        or_fail-inv (first_where (has_id item.work_id) works) no_rows _
          (sym (if-eq_false _ _ _ live) ∙ e) in
      subst (IsCancelled works item) (ok-injective (cancel_item item w) out e1)
        (live_item works item w found (ground arith))
]

items-IsCancelled :
    (works : List AliasDeletionWork) (seen : List ℕ) (items mid out : List AliasDeletionJobItem)
    → cancel_items works items ≡ ok mid
    → normalize_items seen mid ≡ ok out
    → Matches (IsCancelled works) items out
unfolding cancel_items normalize_items
items-IsCancelled works seen [] mid out e n =
    subst (Matches (IsCancelled works) [])
      (ok-injective [] out (
        subst (λ (m : List AliasDeletionJobItem). normalize_items seen m ≡ ok out)
          (sym (ok-injective [] mid e)) n))
      tt
items-IsCancelled works seen (item ∷ items) mid out e n =
    let (first, f, e1) = >>=-eq-ok _ _ e in
    let (later, g, e2) = >>=-eq-ok (cancel_items works items) _ e1 in
    let (rest, r, is) = normalize_items-inv seen first later out (
      subst (λ (m : List AliasDeletionJobItem). normalize_items seen m ≡ ok out)
        (sym (ok-injective (first ∷ later) mid e2)) n) in
    subst (Matches (IsCancelled works) (item ∷ items)) (sym is)
      (one_item works item first f, items-IsCancelled works (first.id ∷ seen) items later rest g r)

-- A cancellation of a stored job leaves it stored, with its items in their order: an item that is
-- done or has no work is kept, so is one whose work runs or is in doubt, and every other is ended
-- as cancelled. An interruption sets its status.
pub cancel_job_rows-IsCancelled :
    (clock : ℕ) (job : AliasDeletionJob) (interrupt : Bool) (db next : Db)
    → get_job job.id job.admin_id db ≡ some job
    → cancel_job_rows clock job interrupt db ≡ ok next
    → (stored : AliasDeletionJob) × (get_job job.id job.admin_id next ≡ some stored)
      × Matches (IsCancelled db.works) job.items stored.items
      × (stored.updated_at ≡ clock)
      × ((interrupt ≡ false) ⊎ (stored.status ≡ interrupted))
unfolding cancel_job_rows
cancel_job_rows-IsCancelled clock job interrupt db next f e =
    let (items, c, e1) = >>=-eq-ok (cancel_items db.works job.items) _ e in
    let (written, w, e2) = >>=-eq-ok (write_snapshot _ _) _ e1 in
    let (r, there) = job_row job.id job.admin_id db job f in
    let (stored, g, n, time, status) = snapshot-stored _ _ written r there w in
    (
      stored,
      subst (λ (d : Db). get_job job.id job.admin_id d ≡ some stored) (ok-injective _ next e2) g,
      items-IsCancelled db.works [] job.items items stored.items c n,
      time,
      elim (Bool-cases interrupt) [
        | inl on ↦ inr (status ∙ if-eq_true _ _ _ on)
        | inr off ↦ inl off
      ],
    )
