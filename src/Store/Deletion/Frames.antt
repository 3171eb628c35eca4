-- ===== src/Store/Deletion/Frames.antt =====
-- What the shared statements leave alone: snapshots, audits and subscriptions are written without
-- touching a piece of work, the FIFO counter or an administrator.
use icloud_api_mangobubu.Base.{
  ℕ, ◌≡◌, inl, inr, refl, ◌∙◌, Bool, true, List, [], ◌∷◌, arith, Bool-cases, Option-cases, ok,
  ◌>>=◌, Result-cases, first_where,
}
use icloud_api_mangobubu.Store.Deletion.Types.{
  AliasDeletionWork, AliasDeletionJobItem, AliasDeletionJob, Db,
}
use icloud_api_mangobubu.Store.Deletion.Normalize.{normalize_job}
use icloud_api_mangobubu.Store.Deletion.Snapshot.{
  is_finished, get_job, write_snapshot, is_unaudited, audit_item, audit_loop, audit_items,
}
use icloud_api_mangobubu.Store.Deletion.Publish.{
  Identity, publish_job, publish_jobs, publish, cancel_items, cancel_job_rows, prune_jobs,
}

abbrev pub SameWorks : Db → Db → Type 0
SameWorks a b = (b.works ≡ a.works) × (b.sequence ≡ a.sequence) × (b.admins ≡ a.admins)

pub SameWorks-trans : (a b c : Db) → SameWorks a b → SameWorks b c → SameWorks a c
SameWorks-trans a b c h k = (k.0 ∙ h.0, k.1 ∙ h.1, k.2 ∙ h.2)

pub write_snapshot-SameWorks :
    (job : AliasDeletionJob) (db : Db) {next : Db}
    → write_snapshot job db ≡ ok next
    → SameWorks db next
unfolding write_snapshot
write_snapshot-SameWorks job db {next} e = elim (Result-cases (normalize_job job)) [
  | inl (clean, h) ↦ (ground arith, ground arith, ground arith)
  | inr (f, h) ↦ absurd (ground arith)
]

audit_item-SameWorks :
    (job : AliasDeletionJob) (item : AliasDeletionJobItem) (db : Db)
    → SameWorks db (audit_item job item db)
unfolding audit_item
audit_item-SameWorks job item db =
    elim (Option-cases (first_where (is_unaudited job.admin_id job.id item.id) db.job_works)) [
      | inl e ↦ rw (e, audit_item) (refl, refl, refl)
      | inr (r, e) ↦ rw (e, audit_item) (refl, refl, refl)
    ]

audit_loop-SameWorks :
    (unaudited : List ℕ) (job : AliasDeletionJob) (items : List AliasDeletionJobItem) (db : Db)
    → SameWorks db (audit_loop unaudited job items db)
unfolding audit_loop
audit_loop-SameWorks unaudited job [] db = (refl, refl, refl)
audit_loop-SameWorks unaudited job (item ∷ items) db = ground (
  arith,
  audit_loop-SameWorks unaudited job items db,
  audit_item-SameWorks job item db,
  audit_loop-SameWorks unaudited job items (audit_item job item db),
)

pub audit_items-SameWorks : (job : AliasDeletionJob) (db : Db) → SameWorks db (audit_items job db)
unfolding audit_items
audit_items-SameWorks job db = audit_loop-SameWorks _ job job.items db

-- A snapshot is written and audited.
pub snapshot-SameWorks :
    (job : AliasDeletionJob) (db : Db) {next : Db}
    → (write_snapshot job db >>= λ written. ok (audit_items job written)) ≡ ok next
    → SameWorks db next
snapshot-SameWorks job db {next} e = elim (Result-cases (write_snapshot job db)) [
  | inl (w, h) ↦ ground (arith, write_snapshot-SameWorks job db h, audit_items-SameWorks job w)
  | inr (f, h) ↦ absurd (ground arith)
]

pub publish_job-SameWorks :
    (work : AliasDeletionWork) (job : AliasDeletionJob) (db : Db) {next : Db}
    → publish_job work job db ≡ ok next
    → SameWorks db next
unfolding publish_job
publish_job-SameWorks work job db e = snapshot-SameWorks _ db e

pub publish_jobs-SameWorks :
    (work : AliasDeletionWork) (is : List Identity) (db : Db) {next : Db}
    → publish_jobs work is db ≡ ok next
    → SameWorks db next
unfolding publish_jobs
publish_jobs-SameWorks work [] db e = ground arith
publish_jobs-SameWorks work (i ∷ is) db {next} e =
    elim (Option-cases (get_job i.job_id i.admin_id db)) [
      | inl n ↦ publish_jobs-SameWorks work is db (rw (n, publish_jobs) at e)
      | inr (job, n) ↦ elim (Result-cases (publish_job work job db)) [
        | inl (m, h) ↦
            SameWorks-trans db m next (publish_job-SameWorks work job db h)
              (publish_jobs-SameWorks work is m (rw (n, publish_jobs, h) at e))
        | inr (f, h) ↦ absurd (ground arith)
      ]
    ]

pub publish-SameWorks :
    (work : AliasDeletionWork) (db : Db) {next : Db} → publish work db ≡ ok next → SameWorks db next
unfolding publish
publish-SameWorks work db {next} e = publish_jobs-SameWorks work _ _ e

pub cancel_job_rows-SameWorks :
    (clock : ℕ) (job : AliasDeletionJob) (interrupt : Bool) (db : Db) {next : Db}
    → cancel_job_rows clock job interrupt db ≡ ok next
    → SameWorks db next
unfolding cancel_job_rows
cancel_job_rows-SameWorks clock job interrupt db {next} e =
    elim (Result-cases (cancel_items db.works job.items)) [
      | inl (items, h) ↦ snapshot-SameWorks _ _ (rw (h, cancel_job_rows) at e)
      | inr (f, h) ↦ absurd (ground arith)
    ]

pub prune_jobs-SameWorks :
    (clock : ℕ) (is : List Identity) (db : Db) {next : Db}
    → prune_jobs clock is db ≡ ok next
    → SameWorks db next
unfolding prune_jobs
prune_jobs-SameWorks clock [] db e = ground arith
prune_jobs-SameWorks clock (i ∷ is) db {next} e =
    elim (Option-cases (get_job i.job_id i.admin_id db)) [
      | inl n ↦ prune_jobs-SameWorks clock is db (rw (n, prune_jobs) at e)
      | inr (job, n) ↦ elim (Bool-cases (is_finished job.status)) [
        | inl finished ↦ prune_jobs-SameWorks clock is db (rw (n, prune_jobs, finished) at e)
        | inr open_job ↦ elim (Result-cases (cancel_job_rows clock job true db)) [
          | inl (m, h) ↦
              SameWorks-trans db m next (cancel_job_rows-SameWorks clock job true db h)
                (prune_jobs-SameWorks clock is m (rw (n, prune_jobs, open_job, h) at e))
          | inr (f, h) ↦ absurd (ground arith)
        ]
      ]
    ]
