-- ===== src/Store/Deletion/Fifo.antt =====
-- Every transaction of the queue keeps its order: work of one Apple identity runs one piece at a
-- time, in the order of the requests.
use icloud_api_mangobubu.Base.{
  ℕ, ◌≡◌, inl, inr, refl, sym, subst, Bool, true, false, not, ◌&&◌, Option, none, some, List, [],
  ◌∷◌, arith, ltb, ◌==◌, Bool-cases, Option-cases, is_some, ok, ok-injective, require-inv,
  or_fail-inv, >>=-eq-ok, All, Text, text_eq, text_eq_iff, text_eq_refl, first_where, update_key,
  select_where, first_where-key, All-map, All-first_where,
}
use icloud_api_mangobubu.Store.Deletion.Types.{
  AliasDeletionWork, AliasDeletionJob, JobRow, Db, not_found, conflict, invalid_status, is_terminal,
  is_active, is_running,
}
use icloud_api_mangobubu.Store.Deletion.Snapshot.{has_id, is_finished, get_job}
use icloud_api_mangobubu.Store.Deletion.Publish.{
  publish, update_work, cancel_unwanted, cancel_job_rows, prune, wanted,
}
use icloud_api_mangobubu.Store.Deletion.Queue.{
  is_head, list_heads, claimed, claimable, claim, is_valid_status, saved, holds_claim, save, cancel,
  work_wanted, recovered, recover_works, recover,
}
use icloud_api_mangobubu.Store.Deletion.Frames.{publish-SameWorks, cancel_job_rows-SameWorks}
use icloud_api_mangobubu.Store.Deletion.Order.{
  head_if_running, UniqueIds, InOrder, Stored, StoredActive, KeepsHeads-active, InOrder-update,
}
use icloud_api_mangobubu.Store.Deletion.Held.{Held-update, select_where-Held}
use icloud_api_mangobubu.Store.Deletion.Pruning.{
  Ordered, publish-Ordered, prune-Ordered, prune-running, cancel_unwanted-Ordered,
}

pub list_heads-Ordered :
    (clock now : ℕ) (db : Db) {r : Db × List AliasDeletionWork}
    → list_heads clock now db ≡ ok r
    → Ordered db
    → Ordered r.0
unfolding list_heads
list_heads-Ordered clock now db {r} e o =
    let (mid, pruned, rest) = >>=-eq-ok (prune clock db) _ e in
    subst (λ (p : Db × List AliasDeletionWork). Ordered p.0) (ok-injective _ r rest)
      (prune-Ordered clock db pruned o)

pub work_wanted-Ordered :
    (clock : ℕ) (id : Text) (db : Db) {r : Db × Bool}
    → work_wanted clock id db ≡ ok r
    → Ordered db
    → Ordered r.0
unfolding work_wanted
work_wanted-Ordered clock id db {r} e o =
    let (mid, pruned, rest) = >>=-eq-ok (prune clock db) _ e in
    subst (λ (p : Db × Bool). Ordered p.0) (ok-injective _ r rest) (prune-Ordered clock db pruned o)

-- Of a row that is due, the table holds the same row under its ID.
pub claimable-found :
    (id : Text) (now : ℕ) (works rows : List AliasDeletionWork) {w : AliasDeletionWork}
    → UniqueIds rows
    → first_where (claimable id now works) rows ≡ some w
    → first_where (has_id w.id) rows ≡ some w
unfolding first_where
claimable-found id now works [] u e = absurd (ground arith)
claimable-found id now works (r ∷ rs) {w} u e = elim (Bool-cases (claimable id now works r)) [
  | inl k ↦ ground (arith, text_eq_refl r.id)
  | inr k ↦
      let found = claimable-found id now works rs {w = w} u.1 (ground arith) in
      let clash =
        λ (e : r.id ≡ w.id). subst (λ (t : Text). first_where (has_id t) rs ≡ none) e u.0 in
      elim (Bool-cases (text_eq r.id w.id)) [
        | inl same ↦ absurd (ground (arith, clash ((text_eq_iff r.id w.id).0 same)))
        | inr apart ↦ rw apart found
      ]
]

-- A claim lets the first active work of its Apple identity run.
claimed-InOrder :
    (token : Text) (now : ℕ) (id : Text) (works : List AliasDeletionWork) (sequence : ℕ)
    (w : AliasDeletionWork)
    → first_where (claimable id now works) works ≡ some w
    → InOrder works sequence
    → InOrder (update_key (has_id w.id) (claimed token now w) works) sequence
claimed-InOrder token now id works sequence w n o =
    let new = claimed token now w in
    let found = claimable-found id now works works o.unique n in
    let fit = first_where-key (claimable id now works) works n in
    let keeps = KeepsHeads-active (has_id w.id) new w works found refl refl (ground arith) in
    InOrder-update new works sequence (w, found, refl, refl, tt) keeps (keeps w (ground arith)) o

pub claim-Ordered :
    (token : Text) (clock now : ℕ) (id : Text) (db : Db) {r : Db × Option AliasDeletionWork}
    → claim token clock now id db ≡ ok r
    → Ordered db
    → Ordered r.0
unfolding claim
claim-Ordered token clock now id db {r} e o =
    let (mid, pruned, rest) = >>=-eq-ok (prune clock db) _ e in
    let mid_ordered = prune-Ordered clock db pruned o in
    elim (Option-cases (first_where (claimable id now mid.works) mid.works)) [
      | inl n ↦
          subst (λ (p : Db × Option AliasDeletionWork). Ordered p.0)
            (ok-injective (mid, none) r (rw n at rest)) mid_ordered
      | inr (w, n) ↦
          let work = claimed token now w in
          let (published, is, tail) =
            >>=-eq-ok (publish work (update_work work mid)) (λ p. ok (p, some work))
              (rw n at rest) in
          subst (λ (p : Db × Option AliasDeletionWork). Ordered p.0)
            (ok-injective (published, some work) r tail)
            (publish-Ordered work (update_work work mid) is
              (claimed-InOrder token now id mid.works mid.sequence w n mid_ordered))
    ]

-- A save takes nothing of a row's identity or order from the worker's result.
pub saved-identity :
    (clock : ℕ) (is_wanted : Bool) (current work : AliasDeletionWork)
    → let new = saved clock is_wanted current work in
      (new.id ≡ work.id)
      × (new.sequence ≡ current.sequence)
      × (new.apple_subject ≡ current.apple_subject)
      × (new.address ≡ current.address)
      × (new.account_id ≡ current.account_id)
      × (new.alias_id ≡ current.alias_id)
      × (new.created_at ≡ current.created_at)
      × (new.attempts ≡ current.attempts)
unfolding saved
saved-identity clock is_wanted current work =
    elim (Bool-cases (not is_wanted && not (is_terminal work.status) && not work.reconcile)) [
      | inl e ↦ rw e (refl, refl, refl, refl, refl, refl, refl, refl)
      | inr e ↦ rw e (refl, refl, refl, refl, refl, refl, refl, refl)
    ]

-- A turn depends on the place and the identity alone.
is_head-cong :
    (works : List AliasDeletionWork) (v w : AliasDeletionWork)
    → v.sequence ≡ w.sequence
    → v.apple_subject ≡ w.apple_subject
    → is_head works v ≡ true
    → is_head works w ≡ true
is_head-cong works v w e g h =
    subst (λ (n : ℕ). head_at w.apple_subject n ≡ true) e
      (subst (λ (t : Text). head_at t v.sequence ≡ true) g h)
  where
    head_at : Text → ℕ → Bool
    head_at t n = not (
        is_some (
          first_where (λ x. text_eq x.apple_subject t && ltb x.sequence n && is_active x.status)
            works))

-- What a save writes over the running row that holds the claim.
running-InOrder :
    (current new : AliasDeletionWork) (works : List AliasDeletionWork) (sequence : ℕ)
    → first_where (has_id new.id) works ≡ some current
    → current.sequence ≡ new.sequence
    → current.apple_subject ≡ new.apple_subject
    → is_running current.status ≡ true
    → InOrder works sequence
    → InOrder (update_key (has_id new.id) new works) sequence
running-InOrder current new works sequence found e g runs o =
    let keeps = KeepsHeads-active (has_id new.id) new current works found e g (ground arith) in
    let turn =
      All-first_where (λ w. head_if_running works w ≡ true) (has_id new.id) works found o.heads in
    let head = keeps current (ground arith) in
    InOrder-update new works sequence (current, found, e, g, tt) keeps
      (ground (arith, is_head-cong (update_key (has_id new.id) new works) current new e g head)) o

-- What a save that succeeds went through.
pub save-inv :
    (clock : ℕ) (work : AliasDeletionWork) (db : Db) {next : Db}
    → save clock work db ≡ ok next
    → (current : AliasDeletionWork) × (pruned : Db) × (first_where (has_id work.id) db.works
        ≡ some current)
      × (holds_claim current work ≡ true)
      × (prune clock db ≡ ok pruned)
      × (let new = saved clock (wanted work.id pruned) current work in
          publish new (update_work new pruned) ≡ ok next)
unfolding save
save-inv clock work db {next} e =
    let (valid, e1) = require-inv (is_valid_status work.status) invalid_status _ e in
    let (current, n, e2) = or_fail-inv (first_where (has_id work.id) db.works) not_found _ e1 in
    let (h, e3) = require-inv (holds_claim current work) conflict _ e2 in
    let (pruned, p, rest) = >>=-eq-ok (prune clock db) _ e3 in (current, pruned, n, h, p, rest)

pub save-Ordered :
    (clock : ℕ) (work : AliasDeletionWork) (db : Db) {next : Db}
    → save clock work db ≡ ok next
    → Ordered db
    → Ordered next
save-Ordered clock work db {next} e o =
    let (current, pruned, n, h, p, rest) = save-inv clock work db e in
    let new = saved clock (wanted work.id pruned) current work in
    let same = saved-identity clock (wanted work.id pruned) current work in
    publish-Ordered new (update_work new pruned) rest (
      running-InOrder current new pruned.works pruned.sequence
        (subst (λ (t : Text). first_where (has_id t) pruned.works ≡ some current) (sym same.0)
          (prune-running clock work.id db p o.unique n (ground arith)))
        (sym same.1) (sym same.2) (ground arith) (prune-Ordered clock db p o))

pub cancel-Ordered :
    (clock : ℕ) (id : Text) (admin : ℕ) (db : Db) {r : Db × AliasDeletionJob}
    → cancel clock id admin db ≡ ok r
    → Ordered db
    → Ordered r.0
unfolding cancel
cancel-Ordered clock id admin db {r} e o =
    let (job, n, e1) = or_fail-inv (get_job id admin db) not_found _ e in
    elim (Bool-cases (job.queue_version == 1 && not (is_finished job.status))) [
      | inl live ↦
          let (marked, m, e2) = >>=-eq-ok (cancel_job_rows clock job false db) _ (rw live at e1) in
          let (settled, c, e3) = >>=-eq-ok (cancel_unwanted clock marked) _ e2 in
          let (last, k, e4) = or_fail-inv (get_job id admin settled) not_found _ e3 in
          let same = cancel_job_rows-SameWorks clock job false db m in
          subst (λ (p : Db × AliasDeletionJob). Ordered p.0) (ok-injective (settled, last) r e4)
            (cancel_unwanted-Ordered clock marked c (rw (same.0, same.1) o))
      | inr over ↦
          subst (λ (p : Db × AliasDeletionJob). Ordered p.0)
            (ok-injective (db, job) r (rw over at e1)) o
    ]

recover_works-Ordered :
    (clock : ℕ) (ws : List AliasDeletionWork) (db : Db) {next : Db}
    → recover_works clock ws db ≡ ok next
    → All (StoredActive db.works) ws
    → Ordered db
    → Ordered next
unfolding recover_works
recover_works-Ordered clock [] db e h o = subst Ordered (ok-injective db _ e) o
recover_works-Ordered clock (w ∷ ws) db {next} e h o =
    let (old, f, same_place, same_subject, active) = h.0 in
    let work = recovered clock w in
    let (mid, published, rest) = >>=-eq-ok (publish work (update_work work db)) _ e in
    let same = publish-SameWorks work (update_work work db) published in
    let stored : Stored db.works work = (old, f, same_place, same_subject, tt) in
    recover_works-Ordered clock ws mid rest
      (rw same.0 (
        All-map (StoredActive db.works) (StoredActive (update_key (has_id w.id) work db.works)) ws
          (λ v k. Held-update (λ x. is_active x.status ≡ true) work db.works v stored refl k) h.1))
      (rw (same.0, same.1)
        (InOrder-update work db.works db.sequence stored
          (KeepsHeads-active (has_id w.id) work old db.works f same_place same_subject active) refl
          o))

pub resumed-Ordered :
    (clock : ℕ) (jobs : List JobRow) (db : Db) {resumed : Db}
    → recover_works clock
        (select_where (λ w. is_running w.status) db.works)
        (record db { jobs = jobs })
      ≡ ok resumed
    → Ordered db
    → Ordered resumed
resumed-Ordered clock jobs db e o =
    recover_works-Ordered clock _ _ e
      (select_where-Held (λ x. is_active x.status ≡ true) (λ w. is_running w.status) db.works
        o.unique (λ w k. ground arith))
      o

pub recover-Ordered :
    (clock : ℕ) (db : Db) {next : Db} → recover clock db ≡ ok next → Ordered db → Ordered next
unfolding recover
recover-Ordered clock db {next} e o =
    let (resumed, r, rest) = >>=-eq-ok (recover_works clock _ _) _ e in
    prune-Ordered clock resumed rest (resumed-Ordered clock _ db r o)
