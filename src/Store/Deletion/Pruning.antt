-- ===== src/Store/Deletion/Pruning.antt =====
-- Pruning cancels work that nobody wants. It keeps the order, and a row that runs.
use icloud_api_mangobubu.Base.{
  ℕ, ◌≡◌, inl, inr, refl, sym, ◌∙◌, subst, true, false, some, List, [], ◌∷◌, arith, Bool-cases, ok,
  ok-injective, >>=-eq-ok, All, Text, text_eq, text_eq_iff, first_where, update_key, select_where,
  first_where-update_key_other, All-map, All-select_where_fit,
}
use icloud_api_mangobubu.Store.Deletion.Types.{AliasDeletionWork, JobWork, Db, is_running}
use icloud_api_mangobubu.Store.Deletion.Snapshot.{has_id}
use icloud_api_mangobubu.Store.Deletion.Publish.{
  publish, update_work, cancel_work, is_unwanted, cancel_works, cancel_unwanted, stale_jobs,
  prune_jobs, prune,
}
use icloud_api_mangobubu.Store.Deletion.Frames.{publish-SameWorks, prune_jobs-SameWorks}
use icloud_api_mangobubu.Store.Deletion.Order.{
  UniqueIds, InOrder, Stored, KeepsHeads-inactive, InOrder-update,
}
use icloud_api_mangobubu.Store.Deletion.Held.{Held-update, UniqueIds-Stored, select_where-Held}

abbrev pub Ordered : Db → Type 0
Ordered db = InOrder db.works db.sequence

-- The publication of a result leaves the order that the UPDATE before it made.
pub publish-Ordered :
    (work : AliasDeletionWork) (db : Db) {next : Db}
    → publish work db ≡ ok next
    → Ordered db
    → Ordered next
publish-Ordered work db e o = let same = publish-SameWorks work db e in rw (same.0, same.1) o

cancel_works-Ordered :
    (clock : ℕ) (ws : List AliasDeletionWork) (db : Db) {next : Db}
    → cancel_works clock ws db ≡ ok next
    → All (Stored db.works) ws
    → Ordered db
    → Ordered next
unfolding cancel_works
cancel_works-Ordered clock [] db e h o = subst Ordered (ok-injective db _ e) o
cancel_works-Ordered clock (w ∷ ws) db {next} e h o =
    let work = record (cancel_work w) { updated_at = clock } in
    let updated = update_key (has_id w.id) work db.works in
    let (mid, published, rest) = >>=-eq-ok (publish work (update_work work db)) _ e in
    let same = publish-SameWorks work (update_work work db) published in
    cancel_works-Ordered clock ws mid rest
      (rw same.0 (
        All-map (Stored db.works) (Stored updated) ws
          (λ v k. Held-update (λ _. Unit {0}) work db.works v h.0 tt k) h.1))
      (rw (same.0, same.1)
        (InOrder-update work db.works db.sequence h.0
          (KeepsHeads-inactive (has_id w.id) work db.works refl) refl o))

pub cancel_unwanted-Ordered :
    (clock : ℕ) (db : Db) {next : Db}
    → cancel_unwanted clock db ≡ ok next
    → Ordered db
    → Ordered next
unfolding cancel_unwanted
cancel_unwanted-Ordered clock db e o =
    cancel_works-Ordered clock _ db e
      (select_where-Held (λ _. Unit {0}) (is_unwanted db.job_works) db.works o.unique (λ w k. tt)) o

pub prune-Ordered :
    (clock : ℕ) (db : Db) {next : Db} → prune clock db ≡ ok next → Ordered db → Ordered next
unfolding prune
prune-Ordered clock db e o =
    let (mid, pruned, rest) = >>=-eq-ok (prune_jobs clock (stale_jobs db db.metadata) db) _ e in
    let same = prune_jobs-SameWorks clock (stale_jobs db db.metadata) db pruned in
    cancel_unwanted-Ordered clock mid rest (rw (same.0, same.1) o)

cancel_works-kept :
    (clock : ℕ) (id : Text) (ws : List AliasDeletionWork) (db : Db) {next : Db}
    {current : AliasDeletionWork}
    → cancel_works clock ws db ≡ ok next
    → All (λ w. text_eq w.id id ≡ false) ws
    → first_where (has_id id) db.works ≡ some current
    → first_where (has_id id) next.works ≡ some current
unfolding cancel_works
cancel_works-kept clock id [] db {current} e h f =
    subst (λ (d : Db). first_where (has_id id) d.works ≡ some current) (ok-injective db _ e) f
cancel_works-kept clock id (w ∷ ws) db e h f =
    let work = record (cancel_work w) { updated_at = clock } in
    let (mid, published, rest) = >>=-eq-ok (publish work (update_work work db)) _ e in
    let same = publish-SameWorks work (update_work work db) published in
    cancel_works-kept clock id ws mid rest h.1 (
      rw same.0 (
        first_where-update_key_other (has_id w.id) (has_id id) work db.works
          (λ r k.
            ground (arith, text_eq_iff r.id w.id, text_eq_iff r.id id, text_eq_iff w.id id, h.0))
          h.0
        ∙ f))

-- A row that no set of subscriptions lets be cancelled.
abbrev pub Safe : AliasDeletionWork → Type 0
Safe w = (rows : List JobWork) → is_unwanted rows w ≡ false

-- What is cancelled is another row than a safe one.
other_id :
    (current w : AliasDeletionWork) (rows : List JobWork) (id : Text)
    (works : List AliasDeletionWork)
    → first_where (has_id id) works ≡ some current
    → Safe current
    → first_where (has_id w.id) works ≡ some w
    → is_unwanted rows w ≡ true
    → text_eq w.id id ≡ false
other_id current w rows id works f safe g idle = elim (Bool-cases (text_eq w.id id)) [
  | inl e ↦
      let one =
        subst (λ (t : Text). first_where (has_id t) works ≡ some w) ((text_eq_iff w.id id).0 e) g in
      absurd (clash (some-eq current w (sym f ∙ one)))
  | inr e ↦ e
]
  where
    some-eq : (a b : AliasDeletionWork) → some a ≡ some b → a ≡ b
    some-eq a b e = cc

    clash : current ≡ w → ⊥
    clash e =
        let kept = subst (λ (x : AliasDeletionWork). is_unwanted rows x ≡ false) e (safe rows) in
        ground arith

-- Pruning leaves a safe row as it is.
pub prune-Safe :
    (clock : ℕ) (id : Text) (db : Db) {next : Db} {current : AliasDeletionWork}
    → prune clock db ≡ ok next
    → UniqueIds db.works
    → first_where (has_id id) db.works ≡ some current
    → Safe current
    → first_where (has_id id) next.works ≡ some current
unfolding prune cancel_unwanted
prune-Safe clock id db {current} e u f runs =
    let (mid, pruned, rest) = >>=-eq-ok (prune_jobs clock (stale_jobs db db.metadata) db) _ e in
    let same = prune_jobs-SameWorks clock (stale_jobs db db.metadata) db pruned in
    cancel_works-kept clock id _ mid rest
      (rw same.0 (
        All-map
          (λ w.
            (first_where (has_id w.id) db.works ≡ some w) × (is_unwanted mid.job_works w ≡ true))
          (λ w. text_eq w.id id ≡ false) (select_where (is_unwanted mid.job_works) db.works)
          (λ w k. other_id current w mid.job_works id db.works f runs k.0 k.1)
          (All-select_where_fit (λ w. first_where (has_id w.id) db.works ≡ some w)
            (is_unwanted mid.job_works) db.works (UniqueIds-Stored db.works u))))
      (rw same.0 f)

pub running-Safe : (w : AliasDeletionWork) → is_running w.status ≡ true → Safe w
running-Safe w h rows = ground arith

pub prune-running :
    (clock : ℕ) (id : Text) (db : Db) {next : Db} {current : AliasDeletionWork}
    → prune clock db ≡ ok next
    → UniqueIds db.works
    → first_where (has_id id) db.works ≡ some current
    → is_running current.status ≡ true
    → first_where (has_id id) next.works ≡ some current
prune-running clock id db {current} e u f runs =
    prune-Safe clock id db e u f (running-Safe current runs)
