-- ===== src/Store/Deletion/Recovery.antt =====
-- A restart: work that was in flight is taken up again, to be reconciled first.
use icloud_api_mangobubu.Store.Deletion.Claims.{update-found}
use icloud_api_mangobubu.Store.Deletion.Frames.{publish-SameWorks}
use icloud_api_mangobubu.Store.Deletion.Publish.{publish, update_work}
use icloud_api_mangobubu.Store.Deletion.Order.{UniqueIds}
use icloud_api_mangobubu.Store.Deletion.Pruning.{Ordered, prune-Safe}
use icloud_api_mangobubu.Store.Deletion.Snapshot.{has_id}
use icloud_api_mangobubu.Store.Deletion.Queue.{recovered, recover_works, recover}
use icloud_api_mangobubu.Store.Deletion.Types.{pending, AliasDeletionWork, Db, is_running}
use icloud_api_mangobubu.Base.{
  ℕ, ◌≡◌, inl, inr, refl, ◌∙◌, subst, Bool, true, none, some, List, [], ◌∷◌, arith, Bool-cases, ok,
  ok-injective, >>=-eq-ok, Text, codes, text_eq, text_eq_iff, first_where, select_where,
  first_where-update_key_other,
}
use icloud_api_mangobubu.Store.Deletion.Fifo.{resumed-Ordered}

recover_works-kept :
    (clock : ℕ) (id : Text) (ws : List AliasDeletionWork) (db : Db) {next : Db}
    {current : AliasDeletionWork}
    → recover_works clock ws db ≡ ok next
    → first_where (has_id id) ws ≡ none
    → first_where (has_id id) db.works ≡ some current
    → first_where (has_id id) next.works ≡ some current
unfolding recover_works first_where
recover_works-kept clock id [] db {current} e h f =
    subst (λ (d : Db). first_where (has_id id) d.works ≡ some current) (ok-injective db _ e) f
recover_works-kept clock id (w ∷ ws) db e h f =
    let work = recovered clock w in
    let (mid, published, rest) = >>=-eq-ok (publish work (update_work work db)) _ e in
    let same = publish-SameWorks work (update_work work db) published in
    recover_works-kept clock id ws mid rest (ground arith) (
      rw same.0 (
        first_where-update_key_other (has_id w.id) (has_id id) work db.works
          (λ r k. ground (arith, text_eq_iff r.id w.id, text_eq_iff r.id id, text_eq_iff w.id id))
          (ground arith)
        ∙ f))

-- The turn of a row comes once.
recover_works-row :
    (clock : ℕ) (id : Text) (ws : List AliasDeletionWork) (db : Db) {next : Db}
    {w : AliasDeletionWork}
    → recover_works clock ws db ≡ ok next
    → UniqueIds ws
    → first_where (has_id id) ws ≡ some w
    → first_where (has_id id) db.works ≡ some w
    → first_where (has_id id) next.works ≡ some (recovered clock w)
unfolding recover_works first_where
recover_works-row clock id [] db e u g f = absurd (ground arith)
recover_works-row clock id (v ∷ ws) db {next} {w} e u g f =
    let work = recovered clock v in
    let (mid, published, rest) = >>=-eq-ok (publish work (update_work work db)) _ e in
    let same = publish-SameWorks work (update_work work db) published in
    elim (Bool-cases (text_eq v.id id)) [
      | inl k ↦
          let same_id = (text_eq_iff v.id id).0 k in
          let row : v ≡ w = ground arith in
          let updated = update-found id work w db.works same_id f in
          subst
            (λ (x : AliasDeletionWork).
              first_where (has_id id) next.works ≡ some (recovered clock x))
            row
            (recover_works-kept clock id ws mid rest
              (subst (λ (t : Text). first_where (has_id t) ws ≡ none) same_id u.0)
              (rw same.0 updated))
      | inr k ↦ recover_works-row clock id ws mid {w = w} rest u.1 (ground arith) (
          rw same.0 (
            first_where-update_key_other (has_id v.id) (has_id id) work db.works
              (λ r h.
                ground (arith, text_eq_iff r.id v.id, text_eq_iff r.id id, text_eq_iff v.id id))
              k
            ∙ f))
    ]

first_where-select_none :
    (key p : AliasDeletionWork → Bool) (works : List AliasDeletionWork)
    → first_where key works ≡ none
    → first_where key (select_where p works) ≡ none
unfolding first_where select_where
first_where-select_none key p [] e = refl
first_where-select_none key p (w ∷ ws) e = ground (arith, first_where-select_none key p ws)

UniqueIds-select_where :
    (p : AliasDeletionWork → Bool) (works : List AliasDeletionWork)
    → UniqueIds works
    → UniqueIds (select_where p works)
unfolding select_where
UniqueIds-select_where p [] u = tt
UniqueIds-select_where p (w ∷ ws) u = elim (Bool-cases (p w)) [
  | inl e ↦ rw e (first_where-select_none (has_id w.id) p ws u.0, UniqueIds-select_where p ws u.1)
  | inr e ↦ rw e (UniqueIds-select_where p ws u.1)
]

first_where-select_fit :
    (key p : AliasDeletionWork → Bool) (works : List AliasDeletionWork) {w : AliasDeletionWork}
    → first_where key works ≡ some w
    → p w ≡ true
    → first_where key (select_where p works) ≡ some w
unfolding first_where select_where
first_where-select_fit key p [] e h = absurd (ground arith)
first_where-select_fit key p (v ∷ ws) {w} e h =
    ground (arith, first_where-select_fit key p ws {w = w})

-- Where the work table is in order (`Ordered`, as after any calls): after a restart, every piece of
-- work that was running is pending again with no claim, is due at once and is marked for
-- reconciliation, with its place, its attempts and all else as they were; pruning does not cancel
-- it, also when nobody wants it any more.
pub recover_in_flight :
    (clock : ℕ) (id : Text) (db next : Db) (w : AliasDeletionWork)
    → Ordered db
    → recover clock db ≡ ok next
    → first_where (has_id id) db.works ≡ some w
    → is_running w.status ≡ true
    → first_where (has_id id) next.works
      ≡ some (record w {
        status = pending;
        claim_token = [];
        reconcile = true;
        next_run_at = 0;
        wait_reason = codes "reconcile";
        updated_at = clock;
      })
unfolding recover
recover_in_flight clock id db next w o e f runs =
    let in_flight = λ (v : AliasDeletionWork). is_running v.status in
    let (resumed, r, rest) = >>=-eq-ok (recover_works clock _ _) _ e in
    let row =
      recover_works-row clock id _ _ r (UniqueIds-select_where in_flight db.works o.unique)
        (first_where-select_fit (has_id id) in_flight db.works f runs) f in
    prune-Safe clock id resumed rest (resumed-Ordered clock _ db r o).unique row (λ rows. refl)
