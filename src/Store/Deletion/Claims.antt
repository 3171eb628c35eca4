-- ===== src/Store/Deletion/Claims.antt =====
-- Who may write a result: a claim is given once, and a late worker is turned away.
use icloud_api_mangobubu.Store.Deletion.Frames.{publish-SameWorks}
use icloud_api_mangobubu.Store.Deletion.Publish.{publish, update_work, prune, wanted}
use icloud_api_mangobubu.Store.Deletion.Pruning.{Ordered, prune-Ordered, prune-running}
use icloud_api_mangobubu.Store.Deletion.Snapshot.{has_id}
use icloud_api_mangobubu.Store.Deletion.Queue.{
  claimed, claimable, claim, is_valid_status, saved, save,
}
use icloud_api_mangobubu.Store.Deletion.Types.{
  cancelled, AliasDeletionWork, Db, conflict, is_terminal, is_idle, is_running,
}
use icloud_api_mangobubu.Base.{
  ℕ, ◌≡◌, ◌≢◌, ◌⊎◌, inl, inr, refl, sym, ap, ◌∙◌, subst, Bool, true, false, not, ◌&&◌, Option, none,
  some, List, arith, Bool-cases, Option-cases, Result, ok, err, ok-injective, >>=-eq-ok, Text,
  text_eq_iff, text_eq_refl, first_where, update_key, first_where-update_key_self, first_where-key,
}
use icloud_api_mangobubu.Store.Deletion.Fifo.{
  claim-Ordered, save-inv, saved-identity, claimable-found,
}

pub update-found :
    (id : Text) (new old : AliasDeletionWork) (works : List AliasDeletionWork)
    → new.id ≡ id
    → first_where (has_id id) works ≡ some old
    → first_where (has_id id) (update_key (has_id new.id) new works) ≡ some new
update-found id new old works e f =
    let f' = subst (λ (t : Text). first_where (has_id t) works ≡ some old) (sym e) f in
    subst (λ (t : Text). first_where (has_id t) (update_key (has_id new.id) new works) ≡ some new) e
      (first_where-update_key_self (has_id new.id) new works f' (text_eq_refl new.id))

saved-status :
    (clock : ℕ) (is_wanted : Bool) (current work : AliasDeletionWork)
    → let new = saved clock is_wanted current work in
      (new.status ≡ work.status) ⊎ (new.status ≡ cancelled)
unfolding saved
saved-status clock is_wanted current work =
    elim (Bool-cases (not is_wanted && not (is_terminal work.status) && not work.reconcile)) [
      | inl e ↦ inr (rw e)
      | inr e ↦ inl (rw e)
    ]

-- Where the work table is in order (`Ordered`, as after any calls): a save that succeeds comes from
-- the worker that holds the claim on a running row. It writes that row with the worker's status, or
-- as cancelled, and takes the row's identity, order and count of attempts from what was stored.
pub save_fenced :
    (clock : ℕ) (work : AliasDeletionWork) (db next : Db)
    → Ordered db
    → save clock work db ≡ ok next
    → (current new : AliasDeletionWork) × (first_where (has_id work.id) db.works ≡ some current)
      × (is_running current.status ≡ true)
      × (current.claim_token ≡ work.claim_token)
      × (first_where (has_id work.id) next.works ≡ some new)
      × ((new.status ≡ work.status) ⊎ (new.status ≡ cancelled))
      × (new.sequence ≡ current.sequence)
      × (new.apple_subject ≡ current.apple_subject)
      × (new.address ≡ current.address)
      × (new.account_id ≡ current.account_id)
      × (new.alias_id ≡ current.alias_id)
      × (new.attempts ≡ current.attempts)
save_fenced clock work db next o e =
    let (current, pruned, n, h, p, rest) = save-inv clock work db e in
    let new = saved clock (wanted work.id pruned) current work in
    let (same_id, place, subject, address, account, alias, created, attempts) =
      saved-identity clock (wanted work.id pruned) current work in
    let stays = prune-running clock work.id db p o.unique n (ground arith) in
    let same = publish-SameWorks new (update_work new pruned) rest in
    (
      current,
      new,
      n,
      ground arith,
      ground (arith, text_eq_iff current.claim_token work.claim_token),
      rw same.0 (update-found work.id new current pruned.works same_id stays),
      saved-status clock (wanted work.id pruned) current work,
      place,
      subject,
      address,
      account,
      alias,
      attempts,
    )

-- A save of a valid status for work that is not running, or runs under another claim, is a
-- conflict.
pub save_stale :
    (clock : ℕ) (work : AliasDeletionWork) (db : Db) (current : AliasDeletionWork)
    → is_valid_status work.status ≡ true
    → first_where (has_id work.id) db.works ≡ some current
    → (is_running current.status ≡ false) ⊎ (current.claim_token ≢ work.claim_token)
    → save clock work db ≡ err conflict
unfolding save
save_stale clock work db current valid found stale =
    ground (arith, text_eq_iff current.claim_token work.claim_token)

-- The row that a claim has found runs, and is the one under its ID.
abbrev Leaves : Text → Db × Option AliasDeletionWork → Type 0
Leaves id (db, none) = Unit {0}
Leaves id (db, some w) = (first_where (has_id id) db.works ≡ some w) × (is_running w.status ≡ true)

-- What a claim that finds work leaves.
claimed-row :
    (token : Text) (clock now : ℕ) (id : Text) (db held : Db) (w : AliasDeletionWork)
    → Ordered db
    → claim token clock now id db ≡ ok (held, some w)
    → (first_where (has_id id) held.works ≡ some w) × (is_running w.status ≡ true)
unfolding claim
claimed-row token clock now id db held w o e =
    let (mid, pruned, rest) = >>=-eq-ok (prune clock db) _ e in
    elim (Option-cases (first_where (claimable id now mid.works) mid.works)) [
      | inl n ↦ absurd (none-some w (rw n at rest))
      | inr (v, n) ↦
          let work = claimed token now v in
          let (published, is, tail) =
            >>=-eq-ok (publish work (update_work work mid)) (λ p. ok (p, some work))
              (rw n at rest) in
          let fit = first_where-key (claimable id now mid.works) mid.works n in
          let found =
            claimable-found id now mid.works mid.works (prune-Ordered clock db pruned o).unique n in
          let same_id = (text_eq_iff v.id id).0 (ground arith) in
          let same = publish-SameWorks work (update_work work mid) is in
          let stored =
            update-found id work v mid.works same_id
              (subst (λ (t : Text). first_where (has_id t) mid.works ≡ some v) same_id found) in
          let both = ok-injective (published, some work) (held, some w) tail in
          let here : first_where (has_id id) published.works ≡ some work = rw same.0 stored in
          subst (Leaves id) both (here, refl)
    ]
  where
    none-some :
        {E : Type 0} (x : AliasDeletionWork) {d d' : Db}
        → ◌≡◌ {A = Result E (Db × Option AliasDeletionWork)} (ok (d, none)) (ok (d', some x))
        → ⊥
    none-some x h = cc

-- Where the work table is in order (`Ordered`, as after any calls): a claim of work that was just
-- claimed finds nothing, whenever it comes and whoever makes it.
pub claim_twice :
    (token other : Text) (clock now later soon : ℕ) (id : Text) (db held next : Db)
    (w : AliasDeletionWork) (found : Option AliasDeletionWork)
    → Ordered db
    → claim token clock now id db ≡ ok (held, some w)
    → claim other later soon id held ≡ ok (next, found)
    → found ≡ none
unfolding claim
claim_twice token other clock now later soon id db held next w found o e f =
    let (stored, runs) = claimed-row token clock now id db held w o e in
    let (mid, pruned, rest) = >>=-eq-ok (prune later held) _ f in
    let ordered = claim-Ordered token clock now id db e o in
    let stays = prune-running later id held pruned ordered.unique stored runs in
    elim (Option-cases (first_where (claimable id soon mid.works) mid.works)) [
      | inl n ↦ sym (
          ap (λ (r : Db × Option AliasDeletionWork). r.1)
            (ok-injective (mid, none) (next, found) (rw n at rest)))
      | inr (v, n) ↦
          let fit = first_where-key (claimable id soon mid.works) mid.works n in
          let here =
            claimable-found id soon mid.works mid.works
              (prune-Ordered later held pruned ordered).unique n in
          let one =
            subst (λ (t : Text). first_where (has_id t) mid.works ≡ some v)
              ((text_eq_iff v.id id).0 (ground arith)) here in
          absurd (not_due w v (sym stays ∙ one) runs (ground arith))
    ]
  where
    not_due :
        (x y : AliasDeletionWork)
        → some x ≡ some y
        → is_running x.status ≡ true
        → is_idle y.status ≡ true
        → ⊥
    not_due x y h k l = ground arith
