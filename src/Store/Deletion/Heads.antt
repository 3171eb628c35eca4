-- ===== src/Store/Deletion/Heads.antt =====
-- The heads that `ListAliasDeletionQueueHeads` gives.
use icloud_api_mangobubu.Base.{
  ℕ, ◌≤◌, ◌<◌, ◌≡◌, inl, inr, refl, subst, Bool, true, false, not, ◌&&◌, ◌||◌, List, [], ◌∷◌, arith,
  Bool-cases, ok, ok-injective, >>=-eq-ok, All, Text, text_eq, text_eq_iff, first_where,
  count_where, select_where, All-map, All-both, count_where-none,
}
use icloud_api_mangobubu.Store.Deletion.Types.{AliasDeletionWork, Db, is_active}
use icloud_api_mangobubu.Store.Deletion.Publish.{prune}
use icloud_api_mangobubu.Store.Deletion.Queue.{
  is_head, is_due, insert_by_sequence, sort_by_sequence, list_heads,
}
use icloud_api_mangobubu.Store.Deletion.Order.{Increasing}
use icloud_api_mangobubu.Store.Deletion.Pruning.{Ordered, prune-Ordered}

-- A due row is active and the first active one of its identity.
abbrev due_for : ℕ → List AliasDeletionWork → Text → AliasDeletionWork → Bool
due_for now works subject w = is_due now works w && text_eq w.apple_subject subject

abbrev head_if : (AliasDeletionWork → Bool) → List AliasDeletionWork → AliasDeletionWork → Bool
head_if q works v = not (q v) || is_head works v

head_if-tail :
    (q : AliasDeletionWork → Bool) (w v : AliasDeletionWork) (ws : List AliasDeletionWork)
    → head_if q (w ∷ ws) v ≡ true
    → head_if q ws v ≡ true
unfolding first_where
head_if-tail q w v ws h = ground arith

-- The rows that fit are active, and of one identity.
abbrev Fits : (AliasDeletionWork → Bool) → Text → Type 0
Fits q subject =
    (v : AliasDeletionWork)
    → q v ≡ true
    → (is_active v.status && text_eq v.apple_subject subject) ≡ true

module _ (q : AliasDeletionWork → Bool) (subject : Text) (fits : Fits q subject) where
  -- Behind a row that fits, no row of the same identity is a head.
  behind :
      (w v : AliasDeletionWork) (ws : List AliasDeletionWork)
      → q w ≡ true
      → w.sequence < v.sequence
      → head_if q (w ∷ ws) v ≡ true
      → q v ≡ false
  unfolding first_where
  behind w v ws h l k = elim (Bool-cases (q v)) [
    | inl e ↦ absurd (
        ground (
          arith,
          fits w h,
          fits v e,
          text_eq_iff w.apple_subject subject,
          text_eq_iff v.apple_subject subject,
          text_eq_iff w.apple_subject v.apple_subject,
        ))
    | inr e ↦ e
  ]

  one_head :
      (works : List AliasDeletionWork)
      → Increasing works
      → All (λ v. head_if q works v ≡ true) works
      → count_where q works ≤ 1
  unfolding count_where
  one_head [] i h = omega arith
  one_head (w ∷ ws) i h =
      let tail =
        All-map (λ v. head_if q (w ∷ ws) v ≡ true) (λ v. head_if q ws v ≡ true) ws
          (λ v k. head_if-tail q w v ws k) h.1 in
      let rest = one_head ws i.1 tail in
      elim (Bool-cases (q w)) [
        | inl e ↦
            let none_behind =
              All-map (λ v. (w.sequence < v.sequence) × (head_if q (w ∷ ws) v ≡ true))
                (λ v. q v ≡ false) ws (λ v k. behind w v ws e k.0 k.1)
                (All-both (λ v. w.sequence < v.sequence) (λ v. head_if q (w ∷ ws) v ≡ true) ws i.0
                  h.1) in
            ground (arith, count_where-none q ws none_behind)
        | inr e ↦ ground (arith, rest)
      ]

All-true {κ} :
    (P : AliasDeletionWork → Type κ) (ws : List AliasDeletionWork)
    → ((w : AliasDeletionWork) → P w)
    → All P ws
All-true P [] h = tt
All-true P (w ∷ ws) h = (h w, All-true P ws h)

count_where-insert_by_sequence :
    (p : AliasDeletionWork → Bool) (w : AliasDeletionWork) (ws : List AliasDeletionWork)
    → count_where p (insert_by_sequence w ws) ≡ count_where p (w ∷ ws)
unfolding insert_by_sequence count_where
count_where-insert_by_sequence p w [] = refl
count_where-insert_by_sequence p w (v ∷ vs) = ground (arith, count_where-insert_by_sequence p w vs)

count_where-sort_by_sequence :
    (p : AliasDeletionWork → Bool) (ws : List AliasDeletionWork)
    → count_where p (sort_by_sequence ws) ≡ count_where p ws
unfolding sort_by_sequence count_where
count_where-sort_by_sequence p [] = refl
count_where-sort_by_sequence p (w ∷ ws) = ground (
  arith,
  count_where-insert_by_sequence p w (sort_by_sequence ws),
  count_where-sort_by_sequence p ws,
)

count_where-select_where :
    (p q : AliasDeletionWork → Bool) (ws : List AliasDeletionWork)
    → count_where p (select_where q ws) ≡ count_where (λ w. q w && p w) ws
unfolding count_where select_where
count_where-select_where p q [] = refl
count_where-select_where p q (w ∷ ws) = ground (arith, count_where-select_where p q ws)

-- Where the work table is in order (`Ordered`, as after any calls): the list of heads has at most
-- one piece of work of each Apple identity.
pub list_heads_once :
    (clock now : ℕ) (db : Db) (r : Db × List AliasDeletionWork) (subject : Text)
    → Ordered db
    → list_heads clock now db ≡ ok r
    → count_where (λ w. text_eq w.apple_subject subject) r.1 ≤ 1
unfolding list_heads
list_heads_once clock now db r subject o e =
    let (pruned, p, rest) = >>=-eq-ok (prune clock db) _ e in
    let works = pruned.works in
    let q = due_for now works subject in
    let listed = sort_by_sequence (select_where (is_due now works) works) in
    let same_subject = λ (w : AliasDeletionWork). text_eq w.apple_subject subject in
    let bound : count_where q works ≤ 1 =
      one_head q subject (λ v h. ground arith) works (prune-Ordered clock db p o).increasing
        (All-true (λ v. head_if q works v ≡ true) works (λ v. ground arith)) in
    subst (λ (x : Db × List AliasDeletionWork). count_where same_subject x.1 ≤ 1)
      (ok-injective (pruned, listed) r rest)
      (omega (
        arith,
        bound,
        count_where-sort_by_sequence same_subject (select_where (is_due now works) works),
        count_where-select_where same_subject (is_due now works) works,
      ))
