-- ===== src/Store/Deletion/Held.antt =====
-- Rows that a transaction has read stay in the work table while it updates others.
use icloud_api_mangobubu.Base.{
  ◌≡◌, inl, inr, refl, ◌∙◌, subst, Bool, true, none, some, List, [], ◌∷◌, arith, Bool-cases, All,
  Text, text_eq, text_eq_iff, text_eq_refl, first_where, update_key, select_where,
  first_where-update_key_self, first_where-update_key_other, All-map, All-select_where_fit,
}
use icloud_api_mangobubu.Store.Deletion.Types.{AliasDeletionWork}
use icloud_api_mangobubu.Store.Deletion.Snapshot.{has_id}
use icloud_api_mangobubu.Store.Deletion.Order.{UniqueIds, Held, Stored}

-- Rows stay stored while others, or they themselves, are updated in place.
pub Held-update :
    (Q : AliasDeletionWork → Type 0) (new : AliasDeletionWork) (works : List AliasDeletionWork)
    (w : AliasDeletionWork)
    → Stored works new
    → Q new
    → Held Q works w
    → Held Q (update_key (has_id new.id) new works) w
Held-update Q new works w (old, f, e, g, _) q (mine, f', e', g', q') =
    elim (Bool-cases (text_eq new.id w.id)) [
      | inl same ↦ same_row ((text_eq_iff new.id w.id).0 same)
      | inr apart ↦ (
        mine,
        first_where-update_key_other (has_id new.id) (has_id w.id) new works
              (λ r h.
                ground
                  (arith, text_eq_iff r.id new.id, text_eq_iff r.id w.id, text_eq_iff new.id w.id))
              apart
            ∙ f',
        e',
        g',
        q',
      )
    ]
  where
    same_row : new.id ≡ w.id → Held Q (update_key (has_id new.id) new works) w
    same_row id =
        let found = first_where-update_key_self (has_id new.id) new works f (text_eq_refl new.id) in
        let one = subst (λ (t : Text). first_where (has_id t) works ≡ some old) id f in
        (
          new,
          subst
              (λ (t : Text).
                first_where (has_id t) (update_key (has_id new.id) new works) ≡ some new)
              id found,
          ground (arith, one),
          ground (arith, one),
          q,
        )

pub UniqueIds-Stored :
    (works : List AliasDeletionWork)
    → UniqueIds works
    → All (λ w. first_where (has_id w.id) works ≡ some w) works
unfolding first_where
UniqueIds-Stored [] u = tt
UniqueIds-Stored (w ∷ ws) u = (
  rw (text_eq_refl w.id),
  All-map (λ v. first_where (has_id v.id) ws ≡ some v)
      (λ v. first_where (has_id v.id) (w ∷ ws) ≡ some v) ws (λ v h. below v h)
      (UniqueIds-Stored ws u.1),
)
  where
    below :
        (v : AliasDeletionWork)
        → first_where (has_id v.id) ws ≡ some v
        → first_where (has_id v.id) (w ∷ ws) ≡ some v
    below v h =
        let clash =
          λ (e : w.id ≡ v.id). subst (λ (t : Text). first_where (has_id t) ws ≡ none) e u.0 in
        elim (Bool-cases (text_eq w.id v.id)) [
          | inl e ↦ absurd (ground (arith, clash ((text_eq_iff w.id v.id).0 e)))
          | inr e ↦ rw e h
        ]

-- What a SELECT returns is stored.
pub select_where-Held :
    (Q : AliasDeletionWork → Type 0) (p : AliasDeletionWork → Bool) (works : List AliasDeletionWork)
    → UniqueIds works
    → ((w : AliasDeletionWork) → p w ≡ true → Q w)
    → All (Held Q works) (select_where p works)
select_where-Held Q p works u h =
    All-map (λ w. (first_where (has_id w.id) works ≡ some w) × (p w ≡ true)) (Held Q works)
      (select_where p works) (λ w k. (w, k.0, refl, refl, h w k.1))
      (All-select_where_fit (λ w. first_where (has_id w.id) works ≡ some w) p works
        (UniqueIds-Stored works u))
