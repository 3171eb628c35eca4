-- ===== src/Base/Rows.antt =====
-- Properties of every row, under the statements of Base/Tables.
use mathlib.Core.Bool.{Bool, true, false}
use mathlib.Core.List.{List, [], ◌∷◌, ◌++◌}
use mathlib.Core.Logic.{inl, inr}
use mathlib.Core.Option.{none, some}
use mathlib.Core.Path.{◌≡◌, refl, subst}
use native.Mathlib.Omega.{arith}
use icloud_api_mangobubu.Base.Lists.{length, All}
use icloud_api_mangobubu.Base.Tests.{Bool-cases}
use icloud_api_mangobubu.Base.Tables.{count_where, first_where, update_key, select_where}

module _ {ℓ} {A : Type ℓ} where
  pub length-update_key :
      (key : A → Bool) (new : A) (rows : List A) → length (update_key key new rows) ≡ length rows
  unfolding update_key
  length-update_key key new [] = refl
  length-update_key key new (r ∷ rs) = ground (arith, length-update_key key new rs)

  pub All-update_key {κ} :
      (P : A → Type κ) (key : A → Bool) (new : A) (rows : List A)
      → P new
      → All P rows
      → All P (update_key key new rows)
  unfolding update_key
  All-update_key P key new [] n h = tt
  All-update_key P key new (r ∷ rs) n h = elim (Bool-cases (key r)) [
    | inl e ↦ rw e (n, h.1)
    | inr e ↦ rw e (h.0, All-update_key P key new rs n h.1)
  ]

  pub All-select_where {κ} :
      (P : A → Type κ) (p : A → Bool) (rows : List A) → All P rows → All P (select_where p rows)
  unfolding select_where
  All-select_where P p [] h = tt
  All-select_where P p (r ∷ rs) h = elim (Bool-cases (p r)) [
    | inl e ↦ rw e (h.0, All-select_where P p rs h.1)
    | inr e ↦ rw e (All-select_where P p rs h.1)
  ]

  pub All-first_where {κ} :
      (P : A → Type κ) (p : A → Bool) (rows : List A) {r : A}
      → first_where p rows ≡ some r
      → All P rows
      → P r
  unfolding first_where
  All-first_where P p [] e h = absurd (ground arith)
  All-first_where P p (x ∷ rs) {r} e h = elim (Bool-cases (p x)) [
    | inl k ↦ subst P (ground arith) h.0
    | inr k ↦ All-first_where P p rs (ground arith) h.1
  ]

  -- Nothing fits `p` after an update that puts a row which does not fit, or one that fits only
  -- where the old row did.
  pub first_where-update_key-none :
      (p key : A → Bool) (new : A) (rows : List A)
      → first_where p rows ≡ none
      → ((old : A) → first_where key rows ≡ some old → p old ≡ false → p new ≡ false)
      → first_where p (update_key key new rows) ≡ none
  unfolding first_where update_key
  first_where-update_key-none p key new [] e h = refl
  first_where-update_key-none p key new (r ∷ rs) e h = elim (Bool-cases (key r)) [
    | inl k ↦ rw k (ground (arith, h r))
    | inr k ↦ rw k (
        ground (
          arith,
          first_where-update_key-none p key new rs (ground arith) (λ old f. h old (rw k f)),
        ))
  ]

  -- The rows selected by `p` fit it.
  pub All-select_where_fit {κ} :
      (P : A → Type κ) (p : A → Bool) (rows : List A)
      → All P rows
      → All (λ r. P r × (p r ≡ true)) (select_where p rows)
  unfolding select_where
  All-select_where_fit P p [] h = tt
  All-select_where_fit P p (r ∷ rs) h = elim (Bool-cases (p r)) [
    | inl e ↦ rw e ((h.0, e), All-select_where_fit P p rs h.1)
    | inr e ↦ rw e (All-select_where_fit P p rs h.1)
  ]

  pub first_where-append_none :
      (p : A → Bool) (rows : List A) (new : A)
      → first_where p rows ≡ none
      → p new ≡ false
      → first_where p (rows ++ new ∷ []) ≡ none
  unfolding first_where
  first_where-append_none p [] new e h = ground arith
  first_where-append_none p (r ∷ rs) new e h = ground (arith, first_where-append_none p rs new)

  pub count_where-none :
      (p : A → Bool) (rows : List A) → All (λ r. p r ≡ false) rows → count_where p rows ≡ 0
  unfolding count_where
  count_where-none p [] h = refl
  count_where-none p (r ∷ rs) h = ground (arith, h.0, count_where-none p rs h.1)

  pub first_where-append :
      (p : A → Bool) (rows : List A) (new : A)
      → p new ≡ true
      → (r : A) × (first_where p (rows ++ new ∷ []) ≡ some r)
  unfolding first_where
  first_where-append p [] new h = (new, rw h)
  first_where-append p (r ∷ rs) new h = elim (Bool-cases (p r)) [
    | inl e ↦ (r, rw e)
    | inr e ↦ let (found, f) = first_where-append p rs new h in (found, rw e f)
  ]
