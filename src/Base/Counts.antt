-- ===== src/Base/Counts.antt =====
-- How the statements of Base/Tables change a count and a lookup by key.
use Prim.Native.Nat.{ℕ, ◌+◌, ◌≤◌}
use mathlib.Core.Path.{◌≡◌, refl}
use mathlib.Core.Bool.{Bool, true, false}
use mathlib.Core.Option.{none, some}
use mathlib.Core.List.{List, [], ◌∷◌}
use native.Mathlib.Omega.{arith}
use icloud_api_mangobubu.Base.Tests.{if◌then◌else◌}
use icloud_api_mangobubu.Base.Tables.{first_where, count_where, upsert, update_key, delete_where}

module _ {ℓ} {A : Type ℓ} where
  -- Two rows count alike for `q`.
  abbrev pub one : (A → Bool) → A → ℕ
  one q r = if q r then 1 else 0

  pub count_where-upsert_le :
      (q key : A → Bool) (new : A) (rows : List A)
      → count_where q (upsert key new rows) ≤ count_where q rows + one q new
  unfolding count_where upsert
  count_where-upsert_le q key new [] = ground arith
  count_where-upsert_le q key new (r ∷ rs) = ground (arith, count_where-upsert_le q key new rs)

  pub count_where-upsert_fresh :
      (q key : A → Bool) (new : A) (rows : List A)
      → ((r : A) → key r ≡ true → q r ≡ false)
      → count_where q (upsert key new rows) ≡ count_where q rows + one q new
  unfolding count_where upsert
  count_where-upsert_fresh q key new [] h = ground arith
  count_where-upsert_fresh q key new (r ∷ rs) h =
      ground (arith, count_where-upsert_fresh q key new rs h, h r)

  -- A row that the update reaches counts for `q` as the new one does.
  pub count_where-update_key_eq :
      (q key : A → Bool) (new : A) (rows : List A) {old : A}
      → first_where key rows ≡ some old
      → q old ≡ q new
      → count_where q (update_key key new rows) ≡ count_where q rows
  unfolding count_where update_key first_where
  count_where-update_key_eq q key new [] e h = refl
  count_where-update_key_eq q key new (r ∷ rs) {old} e h =
      ground (arith, count_where-update_key_eq q key new rs {old = old})

  pub count_where-update_key_other :
      (q key : A → Bool) (new : A) (rows : List A)
      → ((r : A) → key r ≡ true → q r ≡ false)
      → q new ≡ false
      → count_where q (update_key key new rows) ≡ count_where q rows
  unfolding count_where update_key
  count_where-update_key_other q key new [] h k = refl
  count_where-update_key_other q key new (r ∷ rs) h k =
      ground (arith, count_where-update_key_other q key new rs h k, h r)

  pub count_where-delete_where_le :
      (q p : A → Bool) (rows : List A) → count_where q (delete_where p rows) ≤ count_where q rows
  unfolding count_where delete_where
  count_where-delete_where_le q p [] = ground arith
  count_where-delete_where_le q p (r ∷ rs) = ground (arith, count_where-delete_where_le q p rs)

  pub count_where-delete_where_other :
      (q p : A → Bool) (rows : List A)
      → ((r : A) → p r ≡ true → q r ≡ false)
      → count_where q (delete_where p rows) ≡ count_where q rows
  unfolding count_where delete_where
  count_where-delete_where_other q p [] h = refl
  count_where-delete_where_other q p (r ∷ rs) h =
      ground (arith, count_where-delete_where_other q p rs h, h r)

  pub count_where-delete_where_self :
      (p : A → Bool) (rows : List A) → count_where p (delete_where p rows) ≡ 0
  unfolding count_where delete_where
  count_where-delete_where_self p [] = refl
  count_where-delete_where_self p (r ∷ rs) = ground (arith, count_where-delete_where_self p rs)

  pub count_where_mono :
      (p q : A → Bool) (rows : List A)
      → ((r : A) → p r ≡ true → q r ≡ true)
      → count_where p rows ≤ count_where q rows
  unfolding count_where
  count_where_mono p q [] h = ground arith
  count_where_mono p q (r ∷ rs) h = ground (arith, count_where_mono p q rs h, h r)

  pub first_where-upsert_self :
      (key : A → Bool) (new : A) (rows : List A)
      → key new ≡ true
      → first_where key (upsert key new rows) ≡ some new
  unfolding first_where upsert
  first_where-upsert_self key new [] h = ground arith
  first_where-upsert_self key new (r ∷ rs) h = ground (arith, first_where-upsert_self key new rs h)

  pub first_where-upsert_other :
      (key other : A → Bool) (new : A) (rows : List A)
      → ((r : A) → key r ≡ true → other r ≡ false)
      → key new ≡ true
      → first_where other (upsert key new rows) ≡ first_where other rows
  unfolding first_where upsert
  first_where-upsert_other key other new [] h k = ground (arith, h new)
  first_where-upsert_other key other new (r ∷ rs) h k =
      ground (arith, first_where-upsert_other key other new rs h k, h r, h new)

  pub first_where-update_key_self :
      (key : A → Bool) (new : A) (rows : List A) {old : A}
      → first_where key rows ≡ some old
      → key new ≡ true
      → first_where key (update_key key new rows) ≡ some new
  unfolding first_where update_key
  first_where-update_key_self key new [] e h = ground arith
  first_where-update_key_self key new (r ∷ rs) {old} e h =
      ground (arith, first_where-update_key_self key new rs {old = old})

  pub first_where-update_key_other :
      (key other : A → Bool) (new : A) (rows : List A)
      → ((r : A) → key r ≡ true → other r ≡ false)
      → other new ≡ false
      → first_where other (update_key key new rows) ≡ first_where other rows
  unfolding first_where update_key
  first_where-update_key_other key other new [] h k = refl
  first_where-update_key_other key other new (r ∷ rs) h k =
      ground (arith, first_where-update_key_other key other new rs h k, h r)

  -- The row found has the key.
  pub first_where-key :
      (key : A → Bool) (rows : List A) {r : A} → first_where key rows ≡ some r → key r ≡ true
  unfolding first_where
  first_where-key key [] e = ground arith
  first_where-key key (x ∷ rs) {r} e = ground (arith, first_where-key key rs {r = r})

  pub first_where-some_count :
      (key : A → Bool) (rows : List A) {r : A}
      → first_where key rows ≡ some r
      → 1 ≤ count_where key rows
  unfolding first_where count_where
  first_where-some_count key [] e = ground arith
  first_where-some_count key (x ∷ rs) {r} e = ground (arith, first_where-some_count key rs {r = r})

  -- The row that an insertion replaces, or none, stops counting, and the new row counts.
  pub count_where-upsert_replace :
      (q key : A → Bool) (new : A) (rows : List A) {old : A}
      → first_where key rows ≡ some old
      → count_where q (upsert key new rows) + one q old ≡ count_where q rows + one q new
  unfolding count_where upsert first_where
  count_where-upsert_replace q key new [] e = ground arith
  count_where-upsert_replace q key new (r ∷ rs) {old} e =
      ground (arith, count_where-upsert_replace q key new rs {old = old})

  pub count_where-upsert_insert :
      (q key : A → Bool) (new : A) (rows : List A)
      → first_where key rows ≡ none
      → count_where q (upsert key new rows) ≡ count_where q rows + one q new
  unfolding count_where upsert first_where
  count_where-upsert_insert q key new [] e = ground arith
  count_where-upsert_insert q key new (r ∷ rs) e =
      ground (arith, count_where-upsert_insert q key new rs)

  pub upsert_same :
      (key : A → Bool) (rows : List A) {r : A}
      → first_where key rows ≡ some r
      → upsert key r rows ≡ rows
  unfolding upsert first_where
  upsert_same key [] e = ground arith
  upsert_same key (x ∷ rs) {r} e = ground (arith, upsert_same key rs {r = r})

  pub first_where-delete_where :
      (key p : A → Bool) (rows : List A) {r : A}
      → first_where key rows ≡ some r
      → p r ≡ false
      → first_where key (delete_where p rows) ≡ some r
  unfolding first_where delete_where
  first_where-delete_where key p [] e h = ground arith
  first_where-delete_where key p (x ∷ rs) {r} e h =
      ground (arith, first_where-delete_where key p rs {r = r})
