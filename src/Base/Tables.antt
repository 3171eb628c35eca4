-- ===== src/Base/Tables.antt =====
-- SQL tables as lists of rows, and the statements that the store runs on them. A statement that
-- names a primary key reaches the first row with that key, which is the only one.
use Prim.Native.Nat.{ℕ, ◌+◌}
use mathlib.Core.Bool.{Bool}
use mathlib.Core.Option.{Option, none, some}
use mathlib.Core.List.{List, [], ◌∷◌}
use icloud_api_mangobubu.Base.Tests.{if◌then◌else◌}

module _ {ℓ} {A : Type ℓ} where
  -- SELECT … WHERE key
  unfoldable pub first_where : (A → Bool) → List A → Option A
  first_where key [] = none
  first_where key (r ∷ rs) = if key r then some r else first_where key rs

  -- SELECT COUNT(*) … WHERE p
  unfoldable pub count_where : (A → Bool) → List A → ℕ
  count_where p [] = 0
  count_where p (r ∷ rs) = (if p r then 1 else 0) + count_where p rs

  -- INSERT … ON CONFLICT DO UPDATE
  unfoldable pub upsert : (A → Bool) → A → List A → List A
  upsert key new [] = new ∷ []
  upsert key new (r ∷ rs) = if key r then new ∷ rs else r ∷ upsert key new rs

  -- UPDATE … WHERE key
  unfoldable pub update_key : (A → Bool) → A → List A → List A
  update_key key new [] = []
  update_key key new (r ∷ rs) = if key r then new ∷ rs else r ∷ update_key key new rs

  -- UPDATE … WHERE p, on every row that fits
  unfoldable pub update_where : (A → Bool) → (A → A) → List A → List A
  update_where p f [] = []
  update_where p f (r ∷ rs) = (if p r then f r else r) ∷ update_where p f rs

  -- DELETE … WHERE p
  unfoldable pub delete_where : (A → Bool) → List A → List A
  delete_where p [] = []
  delete_where p (r ∷ rs) = if p r then delete_where p rs else r ∷ delete_where p rs

  -- SELECT * … WHERE p
  unfoldable pub select_where : (A → Bool) → List A → List A
  select_where p [] = []
  select_where p (r ∷ rs) = if p r then r ∷ select_where p rs else select_where p rs
