-- ===== src/Store/Seen/Accounts.antt =====
-- The accounts that have something to be marked as seen.
use icloud_api_mangobubu.Base.{
  ℕ, ◌≤◌, ◌≡◌, inl, inr, refl, ◌∙◌, Bool, ◌||◌, List, [], ◌∷◌, arith, ◌==◌, Bool-cases, is_some, ok,
  All, first_where,
}
use icloud_api_mangobubu.Store.Seen.Types.{SeenTask, Outbox}
use icloud_api_mangobubu.Store.Seen.Tasks.{
  of_account, member, Group, group_key, add_task, group_tasks, earlier_group, insert_group,
  sort_groups, scan_groups, list_accounts,
}

abbrev has_group : ℕ → List Group → Bool
has_group a gs = is_some (first_where (group_key a) gs)

has_group-add_task :
    (a : ℕ) (t : SeenTask) (gs : List Group)
    → has_group a (add_task t gs) ≡ (of_account a t || has_group a gs)
unfolding add_task first_where
has_group-add_task a t [] = ground arith
has_group-add_task a t (g ∷ gs) = ground (arith, has_group-add_task a t gs)

has_group-group_tasks :
    (a : ℕ) (ts : List SeenTask)
    → has_group a (group_tasks ts) ≡ is_some (first_where (of_account a) ts)
unfolding group_tasks first_where
has_group-group_tasks a [] = refl
has_group-group_tasks a (t ∷ ts) =
    ground (arith, has_group-add_task a t (group_tasks ts), has_group-group_tasks a ts)

has_group-insert_group :
    (a : ℕ) (g : Group) (gs : List Group) → has_group a (insert_group g gs) ≡ has_group a (g ∷ gs)
unfolding insert_group first_where
has_group-insert_group a g [] = refl
has_group-insert_group a g (h ∷ hs) = ground (arith, has_group-insert_group a g hs)

has_group-sort_groups : (a : ℕ) (gs : List Group) → has_group a (sort_groups gs) ≡ has_group a gs
unfolding sort_groups first_where
has_group-sort_groups a [] = refl
has_group-sort_groups a (g ∷ gs) =
    ground (arith, has_group-insert_group a g (sort_groups gs), has_group-sort_groups a gs)

abbrev Positive : List Group → Type 0
Positive gs = All (λ g. 1 ≤ g.account_id) gs

add_task-Positive :
    (t : SeenTask) (gs : List Group) → 1 ≤ t.account_id → Positive gs → Positive (add_task t gs)
unfolding add_task
add_task-Positive t [] h k = (h, tt)
add_task-Positive t (g ∷ gs) h k = elim (Bool-cases (g.account_id == t.account_id)) [
  | inl e ↦ rw e (k.0, k.1)
  | inr e ↦ rw e (k.0, add_task-Positive t gs h k.1)
]

insert_group-Positive :
    (g : Group) (gs : List Group) → 1 ≤ g.account_id → Positive gs → Positive (insert_group g gs)
unfolding insert_group
insert_group-Positive g [] h k = (h, tt)
insert_group-Positive g (x ∷ xs) h k = elim (Bool-cases (earlier_group g x)) [
  | inl e ↦ rw e (h, k)
  | inr e ↦ rw e (k.0, insert_group-Positive g xs h k.1)
]

sort_groups-Positive : (gs : List Group) → Positive gs → Positive (sort_groups gs)
unfolding sort_groups
sort_groups-Positive [] h = tt
sort_groups-Positive (g ∷ gs) h =
    insert_group-Positive g (sort_groups gs) h.0 (sort_groups-Positive gs h.1)

group_tasks-Positive :
    (ts : List SeenTask) → All (λ t. 1 ≤ t.account_id) ts → Positive (group_tasks ts)
unfolding group_tasks
group_tasks-Positive [] h = tt
group_tasks-Positive (t ∷ ts) h =
    add_task-Positive t (group_tasks ts) h.0 (group_tasks-Positive ts h.1)

scan_groups-ok :
    (gs : List Group)
    → Positive gs
    → (ids : List ℕ) × (scan_groups gs ≡ ok ids) × ((a : ℕ) → member a ids ≡ has_group a gs)
unfolding scan_groups first_where
scan_groups-ok [] h = ([], refl, λ a. refl)
scan_groups-ok (g ∷ gs) h =
    let (ids, e, same) = scan_groups-ok gs h.1 in
    (g.account_id ∷ ids, ground (arith, h.0), λ a. ground (arith, same a))

-- When every task is of an account with a positive ID, the listing of accounts has a result, and
-- names exactly the accounts with a task: none is left out for others that are older.
pub list_accounts_complete :
    (t : Outbox)
    → All (λ r. 1 ≤ r.account_id) t.seen_tasks
    → (a : ℕ)
    → (ids : List ℕ) × (list_accounts t ≡ ok ids)
      × (member a ids ≡ is_some (first_where (of_account a) t.seen_tasks))
unfolding list_accounts
list_accounts_complete t h a =
    let groups = group_tasks t.seen_tasks in
    let (ids, e, same) =
      scan_groups-ok (sort_groups groups)
        (sort_groups-Positive groups (group_tasks-Positive t.seen_tasks h)) in
    (ids, e, same a ∙ has_group-sort_groups a groups ∙ has_group-group_tasks a t.seen_tasks)
