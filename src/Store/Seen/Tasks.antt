-- ===== src/Store/Seen/Tasks.antt =====
-- The outbox of messages to be marked as seen (internal/store/seen.go): `ListSeenTaskAccountIDs`,
-- `ListSeenTasks` and `DeleteSeenTasks`.
use icloud_api_mangobubu.Base.{
  ℕ, zero, suc, min, Bool, false, ◌&&◌, ◌||◌, List, [], ◌∷◌, ltb, leb, ◌==◌, if◌then◌else◌, Result,
  ok, ◌>>=◌, ◌>>◌, require, delete_where, select_where,
}
use icloud_api_mangobubu.Store.Seen.Types.{
  SeenTask, Outbox, Error, bad_uid_validity, bad_uid, bad_account_id, bad_limit, bad_position,
}

abbrev pub earlier_task : SeenTask → SeenTask → Bool
earlier_task a b =
    ltb a.created_at b.created_at
    || (a.created_at == b.created_at
        && (ltb a.uid_validity b.uid_validity
            || (a.uid_validity == b.uid_validity && leb a.uid b.uid)))

-- ORDER BY created_at, uid_validity, uid
unfoldable pub insert_task : SeenTask → List SeenTask → List SeenTask
insert_task t [] = t ∷ []
insert_task t (u ∷ us) = if earlier_task t u then t ∷ u ∷ us else u ∷ insert_task t us

unfoldable pub sort_tasks : List SeenTask → List SeenTask
sort_tasks [] = []
sort_tasks (t ∷ ts) = insert_task t (sort_tasks ts)

-- LIMIT
unfoldable pub limited {ℓ} : {A : Type ℓ} → ℕ → List A → List A
limited zero rows = []
limited (suc n) [] = []
limited (suc n) (r ∷ rs) = r ∷ limited n rs

abbrev pub max_uint32 : ℕ
max_uint32 = 0xffffffff

abbrev pub has_position : SeenTask → Bool
has_position t =
    leb 1 t.account_id
    && leb 1 t.uid_validity
    && leb t.uid_validity max_uint32
    && leb 1 t.uid
    && leb t.uid max_uint32

-- `scanSeenTasks`
unfoldable pub scan_tasks : List SeenTask → Result Error (List SeenTask)
scan_tasks [] = ok []
scan_tasks (t ∷ ts) = do require (has_position t) bad_position; rest ← scan_tasks ts; ok (t ∷ rest)

abbrev pub of_account : ℕ → SeenTask → Bool
of_account id t = t.account_id == id

-- `ListSeenTasks`
unfoldable pub list_tasks : ℕ → ℕ → Outbox → Result Error (List SeenTask)
list_tasks account_id limit t = do
  require (leb 1 account_id) bad_account_id
  require (leb 1 limit) bad_limit
  scan_tasks (limited limit (sort_tasks (select_where (of_account account_id) t.seen_tasks)))

abbrev pub member : ℕ → List ℕ → Bool
member n [] = false
member n (m ∷ ms) = m == n || member n ms

-- The loop that drops repeated UIDs; `seen` holds those before.
unfoldable pub unique_uids : List ℕ → List ℕ → Result Error (List ℕ)
unique_uids seen [] = ok []
unique_uids seen (uid ∷ uids) = do
  require (leb 1 uid) bad_uid
  let known = member uid seen
  rest ← unique_uids (if known then seen else uid ∷ seen) uids
  ok (if known then rest else uid ∷ rest)

unfoldable pub insert_number : ℕ → List ℕ → List ℕ
insert_number n [] = n ∷ []
insert_number n (m ∷ ms) = if leb n m then n ∷ m ∷ ms else m ∷ insert_number n ms

-- `sort.Slice`
unfoldable pub sort_numbers : List ℕ → List ℕ
sort_numbers [] = []
sort_numbers (n ∷ ns) = insert_number n (sort_numbers ns)

abbrev pub deletes : ℕ → ℕ → List ℕ → SeenTask → Bool
deletes account_id validity uids t =
    t.account_id == account_id && t.uid_validity == validity && member t.uid uids

-- `DeleteSeenTasks`; no UIDs delete no row.
unfoldable pub delete_tasks : ℕ → ℕ → List ℕ → Outbox → Result Error Outbox
delete_tasks account_id validity uids t = do
  require (leb 1 account_id) bad_account_id
  require (leb 1 validity) bad_uid_validity
  unique ← unique_uids [] uids
  let rows = delete_where (deletes account_id validity (sort_numbers unique)) t.seen_tasks
  ok (record t { seen_tasks = rows })

-- A row of the grouped query.
pub record Group : Type 0 where
  pub account_id : ℕ
  pub oldest : ℕ

abbrev pub group_key : ℕ → Group → Bool
group_key id g = g.account_id == id

-- GROUP BY account_id, with MIN(created_at)
unfoldable pub add_task : SeenTask → List Group → List Group
add_task t [] = record { account_id = t.account_id; oldest = t.created_at } ∷ []
add_task t (g ∷ gs) =
    if g.account_id == t.account_id
    then record g { oldest = min g.oldest t.created_at } ∷ gs
    else g ∷ add_task t gs

unfoldable pub group_tasks : List SeenTask → List Group
group_tasks [] = []
group_tasks (t ∷ ts) = add_task t (group_tasks ts)

abbrev pub earlier_group : Group → Group → Bool
earlier_group a b = ltb a.oldest b.oldest || (a.oldest == b.oldest && leb a.account_id b.account_id)

-- ORDER BY MIN(created_at), account_id
unfoldable pub insert_group : Group → List Group → List Group
insert_group g [] = g ∷ []
insert_group g (h ∷ hs) = if earlier_group g h then g ∷ h ∷ hs else h ∷ insert_group g hs

unfoldable pub sort_groups : List Group → List Group
sort_groups [] = []
sort_groups (g ∷ gs) = insert_group g (sort_groups gs)

unfoldable pub scan_groups : List Group → Result Error (List ℕ)
scan_groups [] = ok []
scan_groups (g ∷ gs) = do
  require (leb 1 g.account_id) bad_account_id
  rest ← scan_groups gs
  ok (g.account_id ∷ rest)

-- `ListSeenTaskAccountIDs`
unfoldable pub list_accounts : Outbox → Result Error (List ℕ)
list_accounts t = scan_groups (sort_groups (group_tasks t.seen_tasks))
