-- ===== src/Syncer/Rounds.antt =====
-- A turn of the worker that marks messages as seen: what it lists is in the outbox, and each account
-- is listed once.
use icloud_api_mangobubu.Base.{
  ℕ, zero, suc, ◌≤◌, ◌≡◌, ◌⊎◌, inl, inr, refl, sym, ap, ◌∙◌, subst, Bool, true, false, ◌&&◌, ◌||◌,
  Option, none, some, List, [], ◌∷◌, ◌++◌, arith, leb, ◌==◌, if◌then◌else◌, Bool-cases, if-both, ok,
  ok-injective, require-inv, >>=-eq-ok, count_where, select_where,
}
use icloud_api_mangobubu.Store.Seen.Types.{
  SeenTask, Outbox, bad_account_id, bad_limit, bad_position,
}
use icloud_api_mangobubu.Store.Seen.Tasks.{
  sort_tasks, limited, has_position, scan_tasks, of_account, list_tasks, member,
}
use icloud_api_mangobubu.Syncer.SeenWorker.{SeenUidBatch, place_task, place_tasks, group_seen_tasks}
use icloud_api_mangobubu.Syncer.Batches.{tasks_at, covers}
use icloud_api_mangobubu.Store.Seen.Listing.{count_where-sort_tasks}

member-append : (w n : ℕ) (uids : List ℕ) → member w (uids ++ n ∷ []) ≡ (member w uids || n == w)
member-append w n [] = ground arith
member-append w n (m ∷ ms) = let rest = member-append w n ms in ground arith

abbrev holds : ℕ → ℕ → SeenUidBatch → Bool
holds validity w b = b.uid_validity == validity && member w b.uids

-- The batch of a task with the task in it.
abbrev grown : SeenTask → SeenUidBatch → SeenUidBatch
grown t b = if member t.uid b.uids then b else record b { uids = b.uids ++ t.uid ∷ [] }

holds-grown_own :
    (t : SeenTask) (b : SeenUidBatch)
    → (b.uid_validity == t.uid_validity) ≡ true
    → holds t.uid_validity t.uid (grown t b) ≡ true
holds-grown_own t b same =
    if-both (λ c. holds t.uid_validity t.uid c ≡ true) (member t.uid b.uids) _ _
      (λ known. ground arith) (λ new. let there = member-append t.uid t.uid b.uids in ground arith)

holds-grown_kept :
    (validity w : ℕ) (t : SeenTask) (b : SeenUidBatch)
    → holds validity w b ≡ true
    → holds validity w (grown t b) ≡ true
holds-grown_kept validity w t b h =
    if-both (λ c. holds validity w c ≡ true) (member t.uid b.uids) _ _ (λ known. h)
      (λ new. let there = member-append w t.uid b.uids in ground arith)

or-first : (a b : Bool) → a ≡ true → a || b ≡ true
or-first true b h = refl
or-first false b h = absurd (ground arith)

or-second : (a b : Bool) → b ≡ true → a || b ≡ true
or-second true b h = refl
or-second false b h = h

pub or-cases : (a b : Bool) → a || b ≡ true → (a ≡ true) ⊎ (b ≡ true)
or-cases true b h = inl refl
or-cases false b h = inr h

covers-place_own :
    (t : SeenTask) (bs : List SeenUidBatch) → covers t.uid_validity t.uid (place_task t bs) ≡ true
unfolding place_task
covers-place_own t [] = ground arith
covers-place_own t (b ∷ bs) =
    let rest = covers-place_own t bs in
    if-both (λ cs. covers t.uid_validity t.uid cs ≡ true) (b.uid_validity == t.uid_validity) _ _
      (λ same. or-first (holds t.uid_validity t.uid (grown t b)) _ (holds-grown_own t b same))
      (λ other. or-second (holds t.uid_validity t.uid b) _ rest)

covers-place_kept :
    (validity w : ℕ) (t : SeenTask) (bs : List SeenUidBatch)
    → covers validity w bs ≡ true
    → covers validity w (place_task t bs) ≡ true
unfolding place_task
covers-place_kept validity w t [] h = absurd (ground arith)
covers-place_kept validity w t (b ∷ bs) h =
    if-both (λ cs. covers validity w cs ≡ true) (b.uid_validity == t.uid_validity) _ _
      (λ same. elim (or-cases (holds validity w b) _ h) [
        | inl here ↦
            or-first (holds validity w (grown t b)) _ (holds-grown_kept validity w t b here)
        | inr later ↦ or-second (holds validity w (grown t b)) _ later
      ])
      (λ other. elim (or-cases (holds validity w b) _ h) [
        | inl here ↦ or-first (holds validity w b) _ here
        | inr later ↦ or-second (holds validity w b) _ (covers-place_kept validity w t bs later)
      ])

some-injective : (bs cs : List SeenUidBatch) → some bs ≡ some cs → bs ≡ cs
some-injective bs cs e = cc

place_tasks-inv :
    (id : ℕ) (t : SeenTask) (ts : List SeenTask) (bs out : List SeenUidBatch)
    → place_tasks id (t ∷ ts) bs ≡ some out
    → ((t.account_id == id) ≡ true) × (place_tasks id ts (place_task t bs) ≡ some out)
unfolding place_tasks
place_tasks-inv id t ts bs out e = elim (Bool-cases (t.account_id == id)) [
  | inl own ↦ (
    own,
    sym (
          ap
            (λ b. elim b as (λ x. Option (List SeenUidBatch)) [
              | true ↦ place_tasks id ts (place_task t bs)
              | false ↦ none
            ])
            own)
        ∙ e,
  )
  | inr foreign ↦ absurd (
      let stopped =
        ap
          (λ b. elim b as (λ x. Option (List SeenUidBatch)) [
            | true ↦ place_tasks id ts (place_task t bs)
            | false ↦ none
          ])
          foreign in
      ground arith)
]

covers-place_tasks :
    (validity w id : ℕ) (ts : List SeenTask) (bs out : List SeenUidBatch)
    → covers validity w bs ≡ true
    → place_tasks id ts bs ≡ some out
    → covers validity w out ≡ true
unfolding place_tasks
covers-place_tasks validity w id [] bs out h e =
    subst (λ cs. covers validity w cs ≡ true) (some-injective bs out e) h
covers-place_tasks validity w id (t ∷ ts) bs out h e =
    let (own, rest) = place_tasks-inv id t ts bs out e in
    covers-place_tasks validity w id ts (place_task t bs) out (covers-place_kept validity w t bs h)
      rest

-- The first task that an account is listed with is its own, and in its batches.
pub group_seen_tasks-covers :
    (id : ℕ) (t : SeenTask) (ts : List SeenTask) (out : List SeenUidBatch)
    → group_seen_tasks id (t ∷ ts) ≡ some out
    → ((t.account_id == id) ≡ true) × (covers t.uid_validity t.uid out ≡ true)
unfolding group_seen_tasks
group_seen_tasks-covers id t ts out e =
    let (own, rest) = place_tasks-inv id t ts [] out e in
    (
      own,
      covers-place_tasks t.uid_validity t.uid id ts (place_task t []) out (covers-place_own t [])
          rest,
    )

scan_tasks-same : (ts out : List SeenTask) → scan_tasks ts ≡ ok out → ts ≡ out
unfolding scan_tasks
scan_tasks-same [] out e = ok-injective _ _ e
scan_tasks-same (t ∷ ts) out e =
    let (valid, e1) = require-inv (has_position t) bad_position _ e in
    let (rest, h, e2) = >>=-eq-ok (scan_tasks ts) _ e1 in
    ap (λ us. t ∷ us) (scan_tasks-same ts rest h) ∙ ok-injective _ _ e2

count_where-limited_le :
    (p : SeenTask → Bool) (n : ℕ) (ts : List SeenTask)
    → count_where p (limited n ts) ≤ count_where p ts
unfolding limited count_where
count_where-limited_le p zero ts = omega arith
count_where-limited_le p (suc n) [] = omega arith
count_where-limited_le p (suc n) (t ∷ ts) = let rest = count_where-limited_le p n ts in omega arith

count_where-select_where_le :
    (p q : SeenTask → Bool) (ts : List SeenTask)
    → count_where p (select_where q ts) ≤ count_where p ts
unfolding select_where count_where
count_where-select_where_le p q [] = omega arith
count_where-select_where_le p q (t ∷ ts) =
    let rest = count_where-select_where_le p q ts in ground arith

count_where-head :
    (p : SeenTask → Bool) (t : SeenTask) (ts : List SeenTask)
    → p t ≡ true
    → 1 ≤ count_where p (t ∷ ts)
unfolding count_where
count_where-head p t ts h = ground arith

-- A task that is listed is in the outbox.
pub list_tasks-held :
    (p : SeenTask → Bool) (id limit : ℕ) (t : Outbox) (r : SeenTask) (rs : List SeenTask)
    → list_tasks id limit t ≡ ok (r ∷ rs)
    → p r ≡ true
    → 1 ≤ tasks_at p t
unfolding list_tasks
list_tasks-held p id limit t r rs e h =
    let (a, e1) = require-inv (leb 1 id) bad_account_id _ e in
    let (b, e2) = require-inv (leb 1 limit) bad_limit _ e1 in
    let own = select_where (of_account id) t.seen_tasks in
    let same = scan_tasks-same (limited limit (sort_tasks own)) (r ∷ rs) e2 in
    let first = subst (λ ts. 1 ≤ count_where p ts) (sym same) (count_where-head p r rs h) in
    let fewer = count_where-limited_le p limit (sort_tasks own) in
    let sorted = count_where-sort_tasks p own in
    let chosen = count_where-select_where_le p (of_account id) t.seen_tasks in omega arith
