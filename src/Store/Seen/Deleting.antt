-- ===== src/Store/Seen/Deleting.antt =====
-- What `DeleteSeenTasks` deletes.
use icloud_api_mangobubu.Base.{
  ℕ, ◌≡◌, inl, inr, refl, sym, ap, ◌∙◌, subst, Bool, true, false, ◌||◌, List, [], ◌∷◌, arith, leb,
  ◌==◌, if◌then◌else◌, Bool-cases, if-eq_true, if-eq_false, ok, ok-injective, require-inv,
  >>=-eq-ok, count_where, delete_where, count_where-delete_where_other,
  count_where-delete_where_self, count_where_mono,
}
use icloud_api_mangobubu.Store.Seen.Types.{
  SeenTask, Outbox, bad_uid_validity, bad_uid, bad_account_id,
}
use icloud_api_mangobubu.Store.Seen.Tasks.{
  member, unique_uids, insert_number, sort_numbers, deletes, delete_tasks,
}

member-insert_number :
    (u n : ℕ) (ns : List ℕ) → member u (insert_number n ns) ≡ (n == u || member u ns)
unfolding insert_number
member-insert_number u n [] = refl
member-insert_number u n (m ∷ ms) = ground (arith, member-insert_number u n ms)

member-sort_numbers : (u : ℕ) (ns : List ℕ) → member u (sort_numbers ns) ≡ member u ns
unfolding sort_numbers
member-sort_numbers u [] = refl
member-sort_numbers u (n ∷ ns) =
    member-insert_number u n (sort_numbers ns)
    ∙ ap (λ (b : Bool). n == u || b) (member-sort_numbers u ns)

unique_uids-inv :
    (seen : List ℕ) (n : ℕ) (ns : List ℕ) {out : List ℕ}
    → unique_uids seen (n ∷ ns) ≡ ok out
    → (rest : List ℕ) × (unique_uids (if member n seen then seen else n ∷ seen) ns ≡ ok rest)
      × ((if member n seen then rest else n ∷ rest) ≡ out)
unfolding unique_uids
unique_uids-inv seen n ns {out} e =
    let (positive, e1) = require-inv (leb 1 n) bad_uid _ e in
    let (rest, h, e2) = >>=-eq-ok (unique_uids _ ns) _ e1 in (rest, h, ok-injective _ out e2)

member-unique_uids :
    (u : ℕ) (seen uids : List ℕ) {out : List ℕ}
    → unique_uids seen uids ≡ ok out
    → (member u seen || member u out) ≡ (member u seen || member u uids)
unfolding unique_uids
member-unique_uids u seen [] {out} e =
    ap (λ (ns : List ℕ). member u seen || member u ns) (sym (ok-injective [] out e))
member-unique_uids u seen (n ∷ ns) {out} e =
    let (rest, h, built) = unique_uids-inv seen n ns e in
    elim (Bool-cases (member n seen)) [
      | inl k ↦ rw (sym built ∙ if-eq_true (member n seen) rest (n ∷ rest) k) (
          known n rest k (
            member-unique_uids u seen ns (
              subst (λ (known : List ℕ). unique_uids known ns ≡ ok rest)
                (if-eq_true (member n seen) seen (n ∷ seen) k) h)))
      | inr k ↦ rw (sym built ∙ if-eq_false (member n seen) rest (n ∷ rest) k) (
          fresh rest (
            member-unique_uids u (n ∷ seen) ns (
              subst (λ (known : List ℕ). unique_uids known ns ≡ ok rest)
                (if-eq_false (member n seen) seen (n ∷ seen) k) h)))
    ]
  where
    same_member : (v : ℕ) → (v == u) ≡ true → v ≡ u
    same_member v h = ground arith

    fresh :
        (rest : List ℕ)
        → (member u (n ∷ seen) || member u rest) ≡ (member u (n ∷ seen) || member u ns)
        → (member u seen || member u (n ∷ rest)) ≡ (member u seen || member u (n ∷ ns))
    fresh rest h = ground arith

    known :
        (v : ℕ) (rest : List ℕ)
        → member v seen ≡ true
        → (member u seen || member u rest) ≡ (member u seen || member u ns)
        → (member u seen || member u rest) ≡ (member u seen || (v == u || member u ns))
    known v rest k h = elim (Bool-cases (v == u)) [
      | inl q ↦ let there = subst (λ (w : ℕ). member w seen ≡ true) (same_member v q) k in rw there
      | inr q ↦ rw q h
    ]

-- A deletion leaves no task of the account and mailbox generation with one of the UIDs, and keeps
-- every other task.
pub delete_tasks-exact :
    (account_id validity : ℕ) (uids : List ℕ) (t out : Outbox) (p : SeenTask → Bool)
    → delete_tasks account_id validity uids t ≡ ok out
    → ((r : SeenTask) → p r ≡ true → deletes account_id validity uids r ≡ false)
    → (count_where (deletes account_id validity uids) out.seen_tasks ≡ 0)
      × (count_where p out.seen_tasks ≡ count_where p t.seen_tasks)
unfolding delete_tasks
delete_tasks-exact account_id validity uids t out p e others =
    let (a, e1) = require-inv (leb 1 account_id) bad_account_id _ e in
    let (b, e2) = require-inv (leb 1 validity) bad_uid_validity _ e1 in
    let (unique, h, e3) = >>=-eq-ok (unique_uids [] uids) _ e2 in
    let same_uids = λ (u : ℕ). member-sort_numbers u unique ∙ member-unique_uids u [] uids h in
    let gone = deletes account_id validity (sort_numbers unique) in
    let left = delete_where gone t.seen_tasks in
    let same = ok-injective (record t { seen_tasks = left }) out e3 in
    subst
      (λ (o : Outbox).
        (count_where (deletes account_id validity uids) o.seen_tasks ≡ 0)
        × (count_where p o.seen_tasks ≡ count_where p t.seen_tasks))
      same
      (
        omega (
          arith,
          count_where_mono (deletes account_id validity uids) gone left
              (λ r k. ground (arith, same_uids r.uid)),
          count_where-delete_where_self gone t.seen_tasks,
        ),
        count_where-delete_where_other p gone t.seen_tasks
            (λ r k. ground (arith, same_uids r.uid, others r)),
      )
