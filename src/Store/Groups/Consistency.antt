-- ===== src/Store/Groups/Consistency.antt =====
-- Every operation on the groups keeps them told apart by number and by key, and every alias in a
-- group that is there.
use icloud_api_mangobubu.Base.{
  ℕ, ◌≡◌, refl, Bool, true, false, not, Option, none, some, List, [], arith, ltb, ◌==◌, Result, ok,
  err, ◌>>=◌, ◌>>◌, require, after, length, All, Pairwise, Pairwise-rotate, Text, first_where,
  count_where, update_where, delete_where, first_where-key, All-map,
}
use icloud_api_mangobubu.Store.Groups.{
  Group, Alias, Tables, Error, name_exists, group_not_found, not_found, group_id_not_positive,
  alias_required, normalize_name, Folding, name_key_of, is_group, has_key, belongs, any, new_group,
  create_group, renamed, rename_found, update_group, moved, delete_group, group_is_positive,
  lock_group_for_move, is_alias, set_alias_group, unique_ids, is_among, set_aliases_group,
}
use icloud_api_mangobubu.Store.Groups.Members.{
  All-update_where, Apart, Apart-sym, Pairwise-delete_where, Pairwise-update_key, Placed, any-none,
  is_there-append, is_there-delete_where, is_there-lock, is_there-update_key, not-true, or-neither,
  text_eq_sym,
}

pub record IsConsistent (t : Tables) : Type 0 where
  pub apart : Pairwise Apart t.groups
  pub placed : All (Placed t.groups) t.aliases

-- What an operation leaves behind, an error included.
unfoldable Safe : Tables → Result Error Tables → Type 0
Safe t r = IsConsistent (after t r)

-- Behind a guard that holds.
guarded :
    (b : Bool) (e : Error) (t : Tables) (r : Result Error Tables)
    → IsConsistent t
    → (b ≡ true → Safe t r)
    → Safe t (require b e >> r)
unfolding Safe
guarded true e t r held next = next refl
guarded false e t r held next = held

bound {ℓ} :
    {X : Type ℓ} (first : Result Error X) (next : X → Result Error Tables) (t : Tables)
    → IsConsistent t
    → ((x : X) → Safe t (next x))
    → Safe t (first >>= next)
unfolding Safe
bound (ok x) next t held then_next = then_next x
bound (err e) next t held then_next = held

done : (t u : Tables) → IsConsistent u → Safe t (ok u)
unfolding Safe
done t u held = held

create_group-IsConsistent :
    (f : Folding) (id : ℕ) (name : Text) (now : ℕ) (t : Tables)
    → IsConsistent t
    → Safe t (create_group f id name now t)
unfolding create_group
create_group-IsConsistent f id name now t held = bound (normalize_name name) _ t held (λ name.
    guarded _ name_exists t _ held (λ free.
      let new = new_group f id name now in
      let others = any-none _ t.groups (not-true _ free) in
      done t _ (record {
        apart =
            Pairwise-rotate Apart new t.groups Apart-sym
              (All-map _ (Apart new) t.groups
                (λ (g : Group) h.
                  let (ids, keys) = or-neither (is_group id g) (has_key (name_key_of f name) g) h in
                  (ground arith, text_eq_sym g.name_key (name_key_of f name) keys))
                others)
              held.apart;
        placed =
            All-map _ _ t.aliases (λ (a : Alias) h. is_there-append t.groups new a.group_id h)
              held.placed;
      })))

rename_found-IsConsistent :
    (f : Folding) (id : ℕ) (name : Text) (now : ℕ) (t : Tables) (o : Option Group)
    → first_where (is_group id) t.groups ≡ o
    → IsConsistent t
    → Safe t (rename_found f id name now t o)
unfolding Safe
rename_found-IsConsistent f id name now t none found held = held
rename_found-IsConsistent f id name now t (some g) found held =
    guarded _ name_exists t _ held (λ free.
      let own = first_where-key (is_group id) t.groups found in
      let same : g.id ≡ id = ground arith in
      done t _ (record {
        apart =
            Pairwise-update_key id (renamed f name now g) t.groups same
              (any-none _ t.groups (not-true _ free)) held.apart;
        placed =
            All-map _ _ t.aliases
              (λ (a : Alias) h.
                is_there-update_key id (renamed f name now g) t.groups a.group_id same h)
              held.placed;
      }))

update_group-IsConsistent :
    (f : Folding) (id : ℕ) (name : Text) (now : ℕ) (t : Tables)
    → IsConsistent t
    → Safe t (update_group f id name now t)
unfolding update_group
update_group-IsConsistent f id name now t held =
    guarded (not (ltb id 1)) not_found t _ held (λ positive.
      bound (normalize_name name) _ t held
        (λ name. rename_found-IsConsistent f id name now t _ refl held))

delete_group-IsConsistent :
    (id now : ℕ) (t : Tables) → IsConsistent t → Safe t (delete_group id now t)
unfolding delete_group
delete_group-IsConsistent id now t held = guarded (not (ltb id 1)) not_found t _ held (λ positive.
    guarded (any (is_group id) t.groups) not_found t _ held (λ there. done t _ (record {
      apart = Pairwise-delete_where (is_group id) t.groups held.apart;
      placed =
          All-update_where (Placed t.groups) (Placed (delete_where (is_group id) t.groups))
            (belongs id) (moved none now) t.aliases (λ (a : Alias) h own. refl)
            (λ (a : Alias) h foreign. is_there-delete_where id t.groups a.group_id foreign h)
            held.placed;
    })))

moved-IsConsistent :
    (p : Alias → Bool) (group : Option ℕ) (now : ℕ) (t : Tables)
    → lock_group_for_move group t ≡ true
    → IsConsistent t
    → IsConsistent (record t { aliases = update_where p (moved group now) t.aliases })
moved-IsConsistent p group now t locked held = record {
  apart = held.apart;
  placed =
      All-update_where (Placed t.groups) (Placed t.groups) p (moved group now) t.aliases
        (λ (a : Alias) h own. is_there-lock group t locked) (λ (a : Alias) h foreign. h)
        held.placed;
}

set_alias_group-IsConsistent :
    (alias : ℕ) (group : Option ℕ) (now : ℕ) (t : Tables)
    → IsConsistent t
    → Safe t (set_alias_group alias group now t)
unfolding set_alias_group
set_alias_group-IsConsistent alias group now t held =
    guarded (not (ltb alias 1)) not_found t _ held (λ a.
      guarded (group_is_positive group) group_id_not_positive t _ held (λ b.
        guarded (lock_group_for_move group t) group_not_found t _ held (λ locked.
          guarded (any (is_alias alias) t.aliases) not_found t _ held
            (λ there. done t _ (moved-IsConsistent (is_alias alias) group now t locked held)))))

set_aliases_group-IsConsistent :
    (aliases : List ℕ) (group : Option ℕ) (now : ℕ) (t : Tables)
    → IsConsistent t
    → Safe t (set_aliases_group aliases group now t)
unfolding set_aliases_group
set_aliases_group-IsConsistent aliases group now t held =
    guarded (not (ltb (length aliases) 1)) alias_required t _ held (λ a.
      guarded (group_is_positive group) group_id_not_positive t _ held (λ b.
        bound (unique_ids [] aliases) _ t held (λ ids.
          guarded (lock_group_for_move group t) group_not_found t _ held (λ locked.
            guarded (count_where (is_among ids) t.aliases == length ids) not_found t _ held
              (λ all. done t _ (moved-IsConsistent (is_among ids) group now t locked held))))))

-- The operations on groups.
pub data Op : Type 0 where
  create : (id : ℕ) (name : Text) → Op
  rename : (id : ℕ) (name : Text) → Op
  remove : (id : ℕ) → Op
  move : (alias : ℕ) (group : Option ℕ) → Op
  move_all : (aliases : List ℕ) (group : Option ℕ) → Op

abbrev pub run : Folding → ℕ → Op → Tables → Result Error Tables
run f now (create id name) t = create_group f id name now t
run f now (rename id name) t = update_group f id name now t
run f now (remove id) t = delete_group id now t
run f now (move alias group) t = set_alias_group alias group now t
run f now (move_all aliases group) t = set_aliases_group aliases group now t

-- Whatever an operation does, an error included, it keeps the groups told apart by number and by
-- key, and every alias in no group or in one that is there.
pub run-IsConsistent :
    (f : Folding) (now : ℕ) (op : Op) (t : Tables)
    → IsConsistent t
    → IsConsistent (after t (run f now op t))
unfolding Safe
run-IsConsistent f now (create id name) t held = create_group-IsConsistent f id name now t held
run-IsConsistent f now (rename id name) t held = update_group-IsConsistent f id name now t held
run-IsConsistent f now (remove id) t held = delete_group-IsConsistent id now t held
run-IsConsistent f now (move alias group) t held =
    set_alias_group-IsConsistent alias group now t held
run-IsConsistent f now (move_all aliases group) t held =
    set_aliases_group-IsConsistent aliases group now t held
