-- ===== src/Store/Groups.antt =====
-- The groups of mailboxes (internal/store/mail_group.go). `strings.ToLower` and the normalization
-- `norm.NFKC` of golang.org/x/text are parameters. The number of a new group is the database's.
pub mod Members
pub mod Consistency
mod Tests
use icloud_api_mangobubu.Base.{
  ℕ, zero, suc, ◌+◌, ◌-◌, ◌*◌, ◌/◌, ◌%◌, ◌^◌, min, max, ◌≤◌, ◌<◌, ◌≡◌, ◌≢◌, ◌⊎◌, ◌↔◌, inl, inr,
  refl, sym, ap, ◌∙◌, subst, Bool, true, false, not, ◌&&◌, ◌||◌, Option, none, some, List, [], ◌∷◌,
  ◌++◌, map, arith, ltb, leb, ◌==◌, if◌then◌else◌, ltb→lt, lt→ltb, leb→le, Bool-cases, Option-cases,
  if-eq_true, if-eq_false, if-both, ltb-false, is_some, Result, ok, err, ◌>>=◌, ◌>>◌, require,
  or_fail, after, Result-cases, ok-injective, require-inv, or_fail-inv, >>=-eq-ok, length,
  length-append, All, All-append, Pairwise, Pairwise-rotate, Text, codes, text_eq, text_eq_iff,
  text_eq_refl, is_space, is_blank, trim_left, trim_right, trim_space, rune_length, byte_length,
  first_where, count_where, upsert, update_key, update_where, delete_where, select_where, one,
  count_where-upsert_le, count_where-upsert_fresh, count_where-update_key_eq,
  count_where-update_key_other, count_where-delete_where_le, count_where-delete_where_other,
  count_where-delete_where_self, count_where_mono, first_where-upsert_self,
  first_where-upsert_other, first_where-update_key_self, first_where-update_key_other,
  first_where-key, first_where-some_count, count_where-upsert_replace, count_where-upsert_insert,
  upsert_same, first_where-delete_where, length-update_key, All-map, All-both, All-update_key,
  All-select_where, All-select_where_fit, All-first_where, first_where-update_key-none,
  first_where-append_none, first_where-append, count_where-none,
}
use icloud_api_mangobubu.Store.Encoding.{sanitize_postgres_text, take, truncate}

-- A row of mail_groups.
pub record Group : Type 0 where
  pub id : ℕ
  pub name : Text
  pub name_key : Text
  pub created_at : ℕ
  pub updated_at : ℕ

-- What the statements read and write of a row of aliases.
pub record Alias : Type 0 where
  pub id : ℕ
  pub group_id : Option ℕ
  pub updated_at : ℕ

pub record Tables : Type 0 where
  pub groups : List Group
  pub aliases : List Alias

-- `domain.MailGroup`
pub record MailGroup : Type 0 where
  pub id : ℕ
  pub name : Text
  pub alias_count : ℕ
  pub created_at : ℕ
  pub updated_at : ℕ

pub data Error : Type 0 where
  name_exists name_required name_too_long group_not_found not_found : Error
  group_id_not_positive alias_required alias_id_not_positive : Error

abbrev pub max_mail_group_name_runes : ℕ
max_mail_group_name_runes = 100

-- `normalizeMailGroupName`
unfoldable pub normalize_name : Text → Result Error Text
normalize_name name =
    let trimmed = trim_space (sanitize_postgres_text name) in
    require (not (text_eq trimmed [])) name_required
    >> (require (leb (length trimmed) max_mail_group_name_runes) name_too_long >> ok trimmed)

-- What the keys are made with.
pub record Folding : Type 0 where
  pub to_lower : Text → Text
  pub nfkc : Text → Text

-- `mailGroupNameKey`
unfoldable pub name_key_of : Folding → Text → Text
name_key_of f name = f.to_lower (f.nfkc (trim_space (sanitize_postgres_text name)))

abbrev pub is_group : ℕ → Group → Bool
is_group id g = g.id == id

abbrev pub has_key : Text → Group → Bool
has_key key g = text_eq g.name_key key

abbrev pub in_group : ℕ → Option ℕ → Bool
in_group id none = false
in_group id (some g) = g == id

abbrev pub belongs : ℕ → Alias → Bool
belongs id a = in_group id a.group_id

abbrev pub any {ℓ} : {A : Type ℓ} → (A → Bool) → List A → Bool
any p [] = false
any p (x ∷ xs) = p x || any p xs

-- The groups with the number of their aliases.
abbrev pub counted : Tables → Group → MailGroup
counted t g = record {
  id = g.id;
  name = g.name;
  alias_count = count_where (belongs g.id) t.aliases;
  created_at = g.created_at;
  updated_at = g.updated_at;
}

abbrev pub scanned : Tables → Option Group → Result Error MailGroup
scanned t none = err not_found
scanned t (some g) = ok (counted t g)

-- `GetMailGroup`
unfoldable pub get_group : ℕ → Tables → Result Error MailGroup
get_group id t =
    require (not (ltb id 1)) not_found >> scanned t (first_where (is_group id) t.groups)

-- `GetMailGroupByName`
unfoldable pub get_group_by_name : Folding → Text → Tables → Result Error MailGroup
get_group_by_name f name t = scanned t (first_where (has_key (name_key_of f name)) t.groups)

abbrev pub new_group : Folding → ℕ → Text → ℕ → Group
new_group f id name now = record {
  id = id;
  name = name;
  name_key = name_key_of f name;
  created_at = now;
  updated_at = now;
}

-- `CreateMailGroup`, without the reading that it ends with. A row whose number or key is there
-- already violates a constraint.
unfoldable pub create_group : Folding → ℕ → Text → ℕ → Tables → Result Error Tables
create_group f id name now t = normalize_name name >>= (λ name.
    require (not (any (λ g. is_group id g || has_key (name_key_of f name) g) t.groups)) name_exists
    >> ok (record t { groups = t.groups ++ new_group f id name now ∷ [] }))

-- Another group with the key.
abbrev pub taken : ℕ → Text → Group → Bool
taken id key g = not (is_group id g) && has_key key g

abbrev pub renamed : Folding → Text → ℕ → Group → Group
renamed f name now g = record g { name = name; name_key = name_key_of f name; updated_at = now }

abbrev pub rename_found : Folding → ℕ → Text → ℕ → Tables → Option Group → Result Error Tables
rename_found f id name now t none = err not_found
rename_found f id name now t (some g) =
    require (not (any (taken id (name_key_of f name)) t.groups)) name_exists
    >> ok (record t { groups = update_key (is_group id) (renamed f name now g) t.groups })

-- `UpdateMailGroup`, without the reading that it ends with.
unfoldable pub update_group : Folding → ℕ → Text → ℕ → Tables → Result Error Tables
update_group f id name now t =
    require (not (ltb id 1)) not_found
    >> (normalize_name name
        >>= (λ name. rename_found f id name now t (first_where (is_group id) t.groups)))

abbrev pub moved : Option ℕ → ℕ → Alias → Alias
moved group now a = record a { group_id = group; updated_at = now }

-- `DeleteMailGroup`
unfoldable pub delete_group : ℕ → ℕ → Tables → Result Error Tables
delete_group id now t =
    require (not (ltb id 1)) not_found
    >> (require (any (is_group id) t.groups) not_found
        >> ok (record t {
          aliases = update_where (belongs id) (moved none now) t.aliases;
          groups = delete_where (is_group id) t.groups;
        }))

-- The guards of a move: a positive number, and `lockMailGroupForMove`.
abbrev pub group_is_positive : Option ℕ → Bool
group_is_positive none = true
group_is_positive (some id) = not (ltb id 1)

abbrev pub lock_group_for_move : Option ℕ → Tables → Bool
lock_group_for_move none t = true
lock_group_for_move (some id) t = any (is_group id) t.groups

abbrev pub is_alias : ℕ → Alias → Bool
is_alias id a = a.id == id

-- `SetAliasGroup`, without the reading that it ends with.
unfoldable pub set_alias_group : ℕ → Option ℕ → ℕ → Tables → Result Error Tables
set_alias_group alias group now t =
    require (not (ltb alias 1)) not_found
    >> (require (group_is_positive group) group_id_not_positive
        >> (require (lock_group_for_move group t) group_not_found
            >> (require (any (is_alias alias) t.aliases) not_found
                >> ok (record t {
                  aliases = update_where (is_alias alias) (moved group now) t.aliases;
                }))))

abbrev pub is_in : List ℕ → ℕ → Bool
is_in [] id = false
is_in (n ∷ ns) id = n == id || is_in ns id

-- The loop that drops repeated numbers; `seen` holds those before.
unfoldable pub unique_ids : List ℕ → List ℕ → Result Error (List ℕ)
unique_ids seen [] = ok []
unique_ids seen (id ∷ ids) =
    require (not (ltb id 1)) alias_id_not_positive
    >> (unique_ids (id ∷ seen) ids >>= (λ rest. ok (if is_in seen id then rest else id ∷ rest)))

abbrev pub is_among : List ℕ → Alias → Bool
is_among ids a = is_in ids a.id

-- `SetAliasesGroup`
unfoldable pub set_aliases_group : List ℕ → Option ℕ → ℕ → Tables → Result Error Tables
set_aliases_group aliases group now t =
    require (not (ltb (length aliases) 1)) alias_required
    >> (require (group_is_positive group) group_id_not_positive
        >> (unique_ids [] aliases >>= (λ ids.
            require (lock_group_for_move group t) group_not_found
            >> (require (count_where (is_among ids) t.aliases == length ids) not_found
                >> ok (record t {
                  aliases = update_where (is_among ids) (moved group now) t.aliases;
                })))))
