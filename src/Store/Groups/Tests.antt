-- ===== src/Store/Groups/Tests.antt =====
-- The groups of mailboxes on a concrete table.
use icloud_api_mangobubu.Base.{
  ◌+◌, ◌≡◌, refl, ◌&&◌, none, some, [], ◌∷◌, map, leb, if◌then◌else◌, ok, err, after, codes,
  text_eq, is_space, is_blank, trim_left, trim_right, trim_space, update_where, delete_where,
}
use icloud_api_mangobubu.Store.Groups.{
  Tables, name_exists, normalize_name, Folding, name_key_of, create_group, delete_group,
}
use icloud_api_mangobubu.Store.Groups.Consistency.{IsConsistent, create, run, run-IsConsistent}
use icloud_api_mangobubu.Store.Encoding.{sanitize_postgres_text}

abbrev folding : Folding
folding = record {
  to_lower = map (λ c. if leb 0x41 c && leb c 0x5a then c + 0x20 else c);
  nfkc = λ s. s;
}

abbrev tables : Tables
tables = record {
  groups =
      record {
        id = 1;
        name = codes "Work";
        name_key = codes "work";
        created_at = 5;
        updated_at = 5;
      }
      ∷ [];
  aliases =
      record { id = 8; group_id = some 1; updated_at = 5 }
      ∷ record { id = 9; group_id = none; updated_at = 5 }
      ∷ [];
}

tables-IsConsistent : IsConsistent tables
tables-IsConsistent = record { apart = (tt, tt); placed = (refl, (refl, tt)) }

run-IsConsistent_example :
    IsConsistent (after tables (run folding 7 (create 2 (codes "Home")) tables))
run-IsConsistent_example =
    run-IsConsistent folding 7 (create 2 (codes "Home")) tables tables-IsConsistent

-- A name that differs by its case alone is taken.
case_taken : create_group folding 2 (codes " WORK") 7 tables ≡ err name_exists
unfolding create_group normalize_name name_key_of sanitize_postgres_text trim_space trim_left
    trim_right is_blank is_space text_eq
case_taken = refl

-- The aliases of a group that is deleted are in no group.
deleted :
    delete_group 1 7 tables
    ≡ ok (record {
      groups = [];
      aliases =
          record { id = 8; group_id = none; updated_at = 7 }
          ∷ record { id = 9; group_id = none; updated_at = 5 }
          ∷ [];
    })
unfolding delete_group update_where delete_where
deleted = refl
