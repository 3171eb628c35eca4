-- ===== src/Store/Deletion/Order.antt =====
-- The FIFO order of the work table, and what an UPDATE of one row does to it.
use icloud_api_mangobubu.Base.{
  ℕ, ◌≤◌, ◌<◌, ◌≡◌, inl, inr, Bool, true, false, not, ◌||◌, none, some, List, [], ◌∷◌, arith,
  Bool-cases, All, Text, text_eq_iff, first_where, update_key, first_where-key, All-map,
  All-update_key, All-first_where, first_where-update_key-none,
}
use icloud_api_mangobubu.Store.Deletion.Types.{AliasDeletionWork, is_active, is_running}
use icloud_api_mangobubu.Store.Deletion.Snapshot.{has_id}
use icloud_api_mangobubu.Store.Deletion.Queue.{precedes, is_head}

-- Every row of running work is the first active one of its Apple identity.
abbrev pub head_if_running : List AliasDeletionWork → AliasDeletionWork → Bool
head_if_running works w = not (is_running w.status) || is_head works w

abbrev pub HeadsRun : List AliasDeletionWork → Type 0
HeadsRun works = All (λ w. head_if_running works w ≡ true) works

-- The primary key.
abbrev pub UniqueIds : List AliasDeletionWork → Type 0
UniqueIds [] = Unit {0}
UniqueIds (w ∷ ws) = (first_where (has_id w.id) ws ≡ none) × UniqueIds ws

-- Sequence numbers grow along the table.
abbrev pub Increasing : List AliasDeletionWork → Type 0
Increasing [] = Unit {0}
Increasing (w ∷ ws) = All (λ v. w.sequence < v.sequence) ws × Increasing ws

pub record InOrder (works : List AliasDeletionWork) (sequence : ℕ) : Type 0 where
  pub unique : UniqueIds works
  pub increasing : Increasing works
  pub heads : HeadsRun works
  pub issued : All (λ w. w.sequence ≤ sequence) works

-- The table holds a row with the ID, the place and the identity of `w`, which fits `Q`.
abbrev pub Held : (AliasDeletionWork → Type 0) → List AliasDeletionWork → AliasDeletionWork → Type 0
Held Q works w =
    (old : AliasDeletionWork) × (first_where (has_id w.id) works ≡ some old)
    × (old.sequence ≡ w.sequence)
    × (old.apple_subject ≡ w.apple_subject)
    × Q old

abbrev pub Stored : List AliasDeletionWork → AliasDeletionWork → Type 0
Stored = Held (λ _. Unit {0})

abbrev pub StoredActive : List AliasDeletionWork → AliasDeletionWork → Type 0
StoredActive = Held (λ old. is_active old.status ≡ true)

has_id-none-update_key :
    (id : Text) (new : AliasDeletionWork) (works : List AliasDeletionWork)
    → first_where (has_id id) works ≡ none
    → first_where (has_id id) (update_key (has_id new.id) new works) ≡ none
has_id-none-update_key id new works h =
    first_where-update_key-none (has_id id) (has_id new.id) new works h (λ old e k. ground (
      arith,
      first_where-key (has_id new.id) works e,
      text_eq_iff old.id new.id,
      text_eq_iff old.id id,
      text_eq_iff new.id id,
    ))

UniqueIds-update :
    (new : AliasDeletionWork) (works : List AliasDeletionWork)
    → UniqueIds works
    → UniqueIds (update_key (has_id new.id) new works)
unfolding update_key
UniqueIds-update new [] u = tt
UniqueIds-update new (w ∷ ws) u = elim (Bool-cases (has_id new.id w)) [
  | inl e ↦ rw e (ground (arith, text_eq_iff w.id new.id), u.1)
  | inr e ↦ rw e (has_id-none-update_key w.id new ws u.0, UniqueIds-update new ws u.1)
]

Increasing-update :
    (key : AliasDeletionWork → Bool) (new old : AliasDeletionWork) (works : List AliasDeletionWork)
    → first_where key works ≡ some old
    → old.sequence ≡ new.sequence
    → Increasing works
    → Increasing (update_key key new works)
unfolding update_key first_where
Increasing-update key new old [] f e s = tt
Increasing-update key new old (w ∷ ws) f e s = elim (Bool-cases (key w)) [
  | inl k ↦ rw k (
    All-map (λ v. w.sequence < v.sequence) (λ v. new.sequence < v.sequence) ws (λ v h. ground arith)
        s.0,
    s.1,
  )
  | inr k ↦ rw k (
    All-update_key (λ v. w.sequence < v.sequence) key new ws
        (rw (← e)
          (All-first_where (λ v. w.sequence < v.sequence) key ws {r = old} (ground arith) s.0))
        s.0,
    Increasing-update key new old ws (ground arith) e s.1,
  )
]

-- No row gets a new predecessor.
abbrev pub KeepsHeads : List AliasDeletionWork → List AliasDeletionWork → Type 0
KeepsHeads works works' = (w : AliasDeletionWork) → is_head works w ≡ true → is_head works' w ≡ true

pub KeepsHeads-inactive :
    (key : AliasDeletionWork → Bool) (new : AliasDeletionWork) (works : List AliasDeletionWork)
    → is_active new.status ≡ false
    → KeepsHeads works (update_key key new works)
KeepsHeads-inactive key new works h w head = ground (
  arith,
  first_where-update_key-none (precedes w) key new works (none_of head) (λ old e k. ground arith),
)
  where
    none_of : is_head works w ≡ true → first_where (precedes w) works ≡ none
    none_of e = ground arith

pub KeepsHeads-active :
    (key : AliasDeletionWork → Bool) (new old : AliasDeletionWork) (works : List AliasDeletionWork)
    → first_where key works ≡ some old
    → old.sequence ≡ new.sequence
    → old.apple_subject ≡ new.apple_subject
    → is_active old.status ≡ true
    → KeepsHeads works (update_key key new works)
KeepsHeads-active key new old works f e g a w head = ground (
  arith,
  first_where-update_key-none (precedes w) key new works (none_of head)
      (λ found h k. same found h k),
)
  where
    none_of : is_head works w ≡ true → first_where (precedes w) works ≡ none
    none_of e = ground arith

    same :
        (found : AliasDeletionWork)
        → first_where key works ≡ some found
        → precedes w found ≡ false
        → precedes w new ≡ false
    same found h k = rw (← e, ← g) (ground arith)

-- An UPDATE that keeps a row's place and identity keeps the order, if it takes nobody's turn.
pub InOrder-update :
    (new : AliasDeletionWork) (works : List AliasDeletionWork) (sequence : ℕ)
    → Stored works new
    → KeepsHeads works (update_key (has_id new.id) new works)
    → head_if_running (update_key (has_id new.id) new works) new ≡ true
    → InOrder works sequence
    → InOrder (update_key (has_id new.id) new works) sequence
InOrder-update new works sequence (old, f, e, g, _) keeps turn o = record {
  unique = UniqueIds-update new works o.unique;
  increasing = Increasing-update (has_id new.id) new old works f e o.increasing;
  heads =
      All-update_key (λ w. head_if_running updated w ≡ true) (has_id new.id) new works turn
        (All-map (λ w. head_if_running works w ≡ true) (λ w. head_if_running updated w ≡ true) works
          (λ w h. ground (arith, keeps w)) o.heads);
  issued =
      All-update_key (λ w. w.sequence ≤ sequence) (has_id new.id) new works
        (rw (← e) (All-first_where (λ w. w.sequence ≤ sequence) (has_id new.id) works f o.issued))
        o.issued;
}
  where
    updated : List AliasDeletionWork
    updated = update_key (has_id new.id) new works
