-- ===== src/Store/Groups/Members.antt =====
-- Groups told apart, and aliases in groups that are there, through the statements on their rows.
use icloud_api_mangobubu.Base.{
  ℕ, ◌≡◌, inl, inr, refl, sym, ap, ◌∙◌, subst, Bool, true, false, not, ◌||◌, Option, none, some,
  List, [], ◌∷◌, ◌++◌, arith, ◌==◌, Bool-cases, if-both, All, Pairwise, Text, text_eq, text_eq_iff,
  text_eq_refl, update_key, update_where, delete_where, All-map, All-both, All-update_key,
}
use icloud_api_mangobubu.Store.Groups.{
  Group, Alias, Tables, is_group, in_group, any, taken, lock_group_for_move,
}

-- Groups with other numbers and other keys.
abbrev pub Apart : Group → Group → Type 0
Apart g h = ((g.id == h.id) ≡ false) × (text_eq g.name_key h.name_key ≡ false)

abbrev pub is_there : List Group → Option ℕ → Bool
is_there groups none = true
is_there groups (some id) = any (is_group id) groups

-- The group of an alias is there.
abbrev pub Placed : List Group → Alias → Type 0
Placed groups a = is_there groups a.group_id ≡ true

pub text_eq_sym : (a b : Text) → text_eq a b ≡ false → text_eq b a ≡ false
text_eq_sym a b h = elim (Bool-cases (text_eq b a)) [
  | inl same ↦ absurd (
      let e = subst (λ c. text_eq a c ≡ true) (sym ((text_eq_iff b a).0 same)) (text_eq_refl a) in
      ground arith)
  | inr other ↦ other
]

pub Apart-sym : (g h : Group) → Apart g h → Apart h g
Apart-sym g h (ids, keys) = (ground arith, text_eq_sym g.name_key h.name_key keys)

pub or-neither : (a b : Bool) → a || b ≡ false → (a ≡ false) × (b ≡ false)
or-neither true b h = absurd (ground arith)
or-neither false b h = (refl, h)

pub any-none {ℓ} :
    {A : Type ℓ} (p : A → Bool) (xs : List A) → any p xs ≡ false → All (λ x. p x ≡ false) xs
any-none p [] h = tt
any-none p (x ∷ xs) h =
    let (here, later) = or-neither (p x) (any p xs) h in (here, any-none p xs later)

any-append {ℓ} :
    {A : Type ℓ} (p : A → Bool) (xs : List A) (y : A)
    → any p xs ≡ true
    → any p (xs ++ y ∷ []) ≡ true
any-append p [] y h = absurd (ground arith)
any-append p (x ∷ xs) y h = let rest = any-append p xs y in ground arith

pub not-true : (b : Bool) → not b ≡ true → b ≡ false
not-true true h = sym h
not-true false h = refl

pub is_there-append :
    (groups : List Group) (g : Group) (o : Option ℕ)
    → is_there groups o ≡ true
    → is_there (groups ++ g ∷ []) o ≡ true
is_there-append groups g none h = refl
is_there-append groups g (some id) h = any-append (is_group id) groups g h

any-update_key :
    (id other : ℕ) (new : Group) (groups : List Group)
    → new.id ≡ id
    → any (is_group other) (update_key (is_group id) new groups) ≡ any (is_group other) groups
unfolding update_key
any-update_key id other new [] e = refl
any-update_key id other new (g ∷ gs) e =
    if-both (λ hs. any (is_group other) hs ≡ (is_group other g || any (is_group other) gs))
      (is_group id g) _ _
      (λ own. ap (λ n. n == other || any (is_group other) gs) (e ∙ sym (same_number g.id id own)))
      (λ foreign. ap (λ (b : Bool). is_group other g || b) (any-update_key id other new gs e))
  where
    same_number : (a b : ℕ) → (a == b) ≡ true → a ≡ b
    same_number a b h = ground arith

pub is_there-update_key :
    (id : ℕ) (new : Group) (groups : List Group) (o : Option ℕ)
    → new.id ≡ id
    → is_there groups o ≡ true
    → is_there (update_key (is_group id) new groups) o ≡ true
is_there-update_key id new groups none e h = refl
is_there-update_key id new groups (some other) e h = any-update_key id other new groups e ∙ h

new-Apart :
    (id : ℕ) (new h : Group)
    → new.id ≡ id
    → is_group id h ≡ false
    → taken id new.name_key h ≡ false
    → Apart new h
new-Apart id new h e foreign free =
    (ground arith, text_eq_sym h.name_key new.name_key (ground arith))

pub Pairwise-update_key :
    (id : ℕ) (new : Group) (groups : List Group)
    → new.id ≡ id
    → All (λ h. taken id new.name_key h ≡ false) groups
    → Pairwise Apart groups
    → Pairwise Apart (update_key (is_group id) new groups)
unfolding update_key
Pairwise-update_key id new [] e free apart = tt
Pairwise-update_key id new (g ∷ gs) e (own, free) (first, apart) =
    if-both (Pairwise Apart) (is_group id g) _ _
      (λ here. (
        All-map _ (Apart new) gs
            (λ (h : Group) k. new-Apart id new h e (let ids = k.0.0 in ground arith) k.1)
            (All-both _ _ gs first free),
        apart,
      ))
      (λ foreign. (
        All-update_key (Apart g) (is_group id) new gs
            (Apart-sym new g (new-Apart id new g e foreign own)) first,
        Pairwise-update_key id new gs e free apart,
      ))

All-delete_where {ℓ κ} :
    {A : Type ℓ} (P : A → Type κ) (p : A → Bool) (xs : List A)
    → All P xs
    → All P (delete_where p xs)
unfolding delete_where
All-delete_where P p [] h = tt
All-delete_where P p (x ∷ xs) h =
    if-both (All P) (p x) _ _ (λ gone. All-delete_where P p xs h.1)
      (λ kept. (h.0, All-delete_where P p xs h.1))

pub Pairwise-delete_where :
    (p : Group → Bool) (xs : List Group) → Pairwise Apart xs → Pairwise Apart (delete_where p xs)
unfolding delete_where
Pairwise-delete_where p [] h = tt
Pairwise-delete_where p (x ∷ xs) h =
    if-both (Pairwise Apart) (p x) _ _ (λ gone. Pairwise-delete_where p xs h.1)
      (λ kept. (All-delete_where (Apart x) p xs h.0, Pairwise-delete_where p xs h.1))

-- Rows that are changed where a test holds.
pub All-update_where {ℓ κ} :
    {A : Type ℓ} (P Q : A → Type κ) (p : A → Bool) (change : A → A) (xs : List A)
    → ((x : A) → P x → p x ≡ true → Q (change x))
    → ((x : A) → P x → p x ≡ false → Q x)
    → All P xs
    → All Q (update_where p change xs)
unfolding update_where
All-update_where P Q p change [] yes_case no_case h = tt
All-update_where P Q p change (x ∷ xs) yes_case no_case h = (
  if-both Q (p x) _ _ (yes_case x h.0) (no_case x h.0),
  All-update_where P Q p change xs yes_case no_case h.1,
)

any-delete_where :
    (id other : ℕ) (groups : List Group)
    → (other == id) ≡ false
    → any (is_group other) groups ≡ true
    → any (is_group other) (delete_where (is_group id) groups) ≡ true
unfolding delete_where
any-delete_where id other [] foreign h = h
any-delete_where id other (g ∷ gs) foreign h =
    if-both (λ hs. any (is_group other) hs ≡ true) (is_group id g) _ _
      (λ gone. any-delete_where id other gs foreign (ground arith))
      (λ kept. let rest = any-delete_where id other gs foreign in ground arith)

pub is_there-delete_where :
    (id : ℕ) (groups : List Group) (o : Option ℕ)
    → in_group id o ≡ false
    → is_there groups o ≡ true
    → is_there (delete_where (is_group id) groups) o ≡ true
is_there-delete_where id groups none foreign h = refl
is_there-delete_where id groups (some other) foreign h = any-delete_where id other groups foreign h

pub is_there-lock :
    (group : Option ℕ) (t : Tables)
    → lock_group_for_move group t ≡ true
    → is_there t.groups group ≡ true
is_there-lock none t h = refl
is_there-lock (some id) t h = h
