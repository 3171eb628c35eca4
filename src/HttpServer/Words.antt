-- ===== src/HttpServer/Words.antt =====
-- What a writer with room does, as one function of the text, and the words of a text.
use icloud_api_mangobubu.Base.{
  ℕ, ◌≡◌, refl, Bool, true, false, not, ◌&&◌, List, [], ◌∷◌, ◌++◌, arith, if◌then◌else◌, Text,
  is_space,
}

-- The text that is written, behind a pending space or not, and behind other words or not.
unfoldable pub squeeze : Bool → Bool → Text → Text
squeeze pending started [] = []
squeeze pending started (c ∷ cs) =
    if is_space c
    then squeeze true started cs
    else if pending && started
    then 0x20 ∷ c ∷ squeeze false true cs
    else c ∷ squeeze false true cs

abbrev pub starts_word : Text → Bool
starts_word [] = false
starts_word (c ∷ cs) = not (is_space c)

-- A character before the words that follow it.
abbrev pub grow : ℕ → Bool → List Text → List Text
grow c joined [] = (c ∷ []) ∷ []
grow c joined (word ∷ words) = if joined then (c ∷ word) ∷ words else (c ∷ []) ∷ word ∷ words

-- The words between the spaces: `strings.Fields`.
unfoldable pub fields : Text → List Text
fields [] = []
fields (c ∷ cs) =
    let words = fields cs in if is_space c then words else grow c (starts_word cs) words

-- `strings.Join(words, " ")`
abbrev pub join : List Text → Text
join [] = []
join (word ∷ []) = word
join (word ∷ next ∷ words) = word ++ 0x20 ∷ join (next ∷ words)

abbrev pub joined_behind : List Text → Text
joined_behind [] = []
joined_behind (word ∷ words) = 0x20 ∷ join (word ∷ words)

join-grow :
    (c : ℕ) (joined : Bool) (words : List Text)
    → join (grow c joined words) ≡ c ∷ (if joined then join words else joined_behind words)
join-grow c true [] = refl
join-grow c false [] = refl
join-grow c false (word ∷ words) = refl
join-grow c true (word ∷ []) = refl
join-grow c true (word ∷ next ∷ words) = refl

joined_behind-grow :
    (c : ℕ) (joined : Bool) (words : List Text)
    → joined_behind (grow c joined words) ≡ 0x20 ∷ join (grow c joined words)
joined_behind-grow c true [] = refl
joined_behind-grow c false [] = refl
joined_behind-grow c false (word ∷ words) = refl
joined_behind-grow c true (word ∷ words) = refl

pub squeeze-fields :
    (s : Text)
    → ((pending : Bool) → squeeze pending false s ≡ join (fields s))
      × (squeeze true true s ≡ joined_behind (fields s))
      × (squeeze false true s
          ≡ (if starts_word s then join (fields s) else joined_behind (fields s)))
unfolding squeeze fields
squeeze-fields [] = (λ pending. refl, refl, refl)
squeeze-fields (c ∷ cs) =
    let (fresh, behind, inside) = squeeze-fields cs in
    let grown = join-grow c (starts_word cs) (fields cs) in
    let pushed = joined_behind-grow c (starts_word cs) (fields cs) in
    (
      λ pending. grind (arith, fresh pending, behind, inside, grown, pushed),
      grind (arith, fresh true, behind, inside, grown, pushed),
      grind (arith, fresh true, behind, inside, grown, pushed),
    )
