-- ===== src/Store/Encoding.antt =====
-- internal/store/encoding.go and `truncate` of audit.go, over texts of code points: such a text is
-- valid UTF-8, which `strings.ToValidUTF8` leaves as it is.
use icloud_api_mangobubu.Base.{
  ℕ, zero, suc, ◌≤◌, ◌≡◌, refl, Bool, false, ◌||◌, [], ◌∷◌, arith, ltb, ◌==◌, if◌then◌else◌, length,
  Text,
}

-- The NUL that PostgreSQL refuses becomes U+FFFD.
unfoldable pub sanitize_postgres_text : Text → Text
sanitize_postgres_text [] = []
sanitize_postgres_text (c ∷ cs) = (if c == 0 then 0xfffd else c) ∷ sanitize_postgres_text cs

unfoldable pub take : ℕ → Text → Text
take zero s = []
take (suc n) [] = []
take (suc n) (c ∷ cs) = c ∷ take n cs

unfoldable pub truncate : Text → ℕ → Text
unfolding sanitize_postgres_text take
truncate value limit =
    if limit == 0
    then []
    else let runes = sanitize_postgres_text value in
      if ltb limit (length runes) then take limit runes else runes

pub length-take_le : (n : ℕ) (s : Text) → length (take n s) ≤ n
unfolding take
length-take_le zero s = omega arith
length-take_le (suc n) [] = omega arith
length-take_le (suc n) (c ∷ cs) = omega (arith, length-take_le n cs)

pub length-truncate_le : (value : Text) (limit : ℕ) → length (truncate value limit) ≤ limit
unfolding truncate
length-truncate_le value limit = ground (arith, length-take_le limit (sanitize_postgres_text value))

-- No NUL in a text.
abbrev pub has_nul : Text → Bool
has_nul [] = false
has_nul (c ∷ cs) = c == 0 || has_nul cs

has_nul-sanitize : (s : Text) → has_nul (sanitize_postgres_text s) ≡ false
unfolding sanitize_postgres_text
has_nul-sanitize [] = refl
has_nul-sanitize (c ∷ cs) = ground (arith, has_nul-sanitize cs)

has_nul-take : (n : ℕ) (s : Text) → has_nul s ≡ false → has_nul (take n s) ≡ false
unfolding take
has_nul-take zero s h = refl
has_nul-take (suc n) [] h = refl
has_nul-take (suc n) (c ∷ cs) h = ground (arith, has_nul-take n cs)

sanitize_idem : (s : Text) → has_nul s ≡ false → sanitize_postgres_text s ≡ s
unfolding sanitize_postgres_text
sanitize_idem [] h = refl
sanitize_idem (c ∷ cs) h = ground (arith, sanitize_idem cs)

truncate-clean : (value : Text) (limit : ℕ) → has_nul (truncate value limit) ≡ false
unfolding truncate
truncate-clean value limit = ground (
  arith,
  has_nul-sanitize value,
  has_nul-take limit (sanitize_postgres_text value) (has_nul-sanitize value),
)

truncate-fits : (s : Text) (n : ℕ) → length s ≤ n → has_nul s ≡ false → truncate s n ≡ s
unfolding truncate
truncate-fits [] n h k = ground arith
truncate-fits (c ∷ cs) n h k = ground (arith, sanitize_idem (c ∷ cs) k)

-- `truncate` gives a text within its limit and free of NUL, which does not change when it is
-- truncated again.
pub truncate-truncate :
    (value : Text) (limit : ℕ)
    → (length (truncate value limit) ≤ limit)
      × (has_nul (truncate value limit) ≡ false)
      × (truncate (truncate value limit) limit ≡ truncate value limit)
truncate-truncate value limit = (
  length-truncate_le value limit,
  truncate-clean value limit,
  truncate-fits (truncate value limit) limit (length-truncate_le value limit)
      (truncate-clean value limit),
)
