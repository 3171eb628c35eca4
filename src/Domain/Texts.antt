-- ===== src/Domain/Texts.antt =====
-- What internal/domain uses of Go's package strings, on texts of code points.
use icloud_api_mangobubu.Base.{
  ℕ, ◌+◌, ◌<◌, ◌≡◌, Bool, false, ◌&&◌, ◌||◌, List, [], ◌∷◌, map, leb, ◌==◌, if◌then◌else◌, All,
  Text,
}

-- A code point that fits the test.
abbrev pub any_of : (ℕ → Bool) → Text → Bool
any_of p [] = false
any_of p (c ∷ cs) = p c || any_of p cs

abbrev pub has_prefix : ℕ → Text → Bool
has_prefix x [] = false
has_prefix x (c ∷ cs) = c == x

abbrev pub has_suffix : ℕ → Text → Bool
has_suffix x [] = false
has_suffix x (c ∷ []) = c == x
has_suffix x (c ∷ d ∷ cs) = has_suffix x (d ∷ cs)

-- `strings.TrimPrefix` of one character
unfoldable pub trim_prefix : ℕ → Text → Text
trim_prefix x [] = []
trim_prefix x (c ∷ cs) = if c == x then cs else c ∷ cs

-- `strings.TrimSuffix` of one character
unfoldable pub trim_suffix : ℕ → Text → Text
trim_suffix x [] = []
trim_suffix x (c ∷ []) = if c == x then [] else c ∷ []
trim_suffix x (c ∷ d ∷ cs) = c ∷ trim_suffix x (d ∷ cs)

-- `strings.Contains(s, xx)`
abbrev pub has_double : ℕ → Text → Bool
has_double x [] = false
has_double x (c ∷ []) = false
has_double x (c ∷ d ∷ cs) = (c == x && d == x) || has_double x (d ∷ cs)

-- The first part gets one more character.
abbrev pub put_first : ℕ → List Text → List Text
put_first c [] = (c ∷ []) ∷ []
put_first c (part ∷ parts) = (c ∷ part) ∷ parts

-- `strings.Split` at one character
unfoldable pub split : ℕ → Text → List Text
split x [] = [] ∷ []
split x (c ∷ cs) = let rest = split x cs in if c == x then [] ∷ rest else put_first c rest

-- `strings.ToLower` on an ASCII character
abbrev pub ascii_lower : ℕ → ℕ
ascii_lower c = if leb 65 c && leb c 90 then c + 32 else c

-- What the documentation of `strings.ToLower` says of ASCII texts.
abbrev pub LowersAscii : (Text → Text) → Type 0
LowersAscii to_lower = (s : Text) → All (λ c. c < 0x80) s → to_lower s ≡ map ascii_lower s
