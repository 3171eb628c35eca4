-- ===== src/HttpServer/Attributes.antt =====
-- The attributes that hide an element from the reader (`htmlElementIsHidden` and
-- `inlineStyleHidesContent` of internal/httpserver/html_text.go).
use icloud_api_mangobubu.Base.{
  ℕ, ◌+◌, Bool, true, false, ◌&&◌, ◌||◌, Option, none, some, List, [], ◌∷◌, map, leb, ◌==◌,
  if◌then◌else◌, after, Text, codes, text_eq, trim_space,
}

pub record Attribute : Type 0 where
  pub key : Text
  pub value : Text

-- The strings functions of Go that the code calls on attributes.
abbrev pub ascii_lower : ℕ → ℕ
ascii_lower c = if leb 0x41 c && leb c 0x5a then c + 0x20 else c

abbrev prepend : ℕ → List Text → List Text
prepend c [] = (c ∷ []) ∷ []
prepend c (part ∷ parts) = (c ∷ part) ∷ parts

abbrev grown : ℕ → Option (Text × Text) → Option (Text × Text)
grown c none = none
grown c (some (before, after)) = some (c ∷ before, after)

-- `strings.SplitSeq(style, ";")`
unfoldable pub split_at : ℕ → Text → List Text
split_at sep [] = [] ∷ []
split_at sep (c ∷ cs) = let rest = split_at sep cs in if c == sep then [] ∷ rest else prepend c rest

-- `strings.Cut(declaration, ":")`
unfoldable pub cut : ℕ → Text → Option (Text × Text)
cut sep [] = none
cut sep (c ∷ cs) = let rest = cut sep cs in if c == sep then some ([], cs) else grown c rest

-- `strings.TrimSuffix`
unfoldable pub trim_suffix : Text → Text → Text
trim_suffix [] suffix = []
trim_suffix (c ∷ cs) suffix =
    let rest = trim_suffix cs suffix in if text_eq (c ∷ cs) suffix then [] else c ∷ rest

-- One declaration of `inlineStyleHidesContent`, with `strings.ToLower` as `to_lower`.
unfoldable pub declaration_hides : (Text → Text) → Text → Bool
declaration_hides to_lower declaration = elim (cut 0x3a declaration) [
  | none ↦ false
  | some (property, value) ↦
      let property = to_lower (trim_space property) in
      let lowered = to_lower (trim_space value) in
      let value = trim_space (trim_suffix lowered (codes "!important")) in
      (text_eq property (codes "display") && text_eq value (codes "none"))
      || (text_eq property (codes "visibility")
          && (text_eq value (codes "hidden") || text_eq value (codes "collapse")))
      || (text_eq property (codes "content-visibility") && text_eq value (codes "hidden"))
      || (text_eq property (codes "mso-hide") && text_eq value (codes "all"))
      || (text_eq property (codes "opacity") && text_eq value (codes "0"))
]

abbrev pub any_hides : (Text → Text) → List Text → Bool
any_hides to_lower [] = false
any_hides to_lower (d ∷ ds) = declaration_hides to_lower d || any_hides to_lower ds

-- `inlineStyleHidesContent`
unfoldable pub inline_style_hides_content : (Text → Text) → Text → Bool
inline_style_hides_content to_lower style = any_hides to_lower (split_at 0x3b style)

-- One turn of the loop of `htmlElementIsHidden`. The letters of "true" have no case but the two of
-- ASCII, so `strings.EqualFold` lowers these.
unfoldable pub attribute_hides : (Text → Text) → Bool → Attribute → Bool
attribute_hides to_lower hidden a =
    if text_eq a.key (codes "hidden")
    then true
    else if text_eq a.key (codes "aria-hidden")
    then hidden || text_eq (map ascii_lower (trim_space a.value)) (codes "true")
    else if text_eq a.key (codes "style")
    then hidden || inline_style_hides_content to_lower a.value
    else hidden

abbrev seen_hidden : (Text → Text) → Bool → List Attribute → Bool
seen_hidden to_lower hidden [] = hidden
seen_hidden to_lower hidden (a ∷ attributes) =
    seen_hidden to_lower (attribute_hides to_lower hidden a) attributes

-- `htmlElementIsHidden`
unfoldable pub html_element_is_hidden : (Text → Text) → List Attribute → Bool
html_element_is_hidden to_lower attributes = seen_hidden to_lower false attributes
