-- ===== src/HttpServer/Skipping.antt =====
-- What `plainTextFromHTML` leaves out.
use icloud_api_mangobubu.Base.{
  ℕ, ◌+◌, ◌-◌, ◌≡◌, inl, inr, refl, sym, ap, ◌∙◌, subst, Bool, true, false, not, ◌&&◌, ◌||◌, List,
  [], ◌∷◌, ◌++◌, arith, ltb, leb, ◌==◌, if◌then◌else◌, Bool-cases, if-eq_true, if-eq_false, Text,
  codes, text_eq, text_eq_iff, text_eq_refl,
}
use icloud_api_mangobubu.HttpServer.Elements.{is_discarded_html_element, is_void_html_element}
use icloud_api_mangobubu.HttpServer.Attributes.{Attribute, html_element_is_hidden}
use icloud_api_mangobubu.HttpServer.Writer.{PlainTextWriter}
use icloud_api_mangobubu.HttpServer.HtmlText.{
  Token, text, start_tag, end_tag, other, Scan, open_element, start_element, end_element,
  read_token, read_tokens,
}

-- The variables inside an element that is left out.
abbrev pub skipping : PlainTextWriter → Text → ℕ → Scan
skipping w tag depth = record { writer = w; skipped_tag = tag; skipped_tag_depth = depth }

abbrev leaves_head : Text → Text → Bool
leaves_head tag name = text_eq tag (codes "head") && text_eq name (codes "body")

-- The tokens close each element `tag` that they open, no other one, and no body begins in a head.
unfoldable pub encloses : Text → ℕ → List Token → Bool
encloses tag depth [] = depth == 0
encloses tag depth (text t ∷ tokens) = encloses tag depth tokens
encloses tag depth (other ∷ tokens) = encloses tag depth tokens
encloses tag depth (start_tag name attributes ∷ tokens) =
    not (leaves_head tag name) && encloses tag (depth + (if text_eq name tag then 1 else 0)) tokens
encloses tag depth (end_tag name ∷ tokens) =
    leb (if text_eq name tag then 1 else 0) depth
    && encloses tag (depth - (if text_eq name tag then 1 else 0)) tokens

filled-same :
    (tag name : Text)
    → is_void_html_element tag ≡ false
    → text_eq name tag && not (is_void_html_element name) ≡ text_eq name tag
filled-same tag name filled = elim (Bool-cases (text_eq name tag)) [
  | inl e ↦
      let named : is_void_html_element name ≡ false =
        subst (λ n. is_void_html_element n ≡ false) (sym ((text_eq_iff name tag).0 e)) filled in
      grind arith
  | inr e ↦ grind arith
]

start_depth :
    (w : PlainTextWriter) (tag : Text) (depth : ℕ) (same : Bool)
    → (if same then skipping w tag (1 + depth + 1) else skipping w tag (1 + depth))
      ≡ skipping w tag (1 + (depth + (if same then 1 else 0)))
start_depth w tag depth true = ap (skipping w tag) (omega arith)
start_depth w tag depth false = ap (skipping w tag) (omega arith)

skip-start :
    (to_lower : Text → Text) (w : PlainTextWriter) (tag name : Text) (depth : ℕ)
    (attributes : List Attribute)
    → is_void_html_element tag ≡ false
    → leaves_head tag name ≡ false
    → start_element to_lower name attributes (skipping w tag (1 + depth))
      ≡ skipping w tag (1 + (depth + (if text_eq name tag then 1 else 0)))
unfolding start_element
skip-start to_lower w tag name depth attributes filled inside =
    if-eq_true (ltb 0 (1 + depth)) _ _ (ground arith)
    ∙ if-eq_false (leaves_head tag name) _ _ inside
    ∙ ap (λ same. if same then skipping w tag (1 + depth + 1) else skipping w tag (1 + depth))
        (filled-same tag name filled)
    ∙ start_depth w tag depth (text_eq name tag)

end_depth :
    (w : PlainTextWriter) (tag : Text) (depth : ℕ) (same : Bool)
    → leb (if same then 1 else 0) depth ≡ true
    → (if same
        then record (skipping w tag (1 + depth)) {
          skipped_tag = if 1 + depth == 1 then [] else tag;
          skipped_tag_depth = 1 + depth - 1;
        }
        else skipping w tag (1 + depth))
      ≡ skipping w tag (1 + (depth - (if same then 1 else 0)))
end_depth w tag depth false within = ap (skipping w tag) (omega arith)
end_depth w tag depth true within =
    ap (λ t. skipping w t (1 + depth - 1)) (if-eq_false (1 + depth == 1) [] tag (ground arith))
    ∙ ap (skipping w tag) (ground arith)

skip-end :
    (w : PlainTextWriter) (tag name : Text) (depth : ℕ)
    → leb (if text_eq name tag then 1 else 0) depth ≡ true
    → end_element name (skipping w tag (1 + depth))
      ≡ skipping w tag (1 + (depth - (if text_eq name tag then 1 else 0)))
unfolding end_element
skip-end w tag name depth within =
    if-eq_true (ltb 0 (1 + depth)) _ _ (ground arith)
    ∙ end_depth w tag depth (text_eq name tag) within

read_tokens-next :
    (to_lower : Text → Text) (token : Token) (tokens : List Token) (s next : Scan)
    → read_token to_lower token s ≡ (next, true)
    → read_tokens to_lower (token ∷ tokens) s ≡ read_tokens to_lower tokens next
unfolding read_tokens
read_tokens-next to_lower token tokens s next e =
    ap
      (λ (r : Scan × Bool). elim r.1 as (λ m. Scan) [
        | true ↦ read_tokens to_lower tokens r.0
        | false ↦ r.0
      ])
      e

read_token-text :
    (to_lower : Text → Text) (w : PlainTextWriter) (tag t : Text) (depth : ℕ)
    → read_token to_lower (text t) (skipping w tag (1 + depth)) ≡ (skipping w tag (1 + depth), true)
unfolding read_token
read_token-text to_lower w tag t depth = if-eq_false (1 + depth == 0) _ _ (ground arith)

read_token-start :
    (to_lower : Text → Text) (name : Text) (attributes : List Attribute) (s next : Scan)
    → start_element to_lower name attributes s ≡ next
    → read_token to_lower (start_tag name attributes) s ≡ (next, true)
unfolding read_token
read_token-start to_lower name attributes s next e = ap (λ n. (n, true)) e

read_token-end :
    (to_lower : Text → Text) (name : Text) (s next : Scan)
    → end_element name s ≡ next
    → read_token to_lower (end_tag name) s ≡ (next, true)
unfolding read_token
read_token-end to_lower name s next e = ap (λ n. (n, true)) e

read_token-other : (to_lower : Text → Text) (s : Scan) → read_token to_lower other s ≡ (s, true)
unfolding read_token
read_token-other to_lower s = refl

and-inv : (a b : Bool) → a && b ≡ true → (a ≡ true) × (b ≡ true)
and-inv true true h = (refl, refl)
and-inv true false h = absurd (ground arith)
and-inv false b h = absurd (ground arith)

skip-inner :
    (to_lower : Text → Text) (w : PlainTextWriter) (tag : Text) (depth : ℕ)
    (inner rest : List Token)
    → is_void_html_element tag ≡ false
    → encloses tag depth inner ≡ true
    → read_tokens to_lower (inner ++ rest) (skipping w tag (1 + depth))
      ≡ read_tokens to_lower rest (skipping w tag 1)
unfolding encloses
skip-inner to_lower w tag depth [] rest filled e =
    ap (λ d. read_tokens to_lower rest (skipping w tag d)) (ground arith)
skip-inner to_lower w tag depth (text t ∷ inner) rest filled e =
    read_tokens-next to_lower (text t) (inner ++ rest) _ _ (read_token-text to_lower w tag t depth)
    ∙ skip-inner to_lower w tag depth inner rest filled e
skip-inner to_lower w tag depth (other ∷ inner) rest filled e =
    read_tokens-next to_lower other (inner ++ rest) _ _
      (read_token-other to_lower (skipping w tag (1 + depth)))
    ∙ skip-inner to_lower w tag depth inner rest filled e
skip-inner to_lower w tag depth (start_tag name attributes ∷ inner) rest filled e =
    let (inside, later) = and-inv (not (leaves_head tag name)) _ e in
    let step = skip-start to_lower w tag name depth attributes filled (grind arith) in
    read_tokens-next to_lower (start_tag name attributes) (inner ++ rest) _ _
      (read_token-start to_lower name attributes _ _ step)
    ∙ skip-inner to_lower w tag (depth + (if text_eq name tag then 1 else 0)) inner rest filled
        later
skip-inner to_lower w tag depth (end_tag name ∷ inner) rest filled e =
    let (within, later) = and-inv (leb (if text_eq name tag then 1 else 0) depth) _ e in
    let step = skip-end w tag name depth within in
    read_tokens-next to_lower (end_tag name) (inner ++ rest) _ _
      (read_token-end to_lower name _ _ step)
    ∙ skip-inner to_lower w tag (depth - (if text_eq name tag then 1 else 0)) inner rest filled
        later

start-skips :
    (to_lower : Text → Text) (w : PlainTextWriter) (tag : Text) (attributes : List Attribute)
    → is_discarded_html_element tag || html_element_is_hidden to_lower attributes ≡ true
    → is_void_html_element tag ≡ false
    → start_element to_lower tag attributes (skipping w [] 0) ≡ skipping w tag 1
unfolding start_element open_element
start-skips to_lower w tag attributes hidden filled =
    if-eq_true (is_discarded_html_element tag || html_element_is_hidden to_lower attributes) _ _
      hidden
    ∙ if-eq_false (is_void_html_element tag) _ _ filled

end-resumes :
    (w : PlainTextWriter) (tag : Text) → end_element tag (skipping w tag 1) ≡ skipping w [] 0
unfolding end_element
end-resumes w tag = if-eq_true (text_eq tag tag) _ _ (text_eq_refl tag)

-- A discarded or hidden element that is not void, whose content closes each inner element of its
-- name and begins no body in a head, changes nothing up to its end tag: none of it is written.
pub read_tokens-skip :
    (to_lower : Text → Text) (w : PlainTextWriter) (tag : Text) (attributes : List Attribute)
    (inner rest : List Token)
    → is_discarded_html_element tag || html_element_is_hidden to_lower attributes ≡ true
    → is_void_html_element tag ≡ false
    → encloses tag 0 inner ≡ true
    → read_tokens to_lower
        (start_tag tag attributes ∷ (inner ++ end_tag tag ∷ rest))
        (skipping w [] 0)
      ≡ read_tokens to_lower rest (skipping w [] 0)
read_tokens-skip to_lower w tag attributes inner rest hidden filled closed =
    read_tokens-next to_lower (start_tag tag attributes) _ _ _ (
      read_token-start to_lower tag attributes _ _
        (start-skips to_lower w tag attributes hidden filled))
    ∙ skip-inner to_lower w tag 0 inner (end_tag tag ∷ rest) filled closed
    ∙ read_tokens-next to_lower (end_tag tag) rest _ _
        (read_token-end to_lower tag _ _ (end-resumes w tag))
