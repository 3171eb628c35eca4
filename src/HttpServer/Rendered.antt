-- ===== src/HttpServer/Rendered.antt =====
-- What `plainTextFromHTML` has written at the end of its source.
use icloud_api_mangobubu.Base.{
  ℕ, ◌≤◌, ◌≡◌, Bool, true, false, not, ◌&&◌, ◌||◌, List, [], ◌∷◌, ltb, ◌==◌, if◌then◌else◌, Text,
  codes, text_eq, byte_length,
}
use icloud_api_mangobubu.HttpServer.Elements.{
  is_discarded_html_element, is_void_html_element, is_block_html_element,
}
use icloud_api_mangobubu.HttpServer.Attributes.{Attribute, html_element_is_hidden}
use icloud_api_mangobubu.HttpServer.Writer.{PlainTextWriter, single_line_plain_text}
use icloud_api_mangobubu.HttpServer.Clean.{
  IsSingleLine, single_line_plain_text-fixed, IsClean, new_writer-IsClean, write-IsClean,
  space-IsClean,
}
use icloud_api_mangobubu.HttpServer.HtmlText.{
  Token, text, start_tag, end_tag, other, Scan, new_scan, separate, open_element, start_element,
  end_element, read_token, read_tokens, plain_text_from_html,
}

-- A property of both branches.
either {ℓ κ} :
    {A : Type ℓ} (P : A → Type κ) (b : Bool) (x y : A) → P x → P y → P (if b then x else y)
either P true x y p q = p
either P false x y p q = q

separate-IsClean :
    (bound : ℕ) (tag : Text) (w : PlainTextWriter)
    → IsClean bound w
    → IsClean bound (separate tag w)
unfolding separate
separate-IsClean bound tag w clean =
    let spaced =
      either (IsClean bound) (text_eq tag (codes "td") || text_eq tag (codes "th")) _ _
        (space-IsClean bound w clean) clean in
    either (IsClean bound) (is_block_html_element tag) _ _ (space-IsClean bound _ spaced) spaced

open_element-IsClean :
    (bound : ℕ) (to_lower : Text → Text) (tag : Text) (attributes : List Attribute) (s : Scan)
    → IsClean bound s.writer
    → IsClean bound (open_element to_lower tag attributes s).writer
unfolding open_element
open_element-IsClean bound to_lower tag attributes s clean =
    let gap = space-IsClean bound s.writer clean in
    let parted = separate-IsClean bound tag s.writer clean in
    either (λ (s : Scan). IsClean bound s.writer)
      (is_discarded_html_element tag || html_element_is_hidden to_lower attributes) _ _
      (either (λ (s : Scan). IsClean bound s.writer) (is_void_html_element tag) _ _ clean clean)
      (either (λ (s : Scan). IsClean bound s.writer) (text_eq tag (codes "br")) _ _ gap parted)

start_element-IsClean :
    (bound : ℕ) (to_lower : Text → Text) (tag : Text) (attributes : List Attribute) (s : Scan)
    → IsClean bound s.writer
    → IsClean bound (start_element to_lower tag attributes s).writer
unfolding start_element
start_element-IsClean bound to_lower tag attributes s clean =
    let opened = open_element-IsClean bound to_lower tag attributes s clean in
    let left =
      open_element-IsClean bound to_lower tag attributes
        (record s { skipped_tag = []; skipped_tag_depth = 0 }) clean in
    either (λ (s : Scan). IsClean bound s.writer) (ltb 0 s.skipped_tag_depth) _ _
      (either (λ (s : Scan). IsClean bound s.writer)
        (text_eq s.skipped_tag (codes "head") && text_eq tag (codes "body")) _ _ left
        (either (λ (s : Scan). IsClean bound s.writer)
          (text_eq tag s.skipped_tag && not (is_void_html_element tag)) _ _ clean clean))
      opened

end_element-IsClean :
    (bound : ℕ) (tag : Text) (s : Scan)
    → IsClean bound s.writer
    → IsClean bound (end_element tag s).writer
unfolding end_element
end_element-IsClean bound tag s clean =
    let parted = separate-IsClean bound tag s.writer clean in
    either (λ (s : Scan). IsClean bound s.writer) (ltb 0 s.skipped_tag_depth) _ _
      (either (λ (s : Scan). IsClean bound s.writer) (text_eq tag s.skipped_tag) _ _ clean clean)
      parted

read_token-IsClean :
    (bound : ℕ) (to_lower : Text → Text) (token : Token) (s : Scan)
    → IsClean bound s.writer
    → IsClean bound (read_token to_lower token s).0.writer
unfolding read_token
read_token-IsClean bound to_lower (text t) s clean =
    let written = write-IsClean bound t s.writer clean in
    either (λ (r : Scan × Bool). IsClean bound r.0.writer) (s.skipped_tag_depth == 0) _ _ written
      clean
read_token-IsClean bound to_lower (start_tag name attributes) s clean =
    start_element-IsClean bound to_lower name attributes s clean
read_token-IsClean bound to_lower (end_tag name) s clean = end_element-IsClean bound name s clean
read_token-IsClean bound to_lower other s clean = clean

read_tokens-IsClean :
    (bound : ℕ) (to_lower : Text → Text) (tokens : List Token) (s : Scan)
    → IsClean bound s.writer
    → IsClean bound (read_tokens to_lower tokens s).writer
unfolding read_tokens
read_tokens-IsClean bound to_lower [] s clean = clean
read_tokens-IsClean bound to_lower (token ∷ tokens) s clean =
    let next = read_token-IsClean bound to_lower token s clean in
    let rest = read_tokens-IsClean bound to_lower tokens (read_token to_lower token s).0 next in
    elim (read_token to_lower token s).1
      as (λ more.
        IsClean bound
          (elim more as (λ m. Scan) [
            | true ↦ read_tokens to_lower tokens (read_token to_lower token s).0
            | false ↦ (read_token to_lower token s).0
          ]).writer) [ true ↦ rest | false ↦ next ]

-- The plain text of a source, whatever its tokens are, is one line of words with single blanks
-- between them, which singleLinePlainText does not change, and has at most the bytes of the source.
pub plain_text_from_html-IsSingleLine :
    (tokenize : Text → List Token) (to_lower : Text → Text) (source : Text)
    → IsSingleLine (plain_text_from_html tokenize to_lower source)
      × (single_line_plain_text (plain_text_from_html tokenize to_lower source)
          ≡ plain_text_from_html tokenize to_lower source)
      × (byte_length (plain_text_from_html tokenize to_lower source) ≤ byte_length source)
unfolding plain_text_from_html IsClean
plain_text_from_html-IsSingleLine tokenize to_lower source =
    let bound = byte_length source in
    let (line, room, same) =
      read_tokens-IsClean bound to_lower (tokenize source) (new_scan bound)
        (new_writer-IsClean bound) in
    (line, single_line_plain_text-fixed _ line, room)
