-- ===== src/HttpServer/HtmlText.antt =====
-- `plainTextFromHTML` of internal/httpserver/html_text.go. The tokens are those that the HTML
-- tokenizer of golang.org/x/net/html gives before its error token, the end of the source.
use icloud_api_mangobubu.Base.{
  ℕ, ◌+◌, ◌-◌, Bool, true, false, not, ◌&&◌, ◌||◌, List, [], ◌∷◌, ltb, ◌==◌, if◌then◌else◌, Text,
  codes, text_eq, byte_length,
}
use icloud_api_mangobubu.HttpServer.Elements.{
  is_discarded_html_element, is_void_html_element, is_block_html_element,
}
use icloud_api_mangobubu.HttpServer.Attributes.{Attribute, html_element_is_hidden}
use icloud_api_mangobubu.HttpServer.Writer.{PlainTextWriter, new_writer, write, space}

-- What `tokenizer.Next` and the calls behind it give. A self-closing tag is a start tag to the code.
pub data Token : Type 0 where
  text : Text → Token
  start_tag : (name : Text) → List Attribute → Token
  end_tag : (name : Text) → Token
  other : Token

-- The variables of `plainTextFromHTML`.
pub record Scan : Type 0 where
  pub writer : PlainTextWriter
  pub skipped_tag : Text
  pub skipped_tag_depth : ℕ

abbrev pub new_scan : ℕ → Scan
new_scan bytes = record { writer = new_writer bytes; skipped_tag = []; skipped_tag_depth = 0 }

-- The two calls of `text.space` for a cell and for a block.
unfoldable pub separate : Text → PlainTextWriter → PlainTextWriter
separate tag w =
    let w = if text_eq tag (codes "td") || text_eq tag (codes "th") then space w else w in
    if is_block_html_element tag then space w else w

-- A start tag outside an element that is left out.
unfoldable pub open_element : (Text → Text) → Text → List Attribute → Scan → Scan
open_element to_lower tag attributes s =
    if is_discarded_html_element tag || html_element_is_hidden to_lower attributes
    then if is_void_html_element tag
      then s
      else record s { skipped_tag = tag; skipped_tag_depth = 1 }
    else if text_eq tag (codes "br")
    then record s { writer = space s.writer }
    else record s { writer = separate tag s.writer }

-- The case of a start tag.
unfoldable pub start_element : (Text → Text) → Text → List Attribute → Scan → Scan
start_element to_lower tag attributes s =
    if ltb 0 s.skipped_tag_depth
    then if text_eq s.skipped_tag (codes "head") && text_eq tag (codes "body")
      then open_element to_lower tag attributes
          (record s { skipped_tag = []; skipped_tag_depth = 0 })
      else if text_eq tag s.skipped_tag && not (is_void_html_element tag)
      then record s { skipped_tag_depth = s.skipped_tag_depth + 1 }
      else s
    else open_element to_lower tag attributes s

-- The case of an end tag.
unfoldable pub end_element : Text → Scan → Scan
end_element tag s =
    if ltb 0 s.skipped_tag_depth
    then if text_eq tag s.skipped_tag
      then record s {
        skipped_tag = if s.skipped_tag_depth == 1 then [] else s.skipped_tag;
        skipped_tag_depth = s.skipped_tag_depth - 1;
      }
      else s
    else record s { writer = separate tag s.writer }

-- One turn of the loop; `false` is a return of the text written so far.
unfoldable pub read_token : (Text → Text) → Token → Scan → Scan × Bool
read_token to_lower (text t) s =
    if s.skipped_tag_depth == 0
    then (record s { writer = (write t s.writer).0 }, (write t s.writer).1)
    else (s, true)
read_token to_lower (start_tag name attributes) s = (start_element to_lower name attributes s, true)
read_token to_lower (end_tag name) s = (end_element name s, true)
read_token to_lower other s = (s, true)

unfoldable pub read_tokens : (Text → Text) → List Token → Scan → Scan
read_tokens to_lower [] s = s
read_tokens to_lower (token ∷ tokens) s =
    let (next, more) = read_token to_lower token s in
    elim more [ true ↦ read_tokens to_lower tokens next | false ↦ next ]

-- `plainTextFromHTML`
unfoldable pub plain_text_from_html :
    (tokenize : Text → List Token) → (to_lower : Text → Text) → Text → Text
plain_text_from_html tokenize to_lower source =
    (read_tokens to_lower (tokenize source) (new_scan (byte_length source))).writer.output
