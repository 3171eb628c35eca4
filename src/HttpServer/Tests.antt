-- ===== src/HttpServer/Tests.antt =====
-- The rendering of mail on concrete sources.
use icloud_api_mangobubu.Base.{
  ◌≤◌, ◌≡◌, refl, List, [], ◌∷◌, ◌++◌, map, Text, codes, text_eq, is_space, is_blank, trim_left,
  trim_right, trim_space, byte_length,
}
use icloud_api_mangobubu.HttpServer.Elements.{
  is_discarded_html_element, is_void_html_element, is_block_html_element,
}
use icloud_api_mangobubu.HttpServer.Attributes.{
  Attribute, ascii_lower, split_at, cut, trim_suffix, html_element_is_hidden,
  inline_style_hides_content, declaration_hides, attribute_hides,
}
use icloud_api_mangobubu.HttpServer.Writer.{
  new_writer, flush_separator, write_rune, write, space, single_line_plain_text,
}
use icloud_api_mangobubu.HttpServer.Words.{fields}
use icloud_api_mangobubu.HttpServer.SingleLine.{single_line_plain_text-fields}
use icloud_api_mangobubu.HttpServer.Clean.{IsSingleLine}
use icloud_api_mangobubu.HttpServer.HtmlText.{
  Token, text, start_tag, end_tag, separate, open_element, start_element, end_element, read_token,
  read_tokens, plain_text_from_html,
}
use icloud_api_mangobubu.HttpServer.Skipping.{skipping, encloses, read_tokens-skip}
use icloud_api_mangobubu.HttpServer.Rendered.{plain_text_from_html-IsSingleLine}

abbrev spaced_source : Text
spaced_source = codes "  Your code:  \n 123 "

single_line_plain_text-fields_example :
    single_line_plain_text spaced_source ≡ codes "Your code: 123"
unfolding fields is_space
single_line_plain_text-fields_example = single_line_plain_text-fields spaced_source

abbrev hidden_attribute : Attribute
hidden_attribute = record {
  key = codes "style";
  value = codes "color: red; DISPLAY : None !important";
}

abbrev hidden_inner : List Token
hidden_inner =
    start_tag (codes "div") [] ∷ text (codes "no") ∷ end_tag (codes "div") ∷ text (codes "no") ∷ []

-- A source with an element that is left out, in the tokens that a tokenizer gives for it.
abbrev page : Text → List Token
page source =
    text (codes " Hi ")
    ∷ start_tag (codes "div") (hidden_attribute ∷ [])
    ∷ (hidden_inner ++ end_tag (codes "div") ∷ start_tag (codes "br") [] ∷ text source ∷ [])

render_page : plain_text_from_html page (map ascii_lower) (codes "123") ≡ codes "Hi"
unfolding plain_text_from_html read_tokens read_token start_element open_element end_element
    separate is_discarded_html_element is_void_html_element is_block_html_element
    html_element_is_hidden attribute_hides inline_style_hides_content declaration_hides split_at cut
    trim_suffix trim_space trim_left trim_right is_blank is_space text_eq write write_rune
    flush_separator space
render_page = refl

plain_text_from_html-IsSingleLine_example :
    IsSingleLine (plain_text_from_html page (map ascii_lower) (codes "123456"))
    × (single_line_plain_text (plain_text_from_html page (map ascii_lower) (codes "123456"))
        ≡ plain_text_from_html page (map ascii_lower) (codes "123456"))
    × (byte_length (plain_text_from_html page (map ascii_lower) (codes "123456")) ≤ 6)
plain_text_from_html-IsSingleLine_example =
    plain_text_from_html-IsSingleLine page (map ascii_lower) (codes "123456")

read_tokens-skip_example :
    read_tokens
      (map ascii_lower)
      (start_tag (codes "div") (hidden_attribute ∷ [])
        ∷ (hidden_inner ++ end_tag (codes "div") ∷ text (codes "shown") ∷ []))
      (skipping (new_writer 90) [] 0)
    ≡ read_tokens (map ascii_lower) (text (codes "shown") ∷ []) (skipping (new_writer 90) [] 0)
unfolding is_discarded_html_element is_void_html_element html_element_is_hidden attribute_hides
    inline_style_hides_content declaration_hides split_at cut trim_suffix trim_space trim_left
    trim_right is_blank is_space text_eq encloses
read_tokens-skip_example =
    read_tokens-skip (map ascii_lower) (new_writer 90) (codes "div") (hidden_attribute ∷ [])
      hidden_inner (text (codes "shown") ∷ []) refl refl refl
