-- ===== src/HttpServer/Elements.antt =====
-- The elements and attributes that `plainTextFromHTML` tells apart
-- (internal/httpserver/html_text.go).
use icloud_api_mangobubu.Base.{Bool, false, ◌||◌, List, [], ◌∷◌, Text, codes, text_eq}

abbrev pub named : List Text → Text → Bool
named [] name = false
named (n ∷ names) name = text_eq n name || named names name

abbrev discarded : List Text
discarded =
    codes "head"
    ∷ codes "iframe"
    ∷ codes "noembed"
    ∷ codes "noframes"
    ∷ codes "plaintext"
    ∷ codes "script"
    ∷ codes "style"
    ∷ codes "template"
    ∷ codes "textarea"
    ∷ codes "title"
    ∷ codes "xmp"
    ∷ []

-- `isDiscardedHTMLElement`
unfoldable pub is_discarded_html_element : Text → Bool
is_discarded_html_element name = named discarded name

abbrev void_elements : List Text
void_elements =
    codes "area"
    ∷ codes "base"
    ∷ codes "br"
    ∷ codes "col"
    ∷ codes "embed"
    ∷ codes "hr"
    ∷ codes "img"
    ∷ codes "input"
    ∷ codes "link"
    ∷ codes "meta"
    ∷ codes "param"
    ∷ codes "source"
    ∷ codes "track"
    ∷ codes "wbr"
    ∷ []

-- `isVoidHTMLElement`
unfoldable pub is_void_html_element : Text → Bool
is_void_html_element name = named void_elements name

abbrev blocks : List Text
blocks =
    codes "address"
    ∷ codes "article"
    ∷ codes "aside"
    ∷ codes "blockquote"
    ∷ codes "body"
    ∷ codes "caption"
    ∷ codes "center"
    ∷ codes "dd"
    ∷ codes "details"
    ∷ codes "dialog"
    ∷ codes "dir"
    ∷ codes "div"
    ∷ codes "dl"
    ∷ codes "dt"
    ∷ codes "fieldset"
    ∷ codes "figcaption"
    ∷ codes "figure"
    ∷ codes "footer"
    ∷ codes "form"
    ∷ codes "h1"
    ∷ codes "h2"
    ∷ codes "h3"
    ∷ codes "h4"
    ∷ codes "h5"
    ∷ codes "h6"
    ∷ codes "header"
    ∷ codes "hgroup"
    ∷ codes "hr"
    ∷ codes "html"
    ∷ codes "legend"
    ∷ codes "li"
    ∷ codes "main"
    ∷ codes "menu"
    ∷ codes "nav"
    ∷ codes "ol"
    ∷ codes "optgroup"
    ∷ codes "option"
    ∷ codes "p"
    ∷ codes "pre"
    ∷ codes "section"
    ∷ codes "summary"
    ∷ codes "table"
    ∷ codes "tbody"
    ∷ codes "tfoot"
    ∷ codes "thead"
    ∷ codes "tr"
    ∷ codes "ul"
    ∷ []

-- `isBlockHTMLElement`
unfoldable pub is_block_html_element : Text → Bool
is_block_html_element name = named blocks name
