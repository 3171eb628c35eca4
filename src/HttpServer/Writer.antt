-- ===== src/HttpServer/Writer.antt =====
-- `plainTextWriter` of internal/httpserver/html_text.go, over texts of code points: the bytes that
-- it decodes are valid UTF-8, whose characters all have an encoding.
use icloud_api_mangobubu.Base.{
  ℕ, ◌+◌, Bool, true, false, not, ◌&&◌, Option, none, some, [], ◌∷◌, ◌++◌, ltb, if◌then◌else◌, Text,
  is_space, rune_length, byte_length,
}

pub record PlainTextWriter : Type 0 where
  pub output : Text
  pub max_bytes : ℕ
  pub pending_space : Bool

abbrev pub is_empty : Text → Bool
is_empty [] = true
is_empty (c ∷ cs) = false

-- `newPlainTextWriter`
abbrev pub new_writer : ℕ → PlainTextWriter
new_writer max_bytes = record { output = []; max_bytes = max_bytes; pending_space = false }

-- `w.pendingSpace && w.output.Len() > 0`
abbrev pub needs_separator : PlainTextWriter → Bool
needs_separator w = w.pending_space && not (is_empty w.output)

-- `flushSeparator`
unfoldable pub flush_separator : PlainTextWriter → PlainTextWriter
flush_separator w = record w {
  output = if needs_separator w then w.output ++ 0x20 ∷ [] else w.output;
  pending_space = false;
}

-- One turn of the loop of `write`; `none` is its `return false`.
unfoldable pub write_rune : ℕ → PlainTextWriter → Option PlainTextWriter
unfolding flush_separator
write_rune c w =
    let separator : ℕ = if needs_separator w then 1 else 0 in
    let flushed = flush_separator w in
    if is_space c
    then some (record w { pending_space = true })
    else if ltb w.max_bytes (byte_length w.output + separator + rune_length c)
    then none
    else some (record flushed { output = flushed.output ++ c ∷ [] })

unfoldable pub write : Text → PlainTextWriter → PlainTextWriter × Bool
write [] w = (w, true)
write (c ∷ cs) w = elim (write_rune c w) [ none ↦ (w, false) | some w' ↦ write cs w' ]

unfoldable pub space : PlainTextWriter → PlainTextWriter
space w = if is_empty w.output then w else record w { pending_space = true }

-- `singleLinePlainText`
unfoldable pub single_line_plain_text : Text → Text
single_line_plain_text source = (write source (new_writer (byte_length source))).0.output
