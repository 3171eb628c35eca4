-- ===== src/HttpServer/SingleLine.antt =====
-- `singleLinePlainText` gives the words of its source with one blank between them.
use icloud_api_mangobubu.Base.{
  ℕ, ◌+◌, ◌≤◌, ◌≡◌, inl, inr, refl, sym, ap, ◌∙◌, subst, Bool, true, false, not, ◌&&◌, Option, none,
  some, [], ◌∷◌, ◌++◌, arith, ltb, if◌then◌else◌, Bool-cases, if-eq_true, if-eq_false, Text,
  is_space, rune_length, byte_length,
}
use mathlib.Core.List.{append-nil, append_assoc}
use icloud_api_mangobubu.HttpServer.Writer.{
  PlainTextWriter, is_empty, new_writer, needs_separator, flush_separator, write_rune, write,
  single_line_plain_text,
}
use icloud_api_mangobubu.HttpServer.Words.{squeeze, fields, join, squeeze-fields}

rune_length_positive : (c : ℕ) → 1 ≤ rune_length c
rune_length_positive c = ground arith

pub byte_length-append : (a b : Text) → byte_length (a ++ b) ≡ byte_length a + byte_length b
byte_length-append [] b = omega arith
byte_length-append (c ∷ cs) b = grind (arith, byte_length-append cs b)

byte_length-squeeze_le :
    (pending started : Bool) (s : Text)
    → byte_length (squeeze pending started s)
      ≤ byte_length s + (if pending && started then 1 else 0)
unfolding squeeze
byte_length-squeeze_le pending started [] = omega arith
byte_length-squeeze_le pending started (c ∷ cs) =
    let positive = rune_length_positive c in
    let spaced = byte_length-squeeze_le true started cs in
    let written = byte_length-squeeze_le false true cs in ground arith

-- The writer after a character that fits.
abbrev pub put : ℕ → PlainTextWriter → PlainTextWriter
put c w = record w {
  output = (if needs_separator w then w.output ++ 0x20 ∷ [] else w.output) ++ c ∷ [];
  pending_space = false;
}

pub write_rune-put :
    (c : ℕ) (w : PlainTextWriter)
    → is_space c ≡ false
    → byte_length w.output + (if needs_separator w then 1 else 0) + rune_length c ≤ w.max_bytes
    → write_rune c w ≡ some (put c w)
unfolding write_rune flush_separator
write_rune-put c w inked fits =
    if-eq_false (is_space c) _ _ inked ∙ if-eq_false (ltb w.max_bytes _) _ _ (ground arith)

pub write_rune-pending :
    (c : ℕ) (w : PlainTextWriter)
    → is_space c ≡ true
    → write_rune c w ≡ some (record w { pending_space = true })
unfolding write_rune
write_rune-pending c w blank = if-eq_true (is_space c) _ _ blank

pub write_rune-full :
    (c : ℕ) (w : PlainTextWriter)
    → is_space c ≡ false
    → ltb w.max_bytes (byte_length w.output + (if needs_separator w then 1 else 0) + rune_length c)
      ≡ true
    → write_rune c w ≡ none
unfolding write_rune
write_rune-full c w inked full =
    if-eq_false (is_space c) _ _ inked ∙ if-eq_true (ltb w.max_bytes _) _ _ full

pub write-stop :
    (c : ℕ) (cs : Text) (w : PlainTextWriter)
    → write_rune c w ≡ none
    → write (c ∷ cs) w ≡ (w, false)
unfolding write
write-stop c cs w e =
    ap (λ (r : Option PlainTextWriter). elim r [ none ↦ (w, false) | some next ↦ write cs next ]) e

pub write-next :
    (c : ℕ) (cs : Text) (w w' : PlainTextWriter)
    → write_rune c w ≡ some w'
    → write (c ∷ cs) w ≡ write cs w'
unfolding write
write-next c cs w w' e =
    ap (λ (r : Option PlainTextWriter). elim r [ none ↦ (w, false) | some next ↦ write cs next ]) e

is_empty-append : (s : Text) (c : ℕ) → is_empty (s ++ c ∷ []) ≡ false
is_empty-append [] c = refl
is_empty-append (x ∷ xs) c = refl

squeeze-space :
    (pending started : Bool) (c : ℕ) (cs : Text)
    → is_space c ≡ true
    → squeeze pending started (c ∷ cs) ≡ squeeze true started cs
unfolding squeeze
squeeze-space pending started c cs blank = if-eq_true (is_space c) _ _ blank

pub squeeze-ink :
    (pending started : Bool) (c : ℕ) (cs : Text)
    → is_space c ≡ false
    → squeeze pending started (c ∷ cs)
      ≡ (if pending && started then 0x20 ∷ c ∷ squeeze false true cs else c ∷ squeeze false true cs)
unfolding squeeze
squeeze-ink pending started c cs inked = if-eq_false (is_space c) _ _ inked

-- The text behind another, with the blank that separates them.
abbrev behind : Bool → Text → Text
behind separator t = if separator then 0x20 ∷ t else t

abbrev pub closed : Bool → Text → Text
closed separator out = if separator then out ++ 0x20 ∷ [] else out

pub closed-append :
    (separator : Bool) (out : Text) (c : ℕ) (t : Text)
    → (closed separator out ++ c ∷ []) ++ t ≡ out ++ behind separator (c ∷ t)
closed-append false out c t = append_assoc out (c ∷ []) t
closed-append true out c t =
    append_assoc (out ++ 0x20 ∷ []) (c ∷ []) t ∙ append_assoc out (0x20 ∷ []) (c ∷ t)

pub closed-room :
    (separator : Bool) (out : Text) (c : ℕ) (t : Text) (bound : ℕ)
    → byte_length out + byte_length (behind separator (c ∷ t)) ≤ bound
    → (byte_length out + (if separator then 1 else 0) + rune_length c ≤ bound)
      × (byte_length (closed separator out ++ c ∷ []) + byte_length t ≤ bound)
closed-room false out c t bound room =
    let sum = byte_length-append out (c ∷ []) in (ground arith, ground arith)
closed-room true out c t bound room =
    let inner = byte_length-append out (0x20 ∷ []) in
    let sum = byte_length-append (out ++ 0x20 ∷ []) (c ∷ []) in (ground arith, ground arith)

-- The text that the writer holds after a text that fits.
pub write-squeeze :
    (s : Text) (w : PlainTextWriter)
    → byte_length w.output + byte_length (squeeze w.pending_space (not (is_empty w.output)) s)
      ≤ w.max_bytes
    → (write s w).0.output ≡ w.output ++ squeeze w.pending_space (not (is_empty w.output)) s
unfolding squeeze write
write-squeeze [] w fits = sym (append-nil w.output)
write-squeeze (c ∷ cs) w fits = elim (Bool-cases (is_space c)) [
  | inl blank ↦
      let step = write-next c cs w _ (write_rune-pending c w blank) in
      let same = squeeze-space w.pending_space (not (is_empty w.output)) c cs blank in
      let room : byte_length w.output + byte_length (squeeze true (not (is_empty w.output)) cs)
          ≤ w.max_bytes =
        subst (λ t. byte_length w.output + byte_length t ≤ w.max_bytes) same fits in
      ap (λ r. r.0.output) step
      ∙ write-squeeze cs (record w { pending_space = true }) room
      ∙ ap (λ t. w.output ++ t) (sym same)
  | inr inked ↦
      let same = squeeze-ink w.pending_space (not (is_empty w.output)) c cs inked in
      let room = subst (λ t. byte_length w.output + byte_length t ≤ w.max_bytes) same fits in
      let open_word = is_empty-append (closed (needs_separator w) w.output) c in
      let (fits_now, fits_later) =
        closed-room (needs_separator w) w.output c (squeeze false true cs) w.max_bytes room in
      let rest = write-squeeze cs (put c w) (
        subst
          (λ e. byte_length (put c w).output + byte_length (squeeze false (not e) cs) ≤ w.max_bytes)
          (sym open_word) fits_later) in
      ap (λ r. r.0.output) (write-next c cs w _ (write_rune-put c w inked fits_now))
      ∙ rest
      ∙ ap (λ e. (put c w).output ++ squeeze false (not e) cs) open_word
      ∙ closed-append (needs_separator w) w.output c (squeeze false true cs)
      ∙ ap (λ t. w.output ++ t) (sym same)
]

-- One line of plain text is the words of the source with one blank between them.
pub single_line_plain_text-fields : (s : Text) → single_line_plain_text s ≡ join (fields s)
unfolding single_line_plain_text
single_line_plain_text-fields s =
    let bound = byte_length-squeeze_le false false s in
    write-squeeze s (new_writer (byte_length s)) (omega arith) ∙ (squeeze-fields s).0 false
