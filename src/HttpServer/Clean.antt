-- ===== src/HttpServer/Clean.antt =====
-- The text that a writer holds is one line of words at every moment.
use icloud_api_mangobubu.Base.{
  ℕ, ◌+◌, ◌≤◌, ◌≡◌, ◌⊎◌, inl, inr, refl, sym, ap, ◌∙◌, subst, Bool, true, false, not, ◌&&◌, ◌||◌,
  none, some, [], ◌∷◌, ◌++◌, arith, ltb, ◌==◌, if◌then◌else◌, Bool-cases, if-eq_true, if-eq_false,
  Text, is_space, rune_length, byte_length,
}
use mathlib.Core.List.{append_assoc}
use icloud_api_mangobubu.HttpServer.Writer.{
  PlainTextWriter, is_empty, new_writer, needs_separator, write_rune, write, space,
  single_line_plain_text,
}
use icloud_api_mangobubu.HttpServer.Words.{squeeze, fields, squeeze-fields}
use icloud_api_mangobubu.HttpServer.SingleLine.{
  byte_length-append, single_line_plain_text-fields, put, write_rune-put, write_rune-pending,
  write_rune-full, write-stop, write-next, closed,
}

-- A rest of words with single blanks between them, after a character of a word or after a blank.
unfoldable pub spaced : Bool → Text → Bool
spaced inside [] = inside
spaced inside (c ∷ cs) =
    if is_space c then inside && (c == 0x20 && spaced false cs) else spaced true cs

unfoldable pub IsSingleLine : Text → Type 0
IsSingleLine s = (is_empty s || spaced false s) ≡ true

pub squeeze-spaced :
    (s : Text)
    → (spaced true s ≡ true → squeeze false true s ≡ s)
      × (spaced false s ≡ true
          → ((pending : Bool) → squeeze pending false s ≡ s) × (squeeze true true s ≡ 0x20 ∷ s))
unfolding spaced squeeze
squeeze-spaced [] = (λ h. refl, λ h. absurd (ground arith))
squeeze-spaced (c ∷ cs) =
    let (inside, outside) = squeeze-spaced cs in
    (
      λ h. grind (arith, inside, outside),
      λ h. (λ pending. grind (arith, inside), grind (arith, inside)),
    )

-- A text that is one line already stays as it is.
pub single_line_plain_text-fixed : (s : Text) → IsSingleLine s → single_line_plain_text s ≡ s
unfolding IsSingleLine fields
single_line_plain_text-fixed [] h = single_line_plain_text-fields []
single_line_plain_text-fixed (c ∷ cs) h =
    single_line_plain_text-fields (c ∷ cs)
    ∙ sym ((squeeze-fields (c ∷ cs)).0 false)
    ∙ ((squeeze-spaced (c ∷ cs)).1 h).0 false

spaced-word :
    (inside : Bool) (s : Text) (c : ℕ)
    → is_space c ≡ false
    → spaced inside s ≡ true
    → spaced inside (s ++ c ∷ []) ≡ true
unfolding spaced
spaced-word inside [] c inked h = if-eq_false (is_space c) _ _ inked
spaced-word inside (x ∷ s) c inked h =
    let outer = spaced-word false s c inked in
    let inner = spaced-word true s c inked in ground (arith, outer, inner)

spaced-one : (c : ℕ) → is_space c ≡ false → spaced false (c ∷ []) ≡ true
unfolding spaced
spaced-one c inked = if-eq_false (is_space c) _ _ inked

is_space-blank : is_space 0x20 ≡ true
unfolding is_space
is_space-blank = refl

spaced-separated :
    (inside : Bool) (s : Text) (c : ℕ)
    → is_space c ≡ false
    → spaced inside s ≡ true
    → spaced inside (s ++ 0x20 ∷ c ∷ []) ≡ true
unfolding spaced
spaced-separated inside [] c inked h = let blank = is_space-blank in ground (arith, blank)
spaced-separated inside (x ∷ s) c inked h =
    let outer = spaced-separated false s c inked in
    let inner = spaced-separated true s c inked in ground (arith, outer, inner)

closed-IsSingleLine :
    (pending : Bool) (out : Text) (c : ℕ)
    → is_space c ≡ false
    → IsSingleLine out
    → IsSingleLine (closed (pending && not (is_empty out)) out ++ c ∷ [])
unfolding IsSingleLine
closed-IsSingleLine false [] c inked h = spaced-one c inked
closed-IsSingleLine true [] c inked h = spaced-one c inked
closed-IsSingleLine false (x ∷ s) c inked h = spaced-word false (x ∷ s) c inked h
closed-IsSingleLine true (x ∷ s) c inked h =
    ap (λ t. is_empty t || spaced false t) (append_assoc (x ∷ s) (0x20 ∷ []) (c ∷ []))
    ∙ spaced-separated false (x ∷ s) c inked h

-- The writer holds one line of words in at most the bytes that it may write.
unfoldable pub IsClean : ℕ → PlainTextWriter → Type 0
IsClean bound w = IsSingleLine w.output × (byte_length w.output ≤ bound) × (w.max_bytes ≡ bound)

pub new_writer-IsClean : (n : ℕ) → IsClean n (new_writer n)
unfolding IsClean IsSingleLine
new_writer-IsClean n = (refl, omega arith, refl)

ltb-within : (a b : ℕ) → ltb a b ≡ false → b ≤ a
ltb-within a b h = ground arith

byte_length-closed :
    (separator : Bool) (out : Text) (c : ℕ)
    → byte_length (closed separator out ++ c ∷ [])
      ≡ byte_length out + (if separator then 1 else 0) + rune_length c
byte_length-closed false out c = let sum = byte_length-append out (c ∷ []) in grind arith
byte_length-closed true out c =
    let inner = byte_length-append out (0x20 ∷ []) in
    let sum = byte_length-append (out ++ 0x20 ∷ []) (c ∷ []) in grind arith

write_rune-cases :
    (bound c : ℕ) (w : PlainTextWriter)
    → IsClean bound w
    → (write_rune c w ≡ none)
      ⊎ ((next : PlainTextWriter) × (write_rune c w ≡ some next) × IsClean bound next)
unfolding IsClean
write_rune-cases bound c w (line, room, same) = elim (Bool-cases (is_space c)) [
  | inl blank ↦ inr (_, write_rune-pending c w blank, (line, room, same))
  | inr inked ↦
      let separator : ℕ = if needs_separator w then 1 else 0 in
      elim (Bool-cases (ltb w.max_bytes (byte_length w.output + separator + rune_length c))) [
        | inl full ↦ inl (write_rune-full c w inked full)
        | inr fits ↦
            let fitted = ltb-within _ _ fits in
            inr (
              put c w,
              write_rune-put c w inked fitted,
              (
                closed-IsSingleLine w.pending_space w.output c inked line,
                subst (λ n. n ≤ bound) (sym (byte_length-closed (needs_separator w) w.output c))
                    (subst (λ n. byte_length w.output + separator + rune_length c ≤ n) same fitted),
                same,
              ),
            )
      ]
]

pub write-IsClean :
    (bound : ℕ) (s : Text) (w : PlainTextWriter) → IsClean bound w → IsClean bound (write s w).0
unfolding write
write-IsClean bound [] w clean = clean
write-IsClean bound (c ∷ cs) w clean = elim (write_rune-cases bound c w clean) [
  | inl stopped ↦ subst (λ r. IsClean bound r.0) (sym (write-stop c cs w stopped)) clean
  | inr (next, e, held) ↦
      subst (λ r. IsClean bound r.0) (sym (write-next c cs w next e))
        (write-IsClean bound cs next held)
]

pub space-IsClean : (bound : ℕ) (w : PlainTextWriter) → IsClean bound w → IsClean bound (space w)
unfolding IsClean space
space-IsClean bound w clean = elim (Bool-cases (is_empty w.output)) [
  | inl e ↦ subst (IsClean bound) (sym (if-eq_true (is_empty w.output) _ _ e)) clean
  | inr e ↦ subst (IsClean bound) (sym (if-eq_false (is_empty w.output) _ _ e)) clean
]
