-- ===== src/Domain/Suffix.antt =====
-- The suffix that `NormalizeEmailSuffix` gives.
use icloud_api_mangobubu.Base.{
  ℕ, ◌≤◌, ◌≡◌, refl, ap, ◌∙◌, Bool, true, false, not, ◌||◌, List, [], ◌∷◌, arith, ltb, ◌==◌, ok,
  ok-injective, require-inv, length, Text, is_space, trim_space, byte_length,
}
use icloud_api_mangobubu.Domain.Texts.{
  any_of, has_prefix, has_suffix, trim_prefix, has_double, split, LowersAscii,
}
use icloud_api_mangobubu.Domain.Mailbox.{
  is_empty, invalid_email_suffix, is_forbidden, is_label_char, are_valid, check_suffix,
  normalize_email_suffix,
}
use icloud_api_mangobubu.Domain.Plain.{
  trim_space-none, any_of_mono, is_wide, is_upper, ascii-All, byte_length-ascii, map-ascii_lower,
  any_in, any_of-split,
}

-- Outside a-z, 0-9, the hyphen and the dot.
abbrev pub is_foreign : ℕ → Bool
is_foreign c = not (is_label_char c || c == 0x2e)

are_valid-chars : (labels : List Text) → are_valid labels ≡ true → any_in is_foreign labels ≡ false
are_valid-chars [] h = refl
are_valid-chars (label ∷ labels) h = ground (
  arith,
  are_valid-chars labels,
  any_of_mono is_foreign (λ c. not (is_label_char c)) label (λ c k. ground arith),
)

check_suffix-inv :
    (s : Text) {out : Text}
    → check_suffix s ≡ ok out
    → (s ≡ out) × (any_of is_foreign s ≡ false) × (byte_length s ≤ 241)
unfolding check_suffix
check_suffix-inv s {out} e =
    let (a, e1) =
      require-inv (not (is_empty s || ltb 241 (byte_length s) || any_of is_forbidden s))
        invalid_email_suffix _ e in
    let (b, e2) =
      require-inv (not (has_prefix 0x2e s || has_suffix 0x2e s || has_double 0x2e s))
        invalid_email_suffix _ e1 in
    let (c, e3) = require-inv (are_valid (split 0x2e s)) invalid_email_suffix _ e2 in
    (
      ok-injective s out e3,
      any_of-split is_foreign 0x2e s refl (are_valid-chars (split 0x2e s) c),
      ground arith,
    )

trim_prefix-foreign : (s : Text) → any_of is_foreign s ≡ false → trim_prefix 0x40 s ≡ s
unfolding trim_prefix
trim_prefix-foreign [] h = refl
trim_prefix-foreign (c ∷ cs) h = ground arith

-- If `to_lower` lowers ASCII texts as Go does: a suffix that is accepted is canonical. It is in
-- lower case, has only a-z, 0-9, hyphens and dots and at most 241 bytes, and is accepted again as
-- it is, also behind an `@`.
pub normalize_email_suffix-canonical :
    (to_lower : Text → Text) (value out : Text)
    → LowersAscii to_lower
    → normalize_email_suffix to_lower value ≡ ok out
    → (any_of is_foreign out ≡ false)
      × (length out ≤ 241)
      × (normalize_email_suffix to_lower out ≡ ok out)
      × (normalize_email_suffix to_lower (0x40 ∷ out) ≡ ok out)
unfolding normalize_email_suffix trim_prefix is_space
normalize_email_suffix-canonical to_lower value out lowers e =
    let (same, plain, short) =
      check_suffix-inv (trim_prefix 0x40 (to_lower (trim_space value))) e in
    let clean : any_of is_foreign out ≡ false = rw (← same) plain in
    let again : check_suffix out ≡ ok out = rw same at e in
    let few : byte_length out ≤ 241 = rw (← same) short in
    let wide = any_of_mono is_wide is_foreign out (λ c h. ground arith) clean in
    let upper = any_of_mono is_upper is_foreign out (λ c h. ground arith) clean in
    let space = any_of_mono is_space is_foreign out (λ c h. ground arith) clean in
    let kept = lowers out (ascii-All out wide) ∙ map-ascii_lower out upper in
    let kept_at =
      lowers (0x40 ∷ out) (omega arith, ascii-All out wide)
      ∙ ap (λ (s : Text). 0x40 ∷ s) (map-ascii_lower out upper) in
    (
      clean,
      omega (arith, few, byte_length-ascii out wide),
      rw (trim_space-none out space, kept, trim_prefix-foreign out clean) again,
      rw (trim_space-none (0x40 ∷ out) space, kept_at) again,
    )
