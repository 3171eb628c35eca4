-- ===== src/Domain/Mailbox.antt =====
-- internal/domain/mailbox.go and internal/domain/normalize.go. `to_lower` is `strings.ToLower`.
use icloud_api_mangobubu.Base.{
  ℕ, Bool, true, false, not, ◌&&◌, ◌||◌, List, [], ◌∷◌, ltb, leb, ◌==◌, if◌then◌else◌, Result, ok,
  ◌>>◌, require, Text, codes, text_eq, trim_space, byte_length,
}
use icloud_api_mangobubu.Domain.Texts.{
  any_of, has_prefix, has_suffix, trim_prefix, has_double, split,
}

abbrev pub mailbox_type_icloud : Text
mailbox_type_icloud = codes "icloud"

abbrev pub mailbox_type_custom : Text
mailbox_type_custom = codes "custom"

abbrev pub is_empty : Text → Bool
is_empty [] = true
is_empty (c ∷ cs) = false

pub data SuffixError : Type 0 where
  invalid_email_suffix : SuffixError

-- `strings.ContainsAny(suffix, " \t\r\n@")`
abbrev pub is_forbidden : ℕ → Bool
is_forbidden c = c == 0x20 || c == 0x9 || c == 0xd || c == 0xa || c == 0x40

-- The characters of a label: a-z, 0-9 and the hyphen.
abbrev pub is_label_char : ℕ → Bool
is_label_char c = (leb 0x61 c && leb c 0x7a) || (leb 0x30 c && leb c 0x39) || c == 0x2d

-- One turn of the loop over the labels.
abbrev pub is_valid_label : Text → Bool
is_valid_label label =
    not (is_empty label)
    && leb (byte_length label) 63
    && not (has_prefix 0x2d label)
    && not (has_suffix 0x2d label)
    && not (any_of (λ c. not (is_label_char c)) label)

abbrev pub are_valid : List Text → Bool
are_valid [] = true
are_valid (label ∷ labels) = is_valid_label label && are_valid labels

-- The checks of a suffix that is trimmed and in lower case.
unfoldable pub check_suffix : Text → Result SuffixError Text
check_suffix suffix = do
  require (not (is_empty suffix || ltb 241 (byte_length suffix) || any_of is_forbidden suffix))
      invalid_email_suffix
  require (not (has_prefix 0x2e suffix || has_suffix 0x2e suffix || has_double 0x2e suffix))
      invalid_email_suffix
  require (are_valid (split 0x2e suffix)) invalid_email_suffix
  ok suffix

module _ (to_lower : Text → Text) where
  -- `NormalizeEmail`
  unfoldable pub normalize_email : Text → Text
  normalize_email value = to_lower (trim_space value)

  -- `NormalizeMailboxType`
  unfoldable pub normalize_mailbox_type : Text → Text
  normalize_mailbox_type value =
      let kind = to_lower (trim_space value) in
      if text_eq kind mailbox_type_custom
      then mailbox_type_custom
      else if text_eq kind mailbox_type_icloud || is_empty kind
      then mailbox_type_icloud
      else []

  -- `NormalizeEmailSuffix`
  unfoldable pub normalize_email_suffix : Text → Result SuffixError Text
  unfolding check_suffix
  normalize_email_suffix value = check_suffix (trim_prefix 0x40 (to_lower (trim_space value)))
