-- ===== src/Domain/Imap.antt =====
-- internal/domain/imap.go. `to_lower` is `strings.ToLower`; `parse_ip` is `net.ParseIP`, with the
-- `String` of its result.
use icloud_api_mangobubu.Base.{
  ℕ, Bool, true, false, not, ◌&&◌, ◌||◌, Option, none, some, List, [], ◌∷◌, leb, ◌==◌,
  if◌then◌else◌, Result, ok, err, ◌>>◌, require, Text, codes, text_eq, is_space, trim_space,
  byte_length,
}
use icloud_api_mangobubu.Domain.Texts.{any_of, has_prefix, has_suffix, trim_suffix, split}
use icloud_api_mangobubu.Domain.Mailbox.{
  mailbox_type_icloud, is_empty, normalize_email, normalize_mailbox_type,
}

abbrev pub default_imap_host : Text
default_imap_host = codes "imap.mail.me.com"

abbrev pub default_imap_port : ℕ
default_imap_port = 993

pub data ImapError : Type 0 where
  host_empty host_too_long bad_port host_has_space host_bracketed bad_label : ImapError

abbrev pub is_bracket : ℕ → Bool
is_bracket c = c == 0x5b || c == 0x5d

abbrev pub is_host_char : ℕ → Bool
is_host_char c =
    (leb 0x61 c && leb c 0x7a)
    || (leb 0x41 c && leb c 0x5a)
    || (leb 0x30 c && leb c 0x39)
    || c == 0x2d

abbrev pub is_host_label : Text → Bool
is_host_label label =
    leb 1 (byte_length label)
    && leb (byte_length label) 63
    && not (has_prefix 0x2d label)
    && not (has_suffix 0x2d label)
    && not (any_of (λ c. not (is_host_char c)) label)

abbrev pub are_host_labels : List Text → Bool
are_host_labels [] = true
are_host_labels (label ∷ labels) = is_host_label label && are_host_labels labels

-- What is asked of a host and a port before the address is told apart from a name.
unfoldable pub check_endpoint : Text → ℕ → Result ImapError (Unit {0})
check_endpoint host port = do
  require (not (is_empty host)) host_empty
  require (leb (byte_length host) 253) host_too_long
  require (leb 1 port && leb port 65535) bad_port
  require (not (any_of is_space host)) host_has_space
  require (not (any_of is_bracket host)) host_bracketed

-- The columns of an account that name its mailbox.
pub record Account : Type 0 where
  pub email : Text
  pub mailbox_type : Text
  pub imap_host : Text
  pub imap_port : ℕ
  pub imap_username : Text

module _ (to_lower : Text → Text) (parse_ip : Text → Option Text) where
  -- A DNS name, with one dot at its end dropped.
  unfoldable pub normalize_name : Text → ℕ → Result ImapError (Text × ℕ)
  normalize_name raw port = do
    let host = trim_suffix 0x2e raw
    require (not (is_empty host)) host_empty
    require (leb (byte_length host) 253) host_too_long
    require (are_host_labels (split 0x2e host)) bad_label
    ok (to_lower host, port)

  -- `NormalizeIMAPEndpoint`
  unfoldable pub normalize_imap_endpoint : Text → ℕ → Result ImapError (Text × ℕ)
  unfolding check_endpoint
  normalize_imap_endpoint raw port =
      let host = trim_space raw in
      check_endpoint host port
      >> elim (parse_ip host) [ some ip ↦ ok (ip, port) | none ↦ normalize_name host port ]

  abbrev pub is_other_endpoint : Result ImapError (Text × ℕ) → Bool
  is_other_endpoint (err e) = false
  is_other_endpoint (ok (host, port)) =
      not (text_eq host default_imap_host) || not (port == default_imap_port)

  -- `UsesForwardedICloudIMAP`
  unfoldable pub uses_forwarded_icloud_imap : Account → Bool
  uses_forwarded_icloud_imap account =
      let email = normalize_email to_lower account.email in
      let username = normalize_email to_lower account.imap_username in
      let host = trim_space account.imap_host in
      let port = account.imap_port in
      if not (text_eq (normalize_mailbox_type to_lower account.mailbox_type) mailbox_type_icloud)
      then false
      else if not (is_empty email) && not (is_empty username) && not (text_eq email username)
      then true
      else is_other_endpoint (
          normalize_imap_endpoint (if is_empty host then default_imap_host else host)
            (if port == 0 then default_imap_port else port))
