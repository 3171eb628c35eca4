-- ===== src/Domain/Tests.antt =====
-- The theorems on settings at concrete values.
use icloud_api_mangobubu.Base.{
  ◌≤◌, ◌≡◌, true, not, ◌&&◌, ◌||◌, is_ok, ◌==◌, refl, false, Option, none, ◌∷◌, map, ok, length,
  Text, codes, text_eq, is_space, trim_space,
}
use icloud_api_mangobubu.Domain.Texts.{
  any_of, trim_prefix, trim_suffix, split, ascii_lower, LowersAscii,
}
use icloud_api_mangobubu.Domain.Mailbox.{
  check_suffix, mailbox_type_icloud, normalize_email, normalize_mailbox_type,
  normalize_email_suffix,
}
use icloud_api_mangobubu.Domain.Imap.{
  default_imap_port, check_endpoint, Account, normalize_name, normalize_imap_endpoint,
  uses_forwarded_icloud_imap,
}
use icloud_api_mangobubu.Domain.Suffix.{is_foreign, normalize_email_suffix-canonical}
use icloud_api_mangobubu.Domain.Endpoint.{
  normalize_imap_endpoint-name, uses_forwarded-exact, has_other_name, stated_host, stated_port,
  spells_default,
}

abbrev lower : Text → Text
lower s = map ascii_lower s

lower-LowersAscii : LowersAscii lower
lower-LowersAscii s h = refl

-- No text is an address.
abbrev no_ip : Text → Option Text
no_ip s = none

abbrev suffix : Text
suffix = codes "mail.example-1.org"

normalize_email_suffix-canonical_example :
    (any_of is_foreign suffix ≡ false)
    × (length suffix ≤ 241)
    × (normalize_email_suffix lower suffix ≡ ok suffix)
    × (normalize_email_suffix lower (0x40 ∷ suffix) ≡ ok suffix)
unfolding normalize_email_suffix check_suffix trim_space is_space trim_prefix split
normalize_email_suffix-canonical_example =
    normalize_email_suffix-canonical lower (codes " @Mail.Example-1.org") suffix lower-LowersAscii
      refl

normalize_imap_endpoint-name_example :
    (default_imap_port ≡ 993)
    × (1 ≤ default_imap_port)
    × (default_imap_port ≤ 65535)
    × (suffix ≡ map ascii_lower (trim_suffix 0x2e (trim_space (codes " Mail.example-1.org."))))
    × (length suffix ≤ 253)
    × (any_of is_foreign suffix ≡ false)
unfolding normalize_imap_endpoint normalize_name check_endpoint trim_space is_space trim_suffix
    split
normalize_imap_endpoint-name_example =
    normalize_imap_endpoint-name lower no_ip (codes " Mail.example-1.org.") suffix 993
      default_imap_port lower-LowersAscii refl refl

abbrev plain_account : Account
plain_account = record {
  email = codes "Me@icloud.com";
  mailbox_type = codes "iCloud";
  imap_host = codes " ";
  imap_port = 0;
  imap_username = codes "me@icloud.com";
}

uses_forwarded-exact_example : uses_forwarded_icloud_imap lower no_ip plain_account ≡ (
    text_eq (normalize_mailbox_type lower plain_account.mailbox_type) mailbox_type_icloud
    && (has_other_name lower plain_account
        || (is_ok (
              normalize_imap_endpoint lower no_ip
                (stated_host plain_account)
                (stated_port plain_account))
            && not (
                spells_default (stated_host plain_account)
                && stated_port plain_account == default_imap_port))))
uses_forwarded-exact_example = uses_forwarded-exact lower no_ip plain_account lower-LowersAscii refl

-- The default endpoint and the account's own address.
plain_unforwarded : uses_forwarded_icloud_imap lower no_ip plain_account ≡ false
unfolding uses_forwarded_icloud_imap normalize_email normalize_mailbox_type text_eq trim_space
    is_space normalize_imap_endpoint normalize_name check_endpoint trim_suffix split
plain_unforwarded = refl

-- The same endpoint under the address of another mailbox.
abbrev forwarding_account : Account
forwarding_account = record plain_account { imap_username = codes "me@example.org" }

other_name_forwarded : uses_forwarded_icloud_imap lower no_ip forwarding_account ≡ true
unfolding uses_forwarded_icloud_imap normalize_email normalize_mailbox_type text_eq trim_space
    is_space
other_name_forwarded = refl
