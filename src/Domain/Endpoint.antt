-- ===== src/Domain/Endpoint.antt =====
-- The IMAP endpoint that `NormalizeIMAPEndpoint` gives.
use icloud_api_mangobubu.Base.{
  ℕ, ◌≤◌, ◌≡◌, refl, sym, ap, ◌∙◌, Bool, true, false, not, ◌&&◌, ◌||◌, Option, none, some, List, [],
  ◌∷◌, map, arith, leb, ◌==◌, Result, ok, err, is_ok, if◌then◌else◌, ◌>>◌, ok-injective,
  require-inv, length, Text, text_eq, trim_space, byte_length,
}
use icloud_api_mangobubu.Domain.Texts.{any_of, trim_suffix, split, ascii_lower, LowersAscii}
use icloud_api_mangobubu.Domain.Mailbox.{
  mailbox_type_icloud, is_empty, normalize_email, normalize_mailbox_type,
}
use icloud_api_mangobubu.Domain.Imap.{
  default_imap_host, default_imap_port, ImapError, host_empty, host_too_long, bad_label,
  is_host_char, are_host_labels, check_endpoint, Account, normalize_name, normalize_imap_endpoint,
  is_other_endpoint, uses_forwarded_icloud_imap,
}
use icloud_api_mangobubu.Domain.Plain.{
  any_of_mono, is_wide, ascii-All, byte_length-ascii, any_in, any_of-split, trim_space_twice,
}
use icloud_api_mangobubu.Domain.Suffix.{is_foreign}

-- Outside a-z, 0-9, the hyphen and the dot, in a text that may have capitals.
abbrev is_foreign_host : ℕ → Bool
is_foreign_host c = not (is_host_char c || c == 0x2e)

are_host_labels-chars :
    (labels : List Text) → are_host_labels labels ≡ true → any_in is_foreign_host labels ≡ false
are_host_labels-chars [] h = refl
are_host_labels-chars (label ∷ labels) h = ground (
  arith,
  are_host_labels-chars labels,
  any_of_mono is_foreign_host (λ c. not (is_host_char c)) label (λ c k. ground arith),
)

lower-is_foreign :
    (s : Text) → any_of is_foreign_host s ≡ false → any_of is_foreign (map ascii_lower s) ≡ false
lower-is_foreign [] h = refl
lower-is_foreign (c ∷ cs) h = ground (arith, lower-is_foreign cs)

length-map : (s : Text) → length (map ascii_lower s) ≡ length s
length-map [] = refl
length-map (c ∷ cs) = omega (arith, length-map cs)

-- The host and the port that an account states, or the defaults.
abbrev pub stated_host : Account → Text
stated_host account =
    if is_empty (trim_space account.imap_host) then default_imap_host else account.imap_host

abbrev pub stated_port : Account → ℕ
stated_port account = if account.imap_port == 0 then default_imap_port else account.imap_port

-- The account logs in under another address than its own.
abbrev pub has_other_name : (Text → Text) → Account → Bool
has_other_name to_lower account =
    not (is_empty (normalize_email to_lower account.email))
    && not (is_empty (normalize_email to_lower account.imap_username))
    && not (
        text_eq (normalize_email to_lower account.email)
          (normalize_email to_lower account.imap_username))

-- The host is the default in any spelling: with capitals, blanks around it, or a dot at its end.
abbrev pub spells_default : Text → Bool
spells_default host =
    text_eq (map ascii_lower (trim_suffix 0x2e (trim_space host))) default_imap_host

module _ (to_lower : Text → Text) (parse_ip : Text → Option Text) where
  check_endpoint-inv :
      (host : Text) (port : ℕ) (k : Result ImapError (Text × ℕ)) {r : Text × ℕ}
      → check_endpoint host port >> k ≡ ok r
      → (leb 1 port && leb port 65535 ≡ true) × (k ≡ ok r)
  unfolding check_endpoint
  check_endpoint-inv host port k e = ground arith

  normalize_name-inv :
      (raw : Text) (port : ℕ) {r : Text × ℕ}
      → normalize_name to_lower parse_ip raw port ≡ ok r
      → (any_of is_foreign_host (trim_suffix 0x2e raw) ≡ false)
        × (byte_length (trim_suffix 0x2e raw) ≤ 253)
        × ((to_lower (trim_suffix 0x2e raw), port) ≡ r)
  unfolding normalize_name
  normalize_name-inv raw port {r} e =
      let host = trim_suffix 0x2e raw in
      let (a, e1) = require-inv (not (is_empty host)) host_empty _ e in
      let (b, e2) = require-inv (leb (byte_length host) 253) host_too_long _ e1 in
      let (c, e3) = require-inv (are_host_labels (split 0x2e host)) bad_label _ e2 in
      (
        any_of-split is_foreign_host 0x2e host refl (are_host_labels-chars (split 0x2e host) c),
        ground arith,
        ok-injective (to_lower host, port) r e3,
      )

  -- If `to_lower` lowers ASCII texts as Go does: a host that is no IP address and is accepted keeps
  -- its port, which is in range; the result is the name in lower case with one dot at its end
  -- dropped. It has at most 253 bytes, all of them a-z, 0-9, hyphens and dots.
  pub normalize_imap_endpoint-name :
      (raw host : Text) (port out : ℕ)
      → LowersAscii to_lower
      → parse_ip (trim_space raw) ≡ none
      → normalize_imap_endpoint to_lower parse_ip raw port ≡ ok (host, out)
      → (out ≡ port)
        × (1 ≤ out)
        × (out ≤ 65535)
        × (host ≡ map ascii_lower (trim_suffix 0x2e (trim_space raw)))
        × (length host ≤ 253)
        × (any_of is_foreign host ≡ false)
  unfolding normalize_imap_endpoint
  normalize_imap_endpoint-name raw host port out lowers name e =
      let trimmed = trim_space raw in
      let base = trim_suffix 0x2e trimmed in
      let (ports, e1) = check_endpoint-inv trimmed port _ e in
      let (chars, short, same) = normalize_name-inv trimmed port (rw name at e1) in
      let same_port = ap (λ (r : Text × ℕ). r.1) same in
      let ascii = any_of_mono is_wide is_foreign_host base (λ c h. ground arith) chars in
      let lowered : host ≡ map ascii_lower base =
        sym (ap (λ (r : Text × ℕ). r.0) same) ∙ lowers base (ascii-All base ascii) in
      let few = byte_length-ascii base ascii in
      (
        sym same_port,
        ground arith,
        ground arith,
        lowered,
        rw lowered (omega (arith, short, few, length-map base)),
        rw lowered (lower-is_foreign base chars),
      )

  -- What the endpoint that an account states is told by.
  endpoint-spelling :
      (host : Text) (port : ℕ) (r : Result ImapError (Text × ℕ))
      → LowersAscii to_lower
      → parse_ip (trim_space host) ≡ none
      → normalize_imap_endpoint to_lower parse_ip host port ≡ r
      → is_other_endpoint to_lower parse_ip r
        ≡ (is_ok r && not (spells_default host && port == default_imap_port))
  endpoint-spelling host port (err e) lowers name h = refl
  endpoint-spelling host port (ok (out, q)) lowers name h =
      let (same_port, low, high, same_host, short, plain) =
        normalize_imap_endpoint-name host out port q lowers name h in
      rw (same_port, same_host) (ground arith)

  -- Blanks around a host make no difference.
  normalize-same :
      (host other : Text) (port : ℕ)
      → trim_space host ≡ trim_space other
      → normalize_imap_endpoint to_lower parse_ip host port
        ≡ normalize_imap_endpoint to_lower parse_ip other port
  unfolding normalize_imap_endpoint
  normalize-same host other port h =
      ap
        (λ (x : Text). check_endpoint x port >> elim (parse_ip x) [
          | some ip ↦ ok (ip, port)
          | none ↦ normalize_name to_lower parse_ip x port
        ])
        h

  normalize-trimmed :
      (b : Bool) (host : Text) (port : ℕ)
      → normalize_imap_endpoint to_lower parse_ip
          (if b then default_imap_host else trim_space host)
          port
        ≡ normalize_imap_endpoint to_lower parse_ip (if b then default_imap_host else host) port
  normalize-trimmed true host port = refl
  normalize-trimmed false host port =
      normalize-same (trim_space host) host port (trim_space_twice host)

  -- If `to_lower` lowers ASCII texts as Go does: an account whose host is no IP address reads a
  -- forwarded mailbox exactly if its mailbox is of the iCloud type, and it logs in under another
  -- address than its own or states an endpoint that is accepted and is not a spelling of the
  -- default. Blank and zero stand for the default host and port.
  pub uses_forwarded-exact :
      (account : Account)
      → LowersAscii to_lower
      → parse_ip (trim_space (stated_host account)) ≡ none
      → uses_forwarded_icloud_imap to_lower parse_ip account ≡ (
          text_eq (normalize_mailbox_type to_lower account.mailbox_type) mailbox_type_icloud
          && (has_other_name to_lower account
              || (is_ok (
                    normalize_imap_endpoint to_lower parse_ip
                      (stated_host account)
                      (stated_port account))
                  && not (
                      spells_default (stated_host account)
                      && stated_port account == default_imap_port))))
  unfolding uses_forwarded_icloud_imap
  uses_forwarded-exact account lowers name =
      rw
        (
          normalize-trimmed (is_empty (trim_space account.imap_host)) account.imap_host
              (stated_port account),
          endpoint-spelling (stated_host account) (stated_port account) _ lowers name refl,
        )
        (ground arith)
