-- ===== src/Secrets.antt =====
-- internal/backup/secrets.go: the writer that redacts the log of the tools, line by line.
pub mod Hidden
pub mod Chunks
pub mod Transcript
use mongodb_backup_s.Base.{
  ℕ, zero, suc, ◌+◌, ◌-◌, Bool, true, false, ◌||◌, not, List, [], ◌∷◌, ◌++◌, Bytes, codes, length,
  ltb, ◌==◌, between, Option, none, some, Result, ok, err, if◌then◌else◌, is_empty, has_prefix,
  contains_byte,
}
use mongodb_backup_s.Config.{Config}
use mongodb_backup_s.Config.Uri.{mongo_uri_options}
use mongodb_backup_s.Url.{Url, Userinfo, query_escape, path_escape}

-- `strings.ReplaceAll(s, old, new)` for an `old` that is not empty; `skip` counts the bytes that
-- are left of a match.
unfoldable pub replace_from : Bytes → Bytes → ℕ → Bytes → Bytes
replace_from old new skip [] = []
replace_from old new (suc skip) (c ∷ s) = replace_from old new skip s
replace_from old new zero (c ∷ s) =
    let matched = new ++ replace_from old new (length old - 1) s in
    let copied = c ∷ replace_from old new zero s in
    if has_prefix (c ∷ s) old then matched else copied

unfoldable pub replace_all : Bytes → Bytes → Bytes → Bytes
unfolding replace_from has_prefix
replace_all s old new = replace_from old new 0 s

-- `[^\s"']`
is_uri_byte : ℕ → Bool
is_uri_byte c = not (c == 9 || c == 10 || c == 12 || c == 13 || c == 32 || c == b'"' || c == b'\'')

uri_run : Bytes → ℕ
uri_run [] = 0
uri_run (c ∷ s) = let rest = suc (uri_run s) in if is_uri_byte c then rest else 0

after_prefix : ℕ → Bytes → Bytes
after_prefix zero s = s
after_prefix (suc n) [] = []
after_prefix (suc n) (c ∷ s) = after_prefix n s

-- The length of a match of `uriInLog` at the front of a text, or 0.
uri_length : Bytes → ℕ
uri_length s =
    let scheme : ℕ =
      if has_prefix s (codes "mongodb://")
      then 10
      else if has_prefix s (codes "mongodb+srv://")
      then 14
      else 0 in
    let run = uri_run (after_prefix scheme s) in
    if scheme == 0 then 0 else if run == 0 then 0 else scheme + run

replace_uris_from : ℕ → Bytes → Bytes
replace_uris_from skip [] = []
replace_uris_from (suc skip) (c ∷ s) = replace_uris_from skip s
replace_uris_from zero (c ∷ s) =
    let found = uri_length (c ∷ s) in
    let matched = codes "[REDACTED URI]" ++ replace_uris_from (found - 1) s in
    let copied = c ∷ replace_uris_from zero s in if found == 0 then copied else matched

-- `uriInLog.ReplaceAllString(s, "[REDACTED URI]")`
unfoldable pub replace_uris : Bytes → Bytes
unfolding is_uri_byte uri_run after_prefix uri_length replace_uris_from has_prefix
replace_uris s = replace_uris_from 0 s

abbrev pub redacted : Bytes
redacted = codes "[REDACTED]"

-- The loop over the secrets.
unfoldable pub redact : List Bytes → Bytes → Bytes
redact [] s = s
redact (secret ∷ secrets) s =
    redact secrets (if is_empty secret then s else replace_all s secret redacted)

-- secretWriter. What `dst` has received is its contents; its errors are ignored by the code.
pub record SecretWriter : Type 0 where
  pub dst : Bytes
  pub pending : Bytes
  pub secrets : List Bytes
  pub dropping : Bool

-- The forms of a password that may stand in a log: itself, and what QueryEscape and PathEscape give.
unfoldable pub forms_of : Option Bytes → List Bytes
unfolding query_escape path_escape
forms_of none = []
forms_of (some p) = if is_empty p then [] else p ∷ query_escape p ∷ path_escape p ∷ []

unfoldable pub password_forms : Option Userinfo → List Bytes
unfolding forms_of
password_forms none = []
password_forms (some u) = forms_of u.password

unfoldable pub secrets_of_uri : Result Url → List Bytes
unfolding password_forms
secrets_of_uri (err e) = []
secrets_of_uri (ok u) = password_forms u.user

-- `newSecretWriter`
unfoldable pub new_secret_writer : Config → SecretWriter
unfolding secrets_of_uri mongo_uri_options
new_secret_writer c = record {
  dst = [];
  pending = [];
  secrets = c.uri ∷ c.passphrase ∷ secrets_of_uri (mongo_uri_options c.uri);
  dropping = false;
}

abbrev pub line_limit : ℕ
line_limit = 65536

abbrev pub omitted : Bytes
omitted = codes "[oversized tool log line omitted]\n"

unfoldable pub emit : SecretWriter → Bytes → SecretWriter
emit w line = record w { dst = w.dst ++ replace_uris (redact w.secrets line) }

-- The parts that the loop of `Write` cuts off the front: each with its newline, if it has one.
abbrev push : ℕ → List (Bytes × Bool) → List (Bytes × Bool)
push c [] = (c ∷ [], false) ∷ []
push c ((part, ends) ∷ parts) = (c ∷ part, ends) ∷ parts

unfoldable pub cut_lines : Bytes → List (Bytes × Bool)
cut_lines [] = []
cut_lines (c ∷ p) =
    let rest = cut_lines p in if c == b'\n' then (c ∷ [], true) ∷ rest else push c rest

-- The first half of a round: the part joins the pending line, or the line is dropped.
unfoldable pub gather : SecretWriter → Bytes → SecretWriter
gather w part =
    if w.dropping
    then w
    else if ltb line_limit (length w.pending + length part)
    then record w { pending = []; dropping = true }
    else record w { pending = w.pending ++ part }

-- The second half, at a newline.
unfoldable pub end_line : SecretWriter → SecretWriter
unfolding emit
end_line w =
    let w' = if w.dropping then record w { dst = w.dst ++ omitted } else emit w w.pending in
    record w' { pending = []; dropping = false }

unfoldable pub write_parts : SecretWriter → List (Bytes × Bool) → SecretWriter
unfolding gather end_line
write_parts w [] = w
write_parts w ((part, true) ∷ parts) = write_parts (end_line (gather w part)) parts
write_parts w ((part, false) ∷ parts) = write_parts (gather w part) parts

-- `Write`; the count that it returns is always the length of the text.
unfoldable pub write : SecretWriter → Bytes → SecretWriter
unfolding write_parts cut_lines
write w p = write_parts w (cut_lines p)

unfoldable pub flush : SecretWriter → SecretWriter
unfolding emit
flush w =
    let w' = if w.dropping then w else emit w w.pending in
    record w' { pending = []; dropping = false }
