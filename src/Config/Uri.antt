-- ===== src/Config/Uri.antt =====
-- internal/backup/config.go: mongoURIOptions, validateURI and requireConnection.
use mongodb_backup_s.Base.{
  ℕ, ◌+◌, Bool, ◌&&◌, ◌||◌, not, List, [], ◌∷◌, Option, none, some, Bytes, codes, ◌==◌,
  if◌then◌else◌, between, is_empty, any, contains_any, split, str_eq, cut_prefix, uri_invalid,
  uri_has_path, uri_query_invalid, uri_read_preference, uri_unset, Result, ok, err, ◌>>=◌, ◌>>◌,
  fail_if,
}
use mongodb_backup_s.Url.{Url, parse_options, parse_query, break_at}
use mongodb_backup_s.Config.{Config}

-- `strings.Cut(s, "://")`
unfoldable pub cut_scheme : Bytes → Option (Bytes × Bytes)
unfolding cut_prefix
cut_scheme [] = none
cut_scheme (c ∷ s) =
    let later : Option (Bytes × Bytes) = elim (cut_scheme s) [
      | none ↦ none
      | some (scheme, rest) ↦ some (c ∷ scheme, rest)
    ] in
    elim (cut_prefix (c ∷ s) (codes "://")) [ none ↦ later | some rest ↦ some ([], rest) ]

-- The text up to the last `@`, that byte included, and the text behind it.
unfoldable pub split_userinfo : Bytes → Bytes × Bytes
split_userinfo [] = ([], [])
split_userinfo (c ∷ s) =
    let (userinfo, hosts) = split_userinfo s in
    if is_empty userinfo && not (c == b'@') then ([], c ∷ hosts) else (c ∷ userinfo, hosts)

unfoldable pub is_mongo_scheme : Bytes → Bool
is_mongo_scheme s = str_eq s (codes "mongodb") || str_eq s (codes "mongodb+srv")

-- `" \t\r\n\x00#"`
unfoldable pub has_forbidden : Bytes → Bool
has_forbidden raw = contains_any raw (32 ∷ 9 ∷ 13 ∷ 10 ∷ 0 ∷ b'#' ∷ [])

-- The authority is taken apart, and the rest is handed to url.Parse with a host in its place.
with_authority : Bytes → Bytes → Result Url
unfolding split_userinfo split parse_options
with_authority authority suffix =
    let parts = split_userinfo authority in
    let parsed : Result Url = elim (parse_options parts.0 suffix) [
      | none ↦ err uri_invalid
      | some u ↦ ok u
    ] in
    if any is_empty (split parts.1 b',') then err uri_invalid else parsed

is_path_or_query : ℕ → Bool
is_path_or_query c = c == b'/' || c == b'?'

unfoldable pub mongo_uri_options : Bytes → Result Url
unfolding cut_scheme is_mongo_scheme has_forbidden with_authority is_path_or_query break_at str_eq
mongo_uri_options raw = elim (cut_scheme raw) [
  | none ↦ err uri_invalid
  | some (scheme, rest) ↦
      let parts = break_at is_path_or_query rest in
      if not (is_mongo_scheme scheme) || has_forbidden raw
      then err uri_invalid
      else with_authority parts.0 parts.1
]

-- `strings.ToLower`, as far as the names below can tell: no other character becomes one of theirs.
lower : Bytes → Bytes
lower [] = []
lower (c ∷ s) = (if between b'A' b'Z' c then c + 32 else c) ∷ lower s

unfoldable pub is_read_preference_key : Bytes → Bool
unfolding lower str_eq
is_read_preference_key key =
    str_eq (lower key) (codes "readpreference")
    || str_eq (lower key) (codes "readpreferencetags")
    || str_eq (lower key) (codes "maxstalenessseconds")

check_query : Option (List Bytes) → Result (Unit {0})
unfolding is_read_preference_key
check_query none = err uri_query_invalid
check_query (some keys) = fail_if (any is_read_preference_key keys) uri_read_preference

-- A failure of mongoURIOptions is reported by the same message.
unfoldable pub validate_uri : Bytes → Result (Unit {0})
unfolding mongo_uri_options check_query parse_query
validate_uri raw = do
  u ← mongo_uri_options raw
  fail_if (not (is_empty u.path) && not (str_eq u.path (codes "/"))) uri_has_path
  check_query (parse_query u.raw_query)

unfoldable pub require_connection : Config → Result (Unit {0})
require_connection c = do fail_if (is_empty c.uri) uri_unset; validate_uri c.uri
