-- ===== src/Url.antt =====
-- What config.go and secrets.go take from the package net/url.
use mongodb_backup_s.Base.{
  ℕ, ◌+◌, ◌-◌, ◌*◌, ◌/◌, ◌%◌, Bool, true, false, ◌&&◌, ◌||◌, List, [], ◌∷◌, ◌++◌, Option, none,
  some, Bytes, codes, ltb, ◌==◌, if◌then◌else◌, between, is_empty, any, all, contains_byte, split,
}
use mathlib.Core.Option.{get_or}
use mongodb_backup_s.Keys.{hex, is_unreserved}

hex_digit : ℕ → Option ℕ
hex_digit c =
    if between b'0' b'9' c
    then some (c - b'0')
    else if between b'a' b'f' c
    then some (c - b'a' + 10)
    else if between b'A' b'F' c
    then some (c - b'A' + 10)
    else none

escaped : Option ℕ → Option ℕ → Option Bytes → Option Bytes
escaped (some h) (some l) (some s) = some ((h * 16 + l) ∷ s)
escaped _ _ _ = none

plain : ℕ → Option Bytes → Option Bytes
plain c none = none
plain c (some s) = some (c ∷ s)

-- `unescape`: in a query `+` is a space, and in a path or the user's part it is itself.
unfoldable pub unescape : Bool → Bytes → Option Bytes
unfolding hex_digit escaped plain
unescape query [] = some []
unescape query (c ∷ []) =
    if c == b'%' then none else some ((if query && c == b'+' then b' ' else c) ∷ [])
unescape query (c ∷ d ∷ []) =
    let rest = unescape query (d ∷ []) in
    if c == b'%' then none else plain (if query && c == b'+' then b' ' else c) rest
unescape query (c ∷ d ∷ e ∷ s) =
    let escape = escaped (hex_digit d) (hex_digit e) (unescape query s) in
    let rest = plain (if query && c == b'+' then b' ' else c) (unescape query (d ∷ e ∷ s)) in
    if c == b'%' then escape else rest

-- `url.QueryEscape` and `url.PathEscape`: the latter copies a few marks more.
unfoldable pub escape_with : (ℕ → Bool) → Bytes → Bytes
escape_with copied [] = []
escape_with copied (c ∷ s) =
    (if copied c then c ∷ [] else b'%' ∷ hex (c / 16) ∷ hex (c % 16) ∷ []) ++ escape_with copied s

plus_for_space : Bytes → Bytes
plus_for_space [] = []
plus_for_space (c ∷ s) = (if c == b' ' then b'+' else c) ∷ plus_for_space s

unfoldable pub query_escape : Bytes → Bytes
unfolding escape_with plus_for_space is_unreserved hex
query_escape s = plus_for_space (escape_with (λ c. is_unreserved c || c == b' ') s)

unfoldable pub path_escape : Bytes → Bytes
unfolding escape_with is_unreserved hex
path_escape = escape_with (λ c. is_unreserved c || contains_byte (codes "$&+=:@") c)

-- The text before the first byte that passes a test, and the rest from there on.
unfoldable pub break_at : (ℕ → Bool) → Bytes → Bytes × Bytes
break_at stop [] = ([], [])
break_at stop (c ∷ s) =
    let rest = break_at stop s in if stop c then ([], c ∷ s) else (c ∷ rest.0, rest.1)

-- `strings.Cut` at a byte.
after_byte : Bytes → Option Bytes
after_byte [] = none
after_byte (c ∷ rest) = some rest

unfoldable pub cut_byte : Bytes → ℕ → Bytes × Option Bytes
unfolding break_at after_byte
cut_byte s b = let parts = break_at (λ c. c == b) s in (parts.0, after_byte parts.1)

-- The user's part: a name, and a password if there is a colon.
pub record Userinfo : Type 0 where
  pub username : Bytes
  pub password : Option Bytes

pub record Url : Type 0 where
  pub user : Option Userinfo
  pub path : Bytes
  pub raw_query : Bytes

-- `validUserinfo`
is_userinfo_byte : ℕ → Bool
is_userinfo_byte c =
    between b'A' b'Z' c
    || between b'a' b'z' c
    || between b'0' b'9' c
    || contains_byte (codes "-._:~!$&'()*+,;=%@") c

with_password : Option Bytes → Option Bytes → Option Userinfo
with_password (some name) (some word) = some (record { username = name; password = some word })
with_password _ _ = none

without_password : Option Bytes → Option Userinfo
without_password none = none
without_password (some name) = some (record { username = name; password = none })

named : Bytes → Option Bytes → Option Userinfo
unfolding with_password without_password unescape
named name none = without_password (unescape false name)
named name (some word) = with_password (unescape false name) (unescape false word)

parse_userinfo : Bytes → Option Userinfo
unfolding is_userinfo_byte named cut_byte
parse_userinfo s =
    let parts = cut_byte s b':' in if all is_userinfo_byte s then named parts.0 parts.1 else none

is_control : ℕ → Bool
is_control c = ltb c 32 || c == 127

drop_last : Bytes → Bytes
drop_last [] = []
drop_last (c ∷ []) = []
drop_last (c ∷ d ∷ s) = c ∷ drop_last (d ∷ s)

build : Option (Option Userinfo) → Option Bytes → Option Bytes → Option Url
build (some user) (some path) query =
    some (record { user = user; path = path; raw_query = get_or query [] })
build _ _ _ = none

present : Option Userinfo → Option (Option Userinfo)
present none = none
present (some user) = some (some user)

-- `url.Parse(scheme + "://" + userinfo + "mongodb.invalid" + suffix)`, where the scheme is one of
-- MongoDB's, `userinfo` is empty or ends in `@`, and `suffix` is empty or begins with `/` or `?`.
-- There is no `#` in it.
unfoldable pub parse_options : Bytes → Bytes → Option Url
unfolding parse_userinfo is_control drop_last build present cut_byte unescape
parse_options userinfo suffix =
    let user =
      if is_empty userinfo then some none else present (parse_userinfo (drop_last userinfo)) in
    let parts = cut_byte suffix b'?' in
    let url = build user (unescape false parts.0) parts.1 in
    if any is_control userinfo || any is_control suffix then none else url

value_ok : Option Bytes → Bool
unfolding unescape
value_ok none = true
value_ok (some value) = elim (unescape true value) [ none ↦ false | some _ ↦ true ]

-- One part of a query: no key, a key, or an error.
query_key : Bytes → Option (List Bytes)
unfolding cut_byte unescape value_ok
query_key part =
    let parts = cut_byte part b'=' in
    let key : Option (List Bytes) = elim (unescape true parts.0) [
      | none ↦ none
      | some k ↦ if value_ok parts.1 then some (k ∷ []) else none
    ] in
    if contains_byte part b';' then none else if is_empty part then some [] else key

join_keys : Option (List Bytes) → Option (List Bytes) → Option (List Bytes)
join_keys (some ks) (some ls) = some (ks ++ ls)
join_keys _ _ = none

query_keys : List Bytes → Option (List Bytes)
unfolding query_key join_keys
query_keys [] = some []
query_keys (part ∷ parts) = join_keys (query_key part) (query_keys parts)

-- The keys of `url.ParseQuery`.
unfoldable pub parse_query : Bytes → Option (List Bytes)
unfolding query_keys split
parse_query query = query_keys (split query b'&')
