-- ===== src/Keys.antt =====
-- internal/backup/config.go: the object keys of backups, and the patterns that recognise them.
pub mod Encode
pub mod Shape
pub mod Isolation
use mongodb_backup_s.Base.{
  ℕ, ◌+◌, ◌-◌, ◌/◌, ◌%◌, Bool, true, false, ◌&&◌, ◌||◌, List, [], ◌∷◌, ◌++◌, Option, none, some,
  Bytes, codes, ltb, ◌==◌, if◌then◌else◌, between, is_empty, str_eq, contains_byte, has_prefix,
  trim_prefix, trim_right,
}
use mongodb_backup_s.Clock.{Instant, civil, format}
use mongodb_backup_s.Config.{Config, full, fixed}

-- The bytes that `encodeComponent` copies.
unfoldable pub is_unreserved : ℕ → Bool
is_unreserved b =
    between b'a' b'z' b
    || between b'A' b'Z' b
    || between b'0' b'9' b
    || contains_byte (codes "-._~") b

-- `hex[n]`, for n below 16.
unfoldable pub hex : ℕ → ℕ
hex n = if ltb n 10 then b'0' + n else b'A' + (n - 10)

-- What one round of the loop writes.
unfoldable pub encode_byte : ℕ → Bytes
unfolding is_unreserved hex
encode_byte b = if is_unreserved b then b ∷ [] else b'%' ∷ hex (b / 16) ∷ hex (b % 16) ∷ []

unfoldable pub encode_component : Bytes → Bytes
unfolding encode_byte
encode_component [] = []
encode_component (b ∷ s) = encode_byte b ++ encode_component s

unfoldable pub file_type : Config → Bytes
file_type c = if is_empty c.passphrase then codes ".zip" else codes ".zip.gpg"

-- `Prefix` without its trailing slashes, and with one if anything is left.
unfoldable pub base_prefix : Config → Bytes
unfolding trim_right
base_prefix c = let p = trim_right c.prefix (codes "/") in if is_empty p then p else p ++ codes "/"

unfoldable pub timestamp_prefix : Config → Bytes → Bytes
unfolding base_prefix encode_component str_eq
timestamp_prefix c database =
    if str_eq c.backup_mode full
    then base_prefix c ++ codes "full/"
    else base_prefix c ++ (codes "per-database/" ++ (encode_component database ++ codes "/"))

unfoldable pub fixed_key : Config → Bytes → Bytes
unfolding timestamp_prefix file_type
fixed_key c database = timestamp_prefix c database ++ (codes "latest" ++ file_type c)

unfoldable pub backup_key : Config → Bytes → Instant → Bytes
unfolding fixed_key format civil
backup_key c database now =
    if str_eq c.filename_mode fixed
    then fixed_key c database
    else timestamp_prefix c database ++ (format (civil now) ++ file_type c)

-- `timestampPattern` without its anchors, one item to a byte.
pub data Item : Type 0 where
  digit : Item
  lit : ℕ → Item

unfoldable pub item_matches : Item → ℕ → Bool
item_matches digit b = between b'0' b'9' b
item_matches (lit c) b = b == c

abbrev pub timestamp_items : List Item
timestamp_items =
    digit
    ∷ digit
    ∷ digit
    ∷ digit
    ∷ lit b'-'
    ∷ digit
    ∷ digit
    ∷ lit b'-'
    ∷ digit
    ∷ digit
    ∷ lit b'T'
    ∷ digit
    ∷ digit
    ∷ lit b':'
    ∷ digit
    ∷ digit
    ∷ lit b':'
    ∷ digit
    ∷ digit
    ∷ []

-- What follows the items at the front of a text, if they are there.
unfoldable pub match_items : List Item → Bytes → Option Bytes
unfolding item_matches
match_items [] s = some s
match_items (i ∷ is) [] = none
match_items (i ∷ is) (b ∷ s) =
    let rest = match_items is s in if item_matches i b then rest else none

-- `timestampPattern.MatchString`: the items, and then the end.
unfoldable pub is_timestamp : Bytes → Bool
unfolding match_items
is_timestamp s = elim (match_items timestamp_items s) [ none ↦ false | some rest ↦ is_empty rest ]

-- `backupSuffixPattern.MatchString`: the items, `.zip`, and perhaps `.gpg`.
unfoldable pub is_backup_suffix : Bytes → Bool
unfolding match_items str_eq
is_backup_suffix s = elim (match_items timestamp_items s) [
  | none ↦ false
  | some rest ↦ str_eq rest (codes ".zip") || str_eq rest (codes ".zip.gpg")
]

unfoldable pub is_timestamp_backup : Config → Bytes → Bytes → Bool
unfolding timestamp_prefix is_backup_suffix has_prefix trim_prefix
is_timestamp_backup c database key =
    has_prefix key (timestamp_prefix c database)
    && is_backup_suffix (trim_prefix key (timestamp_prefix c database))
