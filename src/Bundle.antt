-- ===== src/Bundle.antt =====
-- internal/backup/bundle.go: the manifest of a bundle and what its parts are made of.
-- SHA-256 and the JSON of the manifest are parameters: the code only calls them.
pub mod Write
pub mod Validate
pub mod Good
pub mod Added
pub mod Collect
pub mod Configured
pub mod RoundTrip
pub mod Intact
use mongodb_backup_s.Base.{
  ℕ, ◌*◌, ◌≡◌, Bool, true, List, [], ◌∷◌, Option, none, some, Bytes, if◌then◌else◌, str_eq, length,
  is_empty, utf8_valid, All, Result, ok,
}
use mongodb_backup_s.Clock.{Instant}

pub record FileRecord : Type 0 where
  pub size : ℕ
  pub sha256 : Bytes

pub record Manifest : Type 0 where
  pub format_version : ℕ
  pub mode : Bytes
  pub database : Bytes
  pub oplog : Bool
  pub started_at : Instant
  pub completed_at : Instant
  pub server_version : Bytes
  pub fcv : Bytes
  pub tools_version : Bytes
  pub config_included : Bool
  -- a map: the code never enters a name twice
  pub files : List (Bytes × FileRecord)

-- crypto/sha256, the same in hexadecimal, and encoding/json at the type of the manifest. A size that an
-- int64 does not hold, which the code cannot have, is an error of `to_json`. What becomes of a string
-- that is written and read is `replaced`: bytes that are not UTF-8 are replaced.
pub record Formats : Type 0 where
  pub sha256 : Bytes → Bytes
  pub sha256_hex : Bytes → Bytes
  pub to_json : Manifest → Result Bytes
  pub from_json : Bytes → Option Manifest
  pub replaced : Bytes → Bytes

abbrev pub manifest_limit : ℕ
manifest_limit = 4 * 1024 * 1024

unfoldable pub find_record : Bytes → List (Bytes × FileRecord) → Option FileRecord
unfolding str_eq
find_record name [] = none
find_record name ((other, r) ∷ files) =
    let rest = find_record name files in if str_eq other name then some r else rest

-- No name twice.
unfoldable pub IsDistinctFiles : List (Bytes × FileRecord) → Type 0
unfolding find_record
IsDistinctFiles [] = Unit
IsDistinctFiles ((name, r) ∷ files) = (find_record name files ≡ none) × IsDistinctFiles files

-- The files of a manifest as a map: valid names, valid sums and no name twice.
pub record IsInventory (files : List (Bytes × FileRecord)) : Type 0 where
  pub names : All (λ e. utf8_valid e.0 ≡ true) files
  pub sums : All (λ e. utf8_valid e.1.sha256 ≡ true) files
  pub distinct : IsDistinctFiles files

-- The same map, in whatever order.
pub record IsSameInventory (files others : List (Bytes × FileRecord)) : Type 0 where
  pub counted : length files ≡ length others
  pub found : (name : Bytes) → find_record name files ≡ find_record name others

-- A manifest that was read back, with its files in some order.
abbrev pub reread : Formats → Manifest → List (Bytes × FileRecord) → Manifest
reread f m files = record m {
  mode = f.replaced m.mode;
  database = f.replaced m.database;
  server_version = f.replaced m.server_version;
  fcv = f.replaced m.fcv;
  tools_version = f.replaced m.tools_version;
  files = files;
}

-- What is asked of them: valid UTF-8 stays as it is, hexadecimal is valid, and a manifest that
-- was written is read back, but for its invalid strings and the order of its files.
pub record IsLawful (f : Formats) : Type 0 where
  pub valid : (s : Bytes) → utf8_valid s ≡ true → f.replaced s ≡ s
  pub replaced_empty : (s : Bytes) → is_empty (f.replaced s) ≡ is_empty s
  pub hex_valid : (s : Bytes) → utf8_valid (f.sha256_hex s) ≡ true
  pub from_json-to_json :
      (m : Manifest) (text : Bytes)
      → IsInventory m.files
      → f.to_json m ≡ ok text
      → (files : List (Bytes × FileRecord)) × IsSameInventory files m.files
        × (f.from_json text ≡ some (reread f m files))
