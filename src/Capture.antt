-- ===== src/Capture.antt =====
-- internal/backup/capture.go: infos, the reader of a file, and the two maps. Capture.Files is
-- captureConfigFile, Capture.Directory captureConfig. The paths that a walk visits are listed before
-- they are looked at.
pub mod Files
pub mod Directory
pub mod Taken
pub mod Captured
pub mod Paths
pub mod Again
pub mod Stable
pub mod Taking
use mongodb_backup_s.Base.{
  ℕ, ◌+◌, ◌/◌, ◌%◌, ◌^◌, Bool, true, false, ◌&&◌, ◌||◌, not, List, [], ◌∷◌, ◌++◌, Option, none,
  some, Bytes, codes, if◌then◌else◌, is_empty, str_eq, length, ◌==◌, contains_byte, Error, wrapped,
  config_not_directory, config_changed, config_path_unsafe, config_not_regular, config_dir_empty,
  config_read_failed, Result, ok, err, fail_if,
}
use mongodb_backup_s.World.{World, FileInfo, ReadCall, Action, lift, check_ctx, ◌>>=◌, ◌>>◌}

abbrev has_bit : ℕ → ℕ → Bool
has_bit n k = (n / 2 ^ k) % 2 == 1

-- fs.ModeDir, fs.ModeSymlink
unfoldable pub is_dir : FileInfo → Bool
is_dir info = has_bit info.mode 31

-- `IsRegular`: no bit of fs.ModeType, of a directory, a link, a device, a pipe, a socket, a character device
-- or something irregular.
unfoldable pub is_regular : FileInfo → Bool
is_regular info = not (
    has_bit info.mode 31
    || has_bit info.mode 27
    || has_bit info.mode 26
    || has_bit info.mode 25
    || has_bit info.mode 24
    || has_bit info.mode 21
    || has_bit info.mode 19)

-- `configLink`: a symbolic link, or FILE_ATTRIBUTE_REPARSE_POINT.
unfoldable pub config_link : FileInfo → Bool
config_link info =
    if has_bit info.mode 27
    then true
    else elim info.attributes [ none ↦ false | some attributes ↦ has_bit attributes 10 ]

-- `unchangedConfig`, of infos that are there
unfoldable pub unchanged_config : FileInfo → FileInfo → Bool
unchanged_config before after =
    before.file == after.file
    && before.mode == after.mode
    && before.size == after.size
    && before.mod_time == after.mod_time

-- `err != nil || !unchangedConfig(before, after)`, negated
unfoldable pub still : FileInfo → Result FileInfo → Bool
unfolding unchanged_config
still before (err e) = false
still before (ok after) = unchanged_config before after

-- The same, and no link.
unfoldable pub still_no_link : FileInfo → Result FileInfo → Bool
unfolding unchanged_config config_link
still_no_link before (err e) = false
still_no_link before (ok after) = unchanged_config before after && not (config_link after)

pub record ConfigReader : Type 0 where
  pub count : ℕ
  pub failure : Option Error

abbrev pub new_reader : ConfigReader
new_reader = record { count = 0; failure = none }

-- `configReader.Read`: what it returns, and the reader after it.
unfoldable pub read_call : ConfigReader → ReadCall → (Bytes × Option Error) × ConfigReader
read_call r call = elim call.ended [
  | some e ↦ (([], some e), record r { failure = some e })
  | none ↦ (
    (call.chunk, call.failure),
    record {
      count = r.count + length call.chunk;
      failure = elim call.failure [ none ↦ r.failure | some e ↦ some e ];
    },
  )
]

-- A reader that has been read to the end of its file.
pub record Reading : Type 0 where
  pub contents : Bytes
  pub reader : ConfigReader

-- `io.Copy` from the reader, behind what has been copied.
unfoldable pub copy : Bytes → ConfigReader → List ReadCall → Result Reading
unfolding read_call
copy contents r [] = ok (record { contents = contents; reader = r })
copy contents r (call ∷ calls) =
    let ((chunk, failure), r') = read_call r call in
    let more = copy (contents ++ chunk) r' calls in elim failure [ none ↦ more | some e ↦ err e ]

-- The assignment to a key of a map, and the value of a key.
unfoldable pub assign {ℓ} : {A : Type ℓ} → Bytes → A → List (Bytes × A) → List (Bytes × A)
unfolding str_eq
assign key value [] = (key, value) ∷ []
assign key value ((other, old) ∷ entries) =
    let rest = assign key value entries in
    if str_eq other key then (key, value) ∷ entries else (other, old) ∷ rest

unfoldable pub value_of {ℓ} : {A : Type ℓ} → Bytes → List (Bytes × A) → Option A
unfolding str_eq
value_of key [] = none
value_of key ((other, value) ∷ entries) =
    let rest = value_of key entries in if str_eq other key then some value else rest

-- What the first walk finds: `files` and `entries`.
pub record Inventory : Type 0 where
  pub files : List (Bytes × FileInfo)
  pub entries : List (Bytes × FileInfo)

abbrev pub nothing : Inventory
nothing = record { files = []; entries = [] }

-- A callback for a file, given its path in the bundle and the copying of its reader.
abbrev pub Consumer : World → Type 0 → Type 0
Consumer w X = Bytes → Action w.State Reading → Action w.State (X × Reading)
