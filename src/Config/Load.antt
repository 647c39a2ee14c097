-- ===== src/Config/Load.antt =====
-- internal/backup/config.go: loadConfig. The environment is a function, and so is os.ReadFile.
pub mod Loaded
use mongodb_backup_s.Base.{
  ℕ, ◌*◌, Bool, true, false, ◌&&◌, ◌||◌, not, List, [], ◌∷◌, Option, none, some, Bytes, codes,
  String, ◌==◌, if◌then◌else◌, is_empty, any, str_eq, contains_any, trim_right, Error, wrapped,
  both_uri_and_file, uri_file_unreadable, bucket_unset, mode_invalid, all_invalid,
  filename_mode_invalid, passphrase_newline, read_preference_invalid, drop_invalid,
  parallel_invalid, part_size_invalid, Result, ok, err, ◌>>=◌, ◌>>◌, fail_if,
}
use mongodb_backup_s.Config.{Config, StorageConfig, full, per_database, timestamp, fixed}
use mongodb_backup_s.Config.Uri.{validate_uri}
use mongodb_backup_s.Decimal.{ℤ, atoi, in_range}

pub is_one_of : List Bytes → Bytes → Bool
unfolding str_eq
is_one_of names s = any (str_eq s) names

abbrev pub read_preferences : List Bytes
read_preferences =
    codes "primary"
    ∷ codes "primaryPreferred"
    ∷ codes "secondary"
    ∷ codes "secondaryPreferred"
    ∷ codes "nearest"
    ∷ []

abbrev pub mebibyte : ℕ
mebibyte = 1024 * 1024

need : Error → Option ℕ → Result ℕ
need e none = err e
need e (some n) = ok n

check_uri : Bytes → Result (Unit {0})
check_uri uri = if is_empty uri then ok tt else validate_uri uri

-- The checks in the middle, of the record and of MONGODB_RESTORE_DROP.
check_settings : Config → Bytes → Result (Unit {0})
unfolding check_uri is_one_of
check_settings c drop = do
  fail_if (is_empty c.storage.bucket) bucket_unset
  check_uri c.uri
  fail_if (not (is_one_of (full ∷ per_database ∷ []) c.backup_mode)) mode_invalid
  fail_if (not (is_one_of (codes "true" ∷ codes "false" ∷ []) c.backup_all)) all_invalid
  fail_if (not (is_one_of (timestamp ∷ fixed ∷ []) c.filename_mode)) filename_mode_invalid
  fail_if (contains_any c.passphrase (13 ∷ 10 ∷ [])) passphrase_newline
  fail_if (not (is_one_of read_preferences c.read_preference)) read_preference_invalid
  fail_if (not (is_one_of (codes "true" ∷ codes "false" ∷ []) drop)) drop_invalid

-- From the test of the bucket on, with the values of the three settings that are read late.
finish : Config → Bytes → Option ℤ → Option ℤ → Result Config
unfolding check_settings need in_range str_eq
finish c drop collections megabytes = do
  check_settings c drop
  n ← need parallel_invalid (in_range 1 128 collections)
  m ← need part_size_invalid (in_range 5 5120 megabytes)
  ok (record c {
    restore_drop = str_eq drop (codes "true");
    parallel_collections = n;
    storage = record (c.storage) { upload_part_size_bytes = m * 1024 * 1024 };
  })

module _ (lookup : Bytes → Option Bytes) (read_file : Bytes → Result Bytes) where
  get : String → Bytes
  get key = elim (lookup (codes key)) [ none ↦ [] | some value ↦ value ]

  value_or : String → String → Bytes
  unfolding get
  value_or key fallback = if is_empty (get key) then codes fallback else get key

  -- S3_PREFIX may be set and empty.
  prefix_value : Bytes
  prefix_value = elim (lookup (codes "S3_PREFIX")) [ none ↦ codes "backup" | some value ↦ value ]

  -- The record as it is first filled in.
  initial : Config
  unfolding value_or prefix_value
  initial = record {
    uri = get "MONGODB_URI";
    tls_ca = get "MONGODB_TLS_CA_FILE";
    read_preference = value_or "MONGODB_READ_PREFERENCE" "primary";
    config_dir = get "MONGODB_CONFIG_DIR";
    database = get "MONGODB_DATABASE";
    databases = get "MONGODB_DATABASES";
    backup_all = value_or "MONGODB_BACKUP_ALL" "false";
    exclude = get "MONGODB_DATABASES_EXCLUDE";
    backup_mode = value_or "BACKUP_MODE" "full";
    prefix = prefix_value;
    passphrase = get "PASSPHRASE";
    keep_days = get "BACKUP_KEEP_DAYS";
    filename_mode = value_or "BACKUP_FILENAME_MODE" "timestamp";
    schedule = get "SCHEDULE";
    restore_drop = false;
    parallel_collections = 0;
    storage = record {
      bucket = get "S3_BUCKET";
      region = value_or "S3_REGION" "us-west-1";
      endpoint = get "S3_ENDPOINT";
      access_key_id = get "S3_ACCESS_KEY_ID";
      secret_access_key = get "S3_SECRET_ACCESS_KEY";
      session_token = get "S3_SESSION_TOKEN";
      upload_part_size_bytes = 0;
    };
  }

  read_uri : Bytes → Result Bytes
  unfolding trim_right
  read_uri path = elim (read_file path) [
    | err e ↦ err (wrapped e)
    | ok text ↦ ok (trim_right text (13 ∷ 10 ∷ []))
  ]

  -- The URI itself, or the contents of its file without the newlines at the end.
  connection_uri : Result Bytes
  unfolding get read_uri
  connection_uri =
      if is_empty (get "MONGODB_URI_FILE")
      then ok (get "MONGODB_URI")
      else if is_empty (get "MONGODB_URI")
      then read_uri (get "MONGODB_URI_FILE")
      else err both_uri_and_file

  unfoldable pub load_config : Result Config
  unfolding initial connection_uri finish atoi
  load_config = do
    uri ← connection_uri
    finish (record initial { uri = uri }) (value_or "MONGODB_RESTORE_DROP" "false")
        (atoi (value_or "MONGODB_PARALLEL_COLLECTIONS" "4"))
        (atoi (value_or "S3_UPLOAD_PART_SIZE_MB" "8"))
