-- ===== src/Config.antt =====
-- internal/backup/config.go: the configuration and its checks.
-- The constants of the modes and the record stand here; the children hold the functions.
pub mod Uri
pub mod Databases
pub mod Validate
pub mod Load
use mongodb_backup_s.Base.{ℕ, Bool, Bytes, codes}

-- storage.Config
pub record StorageConfig : Type 0 where
  pub bucket : Bytes
  pub region : Bytes
  pub endpoint : Bytes
  pub access_key_id : Bytes
  pub secret_access_key : Bytes
  pub session_token : Bytes
  pub upload_part_size_bytes : ℕ

pub record Config : Type 0 where
  pub uri : Bytes
  pub tls_ca : Bytes
  pub read_preference : Bytes
  pub config_dir : Bytes
  pub database : Bytes
  pub databases : Bytes
  pub backup_all : Bytes
  pub exclude : Bytes
  pub backup_mode : Bytes
  pub prefix : Bytes
  pub passphrase : Bytes
  pub keep_days : Bytes
  pub filename_mode : Bytes
  pub schedule : Bytes
  pub restore_drop : Bool
  pub parallel_collections : ℕ
  pub storage : StorageConfig

abbrev pub full : Bytes
full = codes "full"

abbrev pub per_database : Bytes
per_database = codes "per-database"

abbrev pub fixed : Bytes
fixed = codes "fixed"

abbrev pub timestamp : Bytes
timestamp = codes "timestamp"
