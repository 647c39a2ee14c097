-- ===== src/Tests/Site.antt =====
-- A configuration, a server with two databases and a store with old backups, for the tests.
use mongodb_backup_s.Base.{
  ℕ, ◌*◌, ◌+◌, ◌^◌, if◌then◌else◌, true, false, not, ◌≡◌, refl, List, [], ◌∷◌, ◌++◌, none, Bytes,
  codes, keep, str_eq, has_prefix, ok,
}
use mongodb_backup_s.Config.{Config, StorageConfig, full, per_database, timestamp}
use mongodb_backup_s.Keys.{is_timestamp_backup}
use mongodb_backup_s.World.{
  ZipFile, Command, Reply, hello, repl_set_get_config, build_info, get_fcv, list_databases, World,
  FileInfo, Object, Snapshot,
}

abbrev pub test_storage : StorageConfig
test_storage = record {
  bucket = codes "b";
  region = codes "us-west-1";
  endpoint = [];
  access_key_id = [];
  secret_access_key = [];
  session_token = [];
  upload_part_size_bytes = 8388608;
}

abbrev pub test_config : Config
test_config = record {
  uri = codes "mongodb://h";
  tls_ca = [];
  read_preference = codes "primary";
  config_dir = codes "/c";
  database = codes "shop";
  databases = [];
  backup_all = codes "false";
  exclude = [];
  backup_mode = per_database;
  prefix = codes "backup";
  passphrase = [];
  keep_days = codes "7";
  filename_mode = timestamp;
  schedule = [];
  restore_drop = false;
  parallel_collections = 4;
  storage = test_storage;
}

abbrev pub whole_config : Config
whole_config = record test_config { backup_mode = full; database = [] }

abbrev pub test_snapshot : Snapshot
test_snapshot = record {
  replica_set = codes "rs0";
  server_version = codes "8.0.4";
  fcv = codes "8.0";
}

-- The time, and the objects of the store.
pub record Store : Type 0 where
  pub time : ℕ
  pub objects : List Object

-- 2024-01-08T00:00:00 and 2024-03-01T00:00:00, in nanoseconds since the start of the year 1.
abbrev pub january : ℕ
january = 63840268800 * 1000000000

abbrev pub march : ℕ
march = 63844848000 * 1000000000

abbrev pub old_key : Bytes
old_key = codes "backup/per-database/shop/2024-01-08T00:00:00.zip"

abbrev pub other_key : Bytes
other_key = codes "backup/per-database/crm/2024-01-08T00:00:00.zip"

abbrev pub test_site : Store
test_site = record {
  time = march;
  objects =
      record { key = old_key; last_modified = january }
      ∷ record { key = other_key; last_modified = january }
      ∷ [];
}

-- What the server answers.
abbrev pub reply_of : (command : Command) → Reply command
reply_of hello = record { set_name = codes "rs0"; msg = [] }
reply_of repl_set_get_config = test_snapshot.replica_set
reply_of build_info = test_snapshot.server_version
reply_of get_fcv = test_snapshot.fcv
reply_of list_databases = codes "shop" ∷ codes "crm" ∷ codes "admin" ∷ []

abbrev pub archive : List ZipFile
archive = []

-- The directory of the configuration, and the file in it.
abbrev pub test_dir_info : FileInfo
test_dir_info = record {
  mode = 2 ^ 31 + 448;
  size = 64;
  mod_time = january;
  file = 1;
  attributes = none;
}

abbrev pub test_file_info : FileInfo
test_file_info = record { mode = 384; size = 4; mod_time = january; file = 2; attributes = none }

abbrev pub test_world : World
test_world = record {
  State = Store;
  ctx_err = λ s. none;
  now = λ s. march;
  open_lock = λ s. (ok tt, s);
  flock = λ s. (ok tt, s);
  close_lock = λ s. s;
  prepare = λ s. (ok tt, s);
  clean_up = λ s. (ok tt, s);
  versioning_enabled = λ s. (ok true, s);
  list = λ prefix s. (ok (keep (λ (o : Object). has_prefix o.key prefix) s.objects), s);
  delete = λ key s.
      (ok tt, record s { objects = keep (λ (o : Object). not (str_eq o.key key)) s.objects });
  upload = λ key body s. (
    ok tt,
    record s { objects = s.objects ++ (record { key = key; last_modified = s.time } ∷ []) },
  );
  download = λ key version path s. (ok tt, s);
  is_read_mode = λ name. true;
  are_options_valid = λ uri. true;
  uses_tls = λ uri. false;
  has_certificate = λ pem. true;
  dial = λ c s. (ok tt, s);
  hang_up = λ s. (ok tt, s);
  run_command = λ command s. (ok (reply_of command), s);
  is_canceled = λ e. false;
  is_timeout = λ e. false;
  command_code = λ e. none;
  ext_json = λ raw. ok raw;
  run = λ name args s. ((codes "mongodump version: 100.10.0\n", ok tt), s);
  filter = λ name args input s. ((codes "sealed", ok tt), s);
  lstat = λ path s. (ok test_dir_info, s);
  open_root = λ directory s. (ok tt, s);
  close_root = λ s. s;
  root_stat = λ s. (ok test_dir_info, s);
  walk = λ s. ((codes ".", none) ∷ (codes "mongod.conf", none) ∷ [], s);
  root_lstat =
      λ name s. (ok (if str_eq name (codes ".") then test_dir_info else test_file_info), s);
  root_open = λ name s. (ok 5, s);
  file_stat = λ file s. (ok test_file_info, s);
  file_reads = λ file s. (record { ended = none; chunk = codes "port"; failure = none } ∷ [], s);
  close_file = λ file s. s;
  feed = λ name args input s. (ok tt, s);
  make_temp = λ parent s. (ok (codes "/tmp/x"), s);
  remove_all = λ path s. (ok tt, s);
  make_dirs = λ path s. (ok tt, s);
  create = λ path s. (ok tt, s);
  fill = λ path contents s. (ok tt, s);
  read_file = λ path s. (ok [], s);
  rename = λ from to s. (ok tt, s);
  absolute = λ path s. (ok path, s);
  is_absent = λ path s. true;
  open_archive = λ path s. (ok archive, s);
  close_archive = λ s. s;
}

abbrev pub shop : Bytes
shop = codes "shop"

-- The old backup is one of its database.
pub old_key-IsBackup : is_timestamp_backup test_config shop old_key ≡ true
unfolding is_timestamp_backup mongodb_backup_s.Base.cut_prefix
old_key-IsBackup = refl
