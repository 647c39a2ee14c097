-- ===== src/Tests/Commands.antt =====
-- Examples of restores, extractions and whole runs of the program.
use mongodb_backup_s.Base.{
  ℕ, ◌≡◌, ◌⊎◌, refl, inl, inr, true, false, not, List, [], ◌∷◌, ◌++◌, map, Option, none, some,
  Bytes, codes, All, split, Error, Result, ok, err, external, str_eq, has_prefix, arith,
  if◌then◌else◌, metadata, denied, utf8_valid,
}
use mongodb_backup_s.Config.{Config, StorageConfig}
use mongodb_backup_s.Config.Load.{load_config}
use mongodb_backup_s.World.{World, ZipFile, Member, Snapshot}
use mongodb_backup_s.Trace.{Run, Event, imported, written, moved, uploaded, usage_shown, In}
use mongodb_backup_s.Trace.Extends.{Adds}
use mongodb_backup_s.Bundle.Write.{write_bundle}
use mongodb_backup_s.Bundle.Good.{stored}
use mongodb_backup_s.Process.{lock_file, opened, Runner, Child, command}
use mongodb_backup_s.Mongo.{inspect, databases, new_source, close, open_client}
use mongodb_backup_s.Restore.{restore_as}
use mongodb_backup_s.Restore.Verified.{Imports, restore_as-Imports}
use mongodb_backup_s.Extract.{extract_config}
use mongodb_backup_s.Backup.{backup}
use mongodb_backup_s.Backup.Complete.{IsCompleted, backup-IsCompleted}
use mongodb_backup_s.Backup
use mongodb_backup_s.Backup.Restorable.{IsTimed, IsRestorable, backup-IsRestorable}
use mongodb_backup_s.Backup.Order.{Justified}
use mongodb_backup_s.Storage.{Endpoint, Credentials, Client, new_s3}
use mongodb_backup_s.Storage.Built.{IsClient, new_s3-IsClient}
use mongodb_backup_s.Schedule.{Cron, ended, fire}
use mongodb_backup_s.Program
use mongodb_backup_s.Program.{command_of, is_help}
use mongodb_backup_s.Program.Exit.{IsDone, run-IsDone}
use mongodb_backup_s.Program.Safe.{run-Justified}
use mongodb_backup_s.Tests.Json.{test_formats, test_formats-IsLawful, checksum, write_json}
use mongodb_backup_s.Tests.Site.{
  shop, test_config, test_storage, test_snapshot, test_world, test_site, Store, march,
}

abbrev start : Run test_world
start = record { env = test_site; trace = [] }

abbrev members_of : Result (List Member) → List Member
members_of (ok members) = members
members_of (err e) = []

-- A world whose downloads are the bundle that a backup on the site makes.
abbrev bundle : List ZipFile
bundle = map stored (
    members_of
      (write_bundle test_world test_formats test_config shop test_snapshot (codes "100") march
        test_site).0)

abbrev restored_world : World
restored_world = record test_world { open_archive = λ path s. (ok bundle, s) }

abbrev fresh : Run restored_world
fresh = record { env = test_site; trace = [] }

abbrev last_kind : List Event → ℕ
last_kind [] = 0
last_kind (imported args input ∷ t) = 1
last_kind (written target contents ∷ t) = 2
last_kind (moved from to ∷ t) = 3
last_kind (_ ∷ t) = 4

restored : last_kind (restore_as restored_world test_formats test_config false [] fresh).1.trace ≡ 1
unfolding restore_as mongodb_backup_s.World.◌>>◌ mongodb_backup_s.World.lift
    mongodb_backup_s.Config.Uri.validate_uri mongodb_backup_s.Restore.unit_of
    mongodb_backup_s.Trace.silent mongodb_backup_s.Keys.is_timestamp_backup write_bundle
    mongodb_backup_s.World.check_ctx inspect write_json mongodb_backup_s.Tests.Json.read_json
    checksum mongodb_backup_s.Capture.is_regular
restored = refl

extracted :
    last_kind
      (extract_config restored_world test_formats test_config (codes "/out") [] fresh).1.trace
    ≡ 3
unfolding extract_config mongodb_backup_s.World.◌>>◌ mongodb_backup_s.World.lift
    mongodb_backup_s.Restore.unit_of mongodb_backup_s.Trace.silent
    mongodb_backup_s.Keys.is_timestamp_backup write_bundle mongodb_backup_s.World.check_ctx inspect
    write_json mongodb_backup_s.Clock.digits mongodb_backup_s.Tests.Json.read_json checksum
    mongodb_backup_s.Trace.move mongodb_backup_s.Capture.is_regular
extracted = refl

restore_as-Imports_example :
    Adds restored_world
      (Imports test_formats test_config false)
      (restore_as restored_world test_formats test_config false [])
      fresh
restore_as-Imports_example =
    restore_as-Imports restored_world test_formats test_config false [] fresh

backed_up : (backup test_world test_formats test_config start).0 ≡ ok tt
unfolding backup checksum write_json has_prefix str_eq mongodb_backup_s.World.◌>>◌
    mongodb_backup_s.Trace.silent mongodb_backup_s.World.check_ctx mongodb_backup_s.World.lift
    mongodb_backup_s.Config.Uri.require_connection mongodb_backup_s.Config.Uri.validate_uri
    mongodb_backup_s.Config.Databases.validate_databases mongodb_backup_s.Trace.note
    mongodb_backup_s.Keys.is_timestamp_backup mongodb_backup_s.Trace.delete
    mongodb_backup_s.Process.acquire_lock mongodb_backup_s.Mongo.new_source
    mongodb_backup_s.Mongo.databases mongodb_backup_s.Mongo.inspect
    mongodb_backup_s.Capture.is_regular
backed_up = refl

backup-IsCompleted_example :
    IsCompleted test_world test_formats test_config
      (backup test_world test_formats test_config start).1.trace
backup-IsCompleted_example = backup-IsCompleted test_world test_formats test_config start backed_up

-- The environment of a program, an endpoint, and the region of the SDK.
abbrev lookup : Bytes → Option Bytes
lookup key =
    if str_eq key (codes "MONGODB_URI")
    then some (codes "mongodb://h")
    else if str_eq key (codes "S3_BUCKET")
    then some (codes "b")
    else if str_eq key (codes "S3_ENDPOINT")
    then some (codes "https://s")
    else if str_eq key (codes "S3_ACCESS_KEY_ID")
    then some (codes "id")
    else if str_eq key (codes "AWS_SECRET_KEY")
    then some (codes "key")
    else none

abbrev parse : Bytes → Option Endpoint
parse text = some (record {
  scheme = codes "https";
  host = codes "s";
  has_user = false;
  raw_query = [];
  fragment = [];
})

abbrev read_file : Bytes → Result Bytes
read_file path = ok []

abbrev load_default : Bytes → Option Credentials → Result Bytes
load_default region credentials = ok region

abbrev loaded_config : Config
loaded_config = record test_config {
  database = [];
  config_dir = [];
  backup_mode = codes "full";
  keep_days = [];
  storage = record test_storage { endpoint = codes "https://s"; access_key_id = codes "id" };
}

loaded : load_config lookup read_file ≡ ok loaded_config
unfolding load_config mongodb_backup_s.Config.Uri.validate_uri
loaded = refl

abbrev test_client : Client
test_client = record {
  bucket = codes "b";
  region = codes "us-west-1";
  endpoint = codes "https://s";
  use_path_style = true;
  credentials = some (record { access_key = codes "id"; secret_key = codes "key"; token = [] });
  upload_part_size = 8388608;
}

built : new_s3 none lookup parse load_default loaded_config.storage ≡ ok test_client
unfolding new_s3 mongodb_backup_s.Base.str_eq
built = refl

new_s3-IsClient_example : IsClient none lookup parse load_default loaded_config.storage test_client
new_s3-IsClient_example =
    new_s3-IsClient none lookup parse load_default loaded_config.storage test_client built

-- A scheduler that runs its job once.
abbrev cron : Cron test_world
cron = record {
  Schedule = Bytes;
  parse = λ text. ok text;
  next = λ schedule at. some at;
  serve = λ schedule job r. job r;
  serves = λ schedule job r. fire ended;
}

abbrev received : Store → Option ℕ
received s = none

abbrev program : List Bytes → Run test_world → ℕ × Run test_world
program = Program.run test_world cron test_formats received lookup read_file parse load_default

exit_zero : (program (codes "backup" ∷ []) start).0 ≡ 0
unfolding Program.run mongodb_backup_s.World.◌>>=◌ mongodb_backup_s.World.lift
    mongodb_backup_s.Config.Uri.validate_uri mongodb_backup_s.Trace.silent backup
    mongodb_backup_s.World.◌>>◌ mongodb_backup_s.World.check_ctx
    mongodb_backup_s.Config.Uri.require_connection mongodb_backup_s.Process.acquire_lock new_source
    inspect write_json mongodb_backup_s.Trace.note
exit_zero = refl

run-IsDone_example :
    (is_help (codes "backup") ≡ true)
    ⊎ IsDone test_world cron test_formats received lookup read_file parse load_default
        (codes "backup" ∷ [])
        start
unfolding command_of
run-IsDone_example =
    run-IsDone test_world cron test_formats received lookup read_file parse load_default
      (codes "backup" ∷ []) start exit_zero

run-Justified_example : Justified loaded_config (program [] start).1.trace
run-Justified_example =
    run-Justified test_world test_formats loaded_config cron received lookup read_file parse
      load_default [] start loaded tt

timed : IsTimed test_world test_formats test_config
timed = record { dated = λ s. omega arith; forward = λ database snapshot s. omega arith }

mode_valid : utf8_valid test_config.backup_mode ≡ true
unfolding utf8_valid
mode_valid = refl

backup-IsRestorable_example :
    (names : List Bytes) × (before : Run test_world) × ((Backup.databases test_world test_formats
        test_config before).0
      ≡ ok names)
    × All (IsRestorable test_world test_formats test_config) names
backup-IsRestorable_example =
    backup-IsRestorable test_world test_formats test_config test_formats-IsLawful timed mode_valid
      start backed_up
