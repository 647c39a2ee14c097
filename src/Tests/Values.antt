-- ===== src/Tests/Values.antt =====
-- Examples on values: the configuration, the keys, the selection and the log.
use mongodb_backup_s.Base.{
  ℕ, ◌≡◌, ◌≤◌, ◌<◌, ◌⊎◌, ◌↔◌, ◌≢◌, refl, true, false, not, [], ◌∷◌, ◌++◌, if◌then◌else◌, Option,
  none, some, Bytes, codes, Result, ok, err, external, str_eq, All, arith,
}
use mongodb_backup_s.Config.{Config, full, fixed, timestamp}
use mongodb_backup_s.Clock.{civil}
use mongodb_backup_s.Keys.{is_timestamp_backup, backup_key}
use mongodb_backup_s.Keys.Encode.{IsByte}
use mongodb_backup_s.Keys.Shape.{is_timestamp_backup-backup_key}
use mongodb_backup_s.Keys.Isolation.{is_timestamp_backup_isolated}
use mongodb_backup_s.Config.Databases.{validate_databases, validate_databases_iff, IsDatabase}
use mongodb_backup_s.Config.Validate.{validate_backup}
use mongodb_backup_s.Config.Validate.Days.{validate_backup_days, value}
use mongodb_backup_s.Config.Validate.Selectors.{validate_backup_selectors, IsWhole, IsAll, IsNamed}
use mongodb_backup_s.Config.Load.{load_config}
use mongodb_backup_s.Config.Load.Loaded.{load_config-IsLoaded, IsLoaded}
use mongodb_backup_s.Databases.{select_databases}
use mongodb_backup_s.Databases.Selected.{select_databases-IsSelection, IsSelection}
use mongodb_backup_s.Secrets.{SecretWriter, write, flush, cut_lines}
use mongodb_backup_s.Secrets.Chunks.{write-append}
use mongodb_backup_s.Secrets.Transcript.{write-IsBounded, IsBounded, flush-write, fresh, transcript}
use mongodb_backup_s.Tests.Site.{shop, old_key-IsBackup, test_config, whole_config, march, old_key}

abbrev whole_key : Bytes
whole_key = codes "backup/full/2024-01-08T00:00:00.zip"

shop-bytes : All IsByte shop
shop-bytes = (omega arith, (omega arith, (omega arith, (omega arith, tt))))

single : str_eq test_config.backup_mode full ≡ false
unfolding str_eq
single = refl

is_timestamp_backup_isolated_example : shop ≡ shop
is_timestamp_backup_isolated_example =
    is_timestamp_backup_isolated test_config shop shop old_key single shop-bytes shop-bytes
      old_key-IsBackup old_key-IsBackup

selected : select_databases test_config (codes "admin" ∷ shop ∷ []) ≡ ok (shop ∷ [])
unfolding select_databases validate_databases
selected = refl

select_databases-IsSelection_example :
    IsSelection test_config (codes "admin" ∷ shop ∷ []) (shop ∷ [])
select_databases-IsSelection_example =
    select_databases-IsSelection test_config (codes "admin" ∷ shop ∷ []) (shop ∷ []) selected

this_year : (civil march).year < 10000
unfolding civil
this_year = omega arith

is_timestamp_backup-backup_key_example :
    is_timestamp_backup test_config shop (backup_key test_config shop march)
    ≡ not (str_eq timestamp fixed)
is_timestamp_backup-backup_key_example =
    is_timestamp_backup-backup_key test_config shop march this_year

whole : str_eq whole_config.backup_mode full ≡ true
unfolding str_eq
whole = refl

abbrev tokens : SecretWriter
tokens = fresh [] (codes "pw" ∷ [])

write-append_example :
    write (write tokens (codes "key p")) (codes "w\n") ≡ write tokens (codes "key p" ++ codes "w\n")
write-append_example = write-append tokens (codes "key p") (codes "w\n")

flush-write_example :
    flush (write (fresh [] (codes "pw" ∷ [])) (codes "a pw\nb"))
    ≡ fresh ([] ++ transcript (codes "pw" ∷ []) (cut_lines (codes "a pw\nb"))) (codes "pw" ∷ [])
flush-write_example = flush-write [] (codes "pw" ∷ []) (codes "a pw\nb")

write-IsBounded_example : IsBounded (write tokens (codes "a line"))
write-IsBounded_example = write-IsBounded tokens (codes "a line") (omega arith)

abbrev week : ℕ
week = 7

validated : validate_backup test_config ≡ ok week
unfolding validate_backup mongodb_backup_s.Config.Uri.require_connection
    mongodb_backup_s.Config.Uri.validate_uri validate_databases
validated = refl

validate_backup_selectors_example : IsWhole test_config ⊎ IsAll test_config ⊎ IsNamed test_config
validate_backup_selectors_example = validate_backup_selectors test_config week validated

validate_backup_days_example :
    ((test_config.keep_days ≡ []) × (week ≡ 0))
    ⊎ ((test_config.keep_days ≢ [])
        × (week ≡ value 0 test_config.keep_days)
        × (1 ≤ week)
        × (week ≤ 36500))
validate_backup_days_example = validate_backup_days test_config week validated

validate_databases_iff_example :
    (validate_databases (shop ∷ []) ≡ ok tt) ↔ ((shop ∷ [] ≢ []) × All IsDatabase (shop ∷ []))
validate_databases_iff_example = validate_databases_iff (shop ∷ [])

-- The environment of a deployment that sets only what it must.
abbrev settings : Bytes → Option Bytes
settings key =
    if str_eq key (codes "S3_BUCKET")
    then some (codes "b")
    else if str_eq key (codes "MONGODB_URI")
    then some (codes "mongodb://h")
    else none

abbrev no_files : Bytes → Result Bytes
no_files path = err (external 2)

abbrev loaded_config : Config
loaded_config = record test_config {
  config_dir = [];
  database = [];
  backup_mode = full;
  keep_days = [];
}

loaded : load_config settings no_files ≡ ok loaded_config
unfolding load_config mongodb_backup_s.Config.Uri.validate_uri
loaded = refl

load_config-IsLoaded_example : IsLoaded loaded_config
load_config-IsLoaded_example = load_config-IsLoaded settings no_files loaded_config loaded
