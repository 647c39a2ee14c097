-- ===== src/Tests/Runs.antt =====
-- Examples of runs on the small site: a backup, its bundle, the retention, and a restore.
use mongodb_backup_s.Base.{
  ◌≡◌, ◌≤◌, ◌<◌, ◌⊎◌, refl, true, false, List, [], ◌∷◌, map, some, Bytes, codes, Result, ok, err,
  has_prefix, str_eq, arith, utf8_valid,
}
use mongodb_backup_s.Config.{Config, fixed}
use mongodb_backup_s.Clock.{Instant}
use mongodb_backup_s.Keys.{timestamp_prefix, is_timestamp_backup}
use mongodb_backup_s.Config.Databases.{validate_databases}
use mongodb_backup_s.Trace.{In}
use mongodb_backup_s.Trace.Extends.{Adds}
use mongodb_backup_s.Retention.{remove_old_backups}
use mongodb_backup_s.Retention.Deletes.{first, Retains, remove_old_backups-Retains}
use mongodb_backup_s.Retention.Complete.{remove_old_backups_complete}
use mongodb_backup_s.Restore.{choose_by}
use mongodb_backup_s.Restore.Choice.{choose_by-IsNewest, IsNewest}
use mongodb_backup_s.Bundle.Write.{write_bundle, manifest_of}
use mongodb_backup_s.Bundle.Validate.{find_file}
use mongodb_backup_s.Bundle.Intact.{IsIntact, validate_bundle-IsIntact}
use mongodb_backup_s.Members.{data_archive, manifest_json}
use mongodb_backup_s.Bundle.Good.{stored}
use mongodb_backup_s.Bundle.RoundTrip.{
  IsReady, IsAccepted, completed_at, validate_bundle-write_bundle,
}
use mongodb_backup_s.Bundle.{Manifest, reread}
use mongodb_backup_s.Listing.{Page, list_pages}
use mongodb_backup_s.Listing.Pages.{entry_of, IsListing, list_pages-IsListing}
use mongodb_backup_s.Backup.{backup, backup_database}
use mongodb_backup_s.Backup.Published.{IsPublished, backup_database-IsPublished}
use mongodb_backup_s.World.{World, Object, Member}
use mongodb_backup_s.Trace.{Run, uploaded, deleted, backup_complete, no_snapshot}
use mongodb_backup_s.Tests.Json.{test_formats, test_formats-IsLawful, checksum, write_json}
use mongodb_backup_s.Tests.Site.{
  shop, old_key-IsBackup, test_config, test_snapshot, january, march, test_world, test_site,
  old_key,
}

abbrev start : Run test_world
start = record { env = test_site; trace = [] }

abbrev new_key : Bytes
new_key = codes "backup/per-database/shop/2024-03-01T00:00:00.zip"

-- A run uploads a new backup and then deletes the old one of its database.
backup_test :
    (backup test_world test_formats test_config start).1.trace
    ≡ deleted old_key ∷ backup_complete (codes "shop") ∷ uploaded new_key ∷ no_snapshot ∷ []
unfolding backup checksum write_json has_prefix str_eq mongodb_backup_s.World.◌>>◌
    mongodb_backup_s.Trace.silent mongodb_backup_s.World.check_ctx mongodb_backup_s.World.lift
    mongodb_backup_s.Config.Uri.require_connection mongodb_backup_s.Config.Uri.validate_uri
    mongodb_backup_s.Config.Databases.validate_databases mongodb_backup_s.Trace.note
    mongodb_backup_s.Keys.is_timestamp_backup mongodb_backup_s.Trace.delete
    mongodb_backup_s.Process.acquire_lock mongodb_backup_s.Mongo.new_source
    mongodb_backup_s.Mongo.databases mongodb_backup_s.Mongo.inspect
    mongodb_backup_s.Capture.is_regular
backup_test = refl

abbrev shop_objects : List Object
shop_objects = record { key = old_key; last_modified = january } ∷ []

remove_old_backups-Retains_example :
    Adds test_world
      (Retains test_world test_config shop march test_site)
      (remove_old_backups test_world test_config shop march)
      start
remove_old_backups-Retains_example =
    remove_old_backups-Retains test_world test_config shop march start

listed : (test_world.list (timestamp_prefix test_config shop) test_site).0 ≡ ok shop_objects
unfolding timestamp_prefix has_prefix mongodb_backup_s.Base.cut_prefix
listed = refl

removed : (remove_old_backups test_world test_config shop march start).0 ≡ ok tt
unfolding remove_old_backups has_prefix str_eq mongodb_backup_s.World.◌>>=◌
    mongodb_backup_s.Trace.silent mongodb_backup_s.World.lift mongodb_backup_s.World.◌>>◌
    mongodb_backup_s.Base.cut_prefix timestamp_prefix is_timestamp_backup
    mongodb_backup_s.World.check_ctx mongodb_backup_s.Trace.delete
removed = refl

remove_old_backups_complete_example :
    (0 < january)
    × ((march ≤ january)
        ⊎ In (deleted old_key) (remove_old_backups test_world test_config shop march start).1.trace)
remove_old_backups_complete_example =
    remove_old_backups_complete test_world test_config shop march start shop_objects
      (record { key = old_key; last_modified = january }) listed first old_key-IsBackup removed

latest_chosen : (choose_by test_world test_config [] start).0 ≡ ok old_key
unfolding choose_by mongodb_backup_s.World.◌>>=◌ mongodb_backup_s.Trace.silent
    mongodb_backup_s.World.lift is_timestamp_backup
latest_chosen = refl

timestamped : str_eq test_config.filename_mode fixed ≡ false
unfolding str_eq
timestamped = refl

choose_by-IsNewest_example :
    (objects : List Object) × ((test_world.list (timestamp_prefix test_config shop) test_site).0
      ≡ ok objects)
    × IsNewest test_config objects old_key
choose_by-IsNewest_example =
    choose_by-IsNewest test_world test_config start old_key timestamped latest_chosen

abbrev tools : Bytes
tools = codes "100.10.0"

abbrev members_of : Result (List Member) → List Member
members_of (ok members) = members
members_of (err e) = []

abbrev bundle_members : List Member
bundle_members =
    members_of
      (write_bundle test_world test_formats test_config shop test_snapshot tools march test_site).0

bundled :
    (write_bundle test_world test_formats test_config shop test_snapshot tools march test_site).0
    ≡ ok bundle_members
unfolding write_bundle mongodb_backup_s.World.◌>>=◌ mongodb_backup_s.World.◌>>◌
    mongodb_backup_s.World.check_ctx mongodb_backup_s.World.lift mongodb_backup_s.Base.cut_prefix
    write_json mongodb_backup_s.Clock.digits mongodb_backup_s.Mongo.inspect checksum
    mongodb_backup_s.Capture.is_regular
bundled = refl

ready :
    IsReady test_world test_formats test_config test_config shop test_snapshot tools march test_site
unfolding utf8_valid
ready = record {
  mode_valid = refl;
  database_valid = refl;
  server_version = refl;
  fcv = refl;
  tools_version = refl;
  dated = omega arith;
  clock = omega arith;
}

validate_bundle-write_bundle_example :
    IsAccepted test_world test_formats test_config test_config shop test_snapshot tools march
      test_site bundle_members
validate_bundle-write_bundle_example =
    validate_bundle-write_bundle test_world test_formats test_config test_config shop test_snapshot
      tools march test_site bundle_members test_formats-IsLawful (refl, refl) ready bundled

accepted :
    IsAccepted test_world test_formats test_config test_config shop test_snapshot tools march
      test_site bundle_members
accepted =
    validate_bundle-write_bundle test_world test_formats test_config test_config shop test_snapshot
      tools march test_site bundle_members test_formats-IsLawful (refl, refl) ready bundled

abbrev accepted_manifest : Manifest
accepted_manifest =
    reread test_formats
      (manifest_of test_config shop test_snapshot tools march
        (completed_at test_world test_formats test_config test_config shop test_snapshot tools march
          test_site)
        accepted.parts)
      accepted.files

abbrev data_member : Member
data_member = record { name = data_archive; contents = codes "mongodump version: 100.10.0\n" }

data_found : find_file data_archive (map stored bundle_members) ≡ some (stored data_member)
unfolding find_file str_eq write_bundle mongodb_backup_s.World.◌>>=◌ mongodb_backup_s.World.◌>>◌
    mongodb_backup_s.World.check_ctx mongodb_backup_s.World.lift mongodb_backup_s.Base.cut_prefix
    mongodb_backup_s.Mongo.inspect write_json mongodb_backup_s.Clock.digits checksum
    mongodb_backup_s.Capture.is_regular
data_found = refl

data_part : str_eq data_archive manifest_json ≡ false
unfolding str_eq
data_part = refl

validate_bundle-IsIntact_example :
    IsIntact test_formats accepted_manifest data_archive (stored data_member)
validate_bundle-IsIntact_example =
    validate_bundle-IsIntact test_formats test_config (map stored bundle_members) accepted_manifest
      data_archive (stored data_member) accepted.accepted data_found data_part

abbrev object_a : Object
object_a = record { key = codes "a"; last_modified = january }

abbrev object_b : Object
object_b = record { key = codes "b"; last_modified = march }

-- Two pages, the first with a token for the second.
abbrev answers : List (Result Page)
answers =
    ok (record { contents = entry_of object_a ∷ []; is_truncated = true; next_token = codes "t" })
    ∷ ok (record { contents = entry_of object_b ∷ []; is_truncated = false; next_token = [] })
    ∷ []

both_listed : list_pages [] answers ≡ some (ok (object_a ∷ object_b ∷ []))
unfolding list_pages
both_listed = refl

list_pages-IsListing_example : IsListing [] answers (object_a ∷ object_b ∷ [])
list_pages-IsListing_example = list_pages-IsListing answers (object_a ∷ object_b ∷ []) both_listed

published :
    (backup_database test_world test_formats test_config shop test_snapshot tools start).0 ≡ ok tt
unfolding backup_database mongodb_backup_s.World.◌>>=◌ mongodb_backup_s.Trace.silent
    mongodb_backup_s.World.lift mongodb_backup_s.World.◌>>◌ mongodb_backup_s.World.check_ctx
    mongodb_backup_s.Base.cut_prefix write_json mongodb_backup_s.Mongo.inspect checksum
    mongodb_backup_s.Capture.is_regular
published = refl

backup_database-IsPublished_example :
    IsPublished test_world test_formats test_config shop test_snapshot tools start.env
backup_database-IsPublished_example =
    backup_database-IsPublished test_world test_formats test_config shop test_snapshot tools start
      published
