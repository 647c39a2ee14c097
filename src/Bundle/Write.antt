-- ===== src/Bundle/Write.antt =====
-- internal/backup/bundle.go: writeBundle, and dumpArgs of app.go. A bundle that cannot be finished
-- is an error; what had been written of it by then is not kept, since its reader fails too.
use mongodb_backup_s.Base.{
  Bool, true, false, ◌&&◌, ◌||◌, not, List, [], ◌∷◌, ◌++◌, none, some, Bytes, codes, ltb,
  if◌then◌else◌, is_empty, str_eq, length, member_unsupported, member_duplicate, server_changed,
  manifest_too_large, ok, fail_if,
}
use mongodb_backup_s.Clock.{Instant, decimal}
use mongodb_backup_s.Config.{Config, full, per_database}
use mongodb_backup_s.Members.{
  safe_member, allowed_member, manifest_json, replica_set_json, data_archive, auth_archive,
}
use mongodb_backup_s.Mongo
use mongodb_backup_s.Capture.{Reading}
use mongodb_backup_s.Capture.Directory.{capture_config}
use mongodb_backup_s.World.{World, Member, Snapshot, Action, lift, check_ctx, run_tool, ◌>>=◌, ◌>>◌}
use mongodb_backup_s.Bundle.{FileRecord, Manifest, Formats, manifest_limit, find_record}

-- What the closure `add` works on: the archive so far and `m.Files`.
pub record Builder : Type 0 where
  pub members : List Member
  pub files : List (Bytes × FileRecord)

abbrev pub empty : Builder
empty = record { members = []; files = [] }

unfoldable pub has_file : List (Bytes × FileRecord) → Bytes → Bool
unfolding find_record
has_file files name = elim (find_record name files) [ none ↦ false | some _ ↦ true ]

unfoldable pub connection_args : Config → List Bytes
connection_args c = if is_empty c.tls_ca then [] else (codes "--sslCAFile=" ++ c.tls_ca) ∷ []

unfoldable pub dump_args : Config → Bytes → Bool → List Bytes
unfolding connection_args str_eq
dump_args c database auth =
    connection_args c
    ++ (codes "--archive"
        ∷ codes "--gzip"
        ∷ (codes "--readPreference=" ++ c.read_preference)
        ∷ (codes "--numParallelCollections=" ++ decimal c.parallel_collections)
        ∷ (if auth
            then codes "--db=admin"
            else if str_eq c.backup_mode full
            then codes "--oplog"
            else codes "--db=" ++ database)
        ∷ [])

unfoldable pub same_snapshot : Snapshot → Snapshot → Bool
unfolding str_eq
same_snapshot before after =
    str_eq before.replica_set after.replica_set
    && str_eq before.fcv after.fcv
    && str_eq before.server_version after.server_version

unfoldable pub manifest_of :
    Config → Bytes → Snapshot → Bytes → Instant → Instant → Builder → Manifest
unfolding str_eq
manifest_of c database snapshot tools started completed b = record {
  format_version = 1;
  mode = c.backup_mode;
  database = database;
  oplog = str_eq c.backup_mode full;
  started_at = started;
  completed_at = completed;
  server_version = snapshot.server_version;
  fcv = snapshot.fcv;
  tools_version = tools;
  config_included = not (is_empty c.config_dir);
  files = b.files;
}

unfoldable pub close : Builder → Bytes → List Member
close b manifest = b.members ++ (record { name = manifest_json; contents = manifest } ∷ [])

module _ (f : Formats) where
  unfoldable pub record_of : Bytes → FileRecord
  record_of contents = record { size = length contents; sha256 = f.sha256_hex contents }

  unfoldable pub put : Builder → Bytes → Bytes → Builder
  unfolding record_of
  put b name contents = record {
    members = b.members ++ (record { name = name; contents = contents } ∷ []);
    files = b.files ++ ((name, record_of contents) ∷ []);
  }

unfoldable pub now : (w : World) → Action w.State Instant
now w s = (ok (w.now s), s)

module _ (w : World) (f : Formats) where
  -- What produces the part also gives something back.
  unfoldable pub add_with :
      {A : Type 0} → (A → Bytes) → Builder → Bytes → Action w.State A → Action w.State (Builder × A)
  unfolding put has_file safe_member allowed_member str_eq
  add_with contents b name produce = do
    check_ctx w
    lift (
        fail_if (not (safe_member name) || not (allowed_member name) || str_eq name manifest_json)
          member_unsupported)
    lift (fail_if (has_file b.files name) member_duplicate)
    a ← produce
    lift (ok (put f b name (contents a), a))

  unfoldable pub add : Builder → Bytes → Action w.State Bytes → Action w.State Builder
  unfolding add_with
  add b name produce = do added ← add_with (λ x. x) b name produce; lift (ok added.0)

  -- The callback that writeBundle gives to captureConfig.
  unfoldable pub add_reading :
      Builder → Bytes → Action w.State Reading → Action w.State (Builder × Reading)
  unfolding add_with
  add_reading b name read = add_with (λ (r : Reading). r.contents) b name read

  -- The admin database goes along with a single database.
  unfoldable pub add_auth : Config → Bytes → Builder → Action w.State Builder
  unfolding add dump_args str_eq run_tool
  add_auth c database b =
      if str_eq c.backup_mode per_database
      then add b auth_archive (run_tool w (codes "mongodump") (dump_args c database true))
      else lift (ok b)

  -- All parts but the manifest.
  unfoldable pub collect : Config → Bytes → Snapshot → Action w.State Builder
  unfolding add capture_config add_reading add_auth dump_args run_tool
  collect c database snapshot = do
    b1 ← add empty replica_set_json (lift (ok snapshot.replica_set))
    b2 ← capture_config w f.sha256 c.config_dir add_reading b1
    b3 ← add b2 data_archive (run_tool w (codes "mongodump") (dump_args c database false))
    add_auth c database b3

  unfoldable pub write_bundle :
      Config → Bytes → Snapshot → Bytes → Instant → Action w.State (List Member)
  unfolding collect same_snapshot now manifest_of close
  write_bundle c database snapshot tools started = do
    b ← collect c database snapshot
    after ← Mongo.inspect w
    lift (fail_if (not (same_snapshot snapshot after)) server_changed)
    completed ← now w
    manifest ← lift (f.to_json (manifest_of c database snapshot tools started completed b))
    lift (fail_if (ltb manifest_limit (length manifest)) manifest_too_large)
    check_ctx w
    lift (ok (close b manifest))
