-- ===== src/Restore.antt =====
-- internal/backup/restore.go: withBundle, restore and restoreAuth. The messages are left out.
pub mod Latest
pub mod Verified
pub mod Finished
pub mod Bundles
pub mod Choice
use mongodb_backup_s.Base.{
  Bool, true, false, wrapped, ◌&&◌, not, List, [], ◌∷◌, ◌++◌, Bytes, if◌then◌else◌, is_empty,
  str_eq, str_lt, has_suffix, no_backup_found, codes, ◌||◌, Option, none, some, member_missing,
  restore_auth_mode, fail_if, Result, ok, err,
}
use mongodb_backup_s.Clock.{decimal}
use mongodb_backup_s.Config.{Config, fixed, per_database}
use mongodb_backup_s.Config.Uri.{require_connection}
use mongodb_backup_s.Members.{join_path, data_archive, auth_archive}
use mongodb_backup_s.Bundle.{Manifest, Formats}
use mongodb_backup_s.Bundle.Write.{connection_args}
use mongodb_backup_s.Bundle.Validate.{find_file, validate_bundle}
use mongodb_backup_s.Backup.{attempt, join, defer, with_runner}
use mongodb_backup_s.Process.{acquire_lock}
use mongodb_backup_s.Keys.{timestamp_prefix, fixed_key, file_type}
use mongodb_backup_s.World.{World, Object, ZipFile, run_tool, Action, lift, ◌>>=◌, ◌>>◌}
use mongodb_backup_s.Trace.{Run, silent, import}
use mongodb_backup_s.Retention.{timestamp_backups}
use mongodb_backup_s.RestoreArgs.{validate_restore}

-- The loop for the newest backup.
unfoldable pub latest : Bytes → List Object → Bytes → Bytes
unfolding has_suffix str_lt
latest suffix [] key = key
latest suffix (o ∷ objects) key =
    latest suffix objects (if has_suffix o.key suffix && str_lt key o.key then o.key else key)

unfoldable pub found : Bytes → Result Bytes
found key = if is_empty key then err no_backup_found else ok key

module _ (w : World) (c : Config) where
  unfoldable pub choose_by : Bytes → Action (Run w) Bytes
  unfolding fixed_key timestamp_prefix file_type timestamp_backups latest found str_eq
  choose_by time =
      if str_eq c.filename_mode fixed
      then lift (ok (fixed_key c c.database))
      else if not (is_empty time)
      then lift (ok (timestamp_prefix c c.database ++ (time ++ file_type c)))
      else (do
        objects ← timestamp_backups w c c.database
        lift (found (latest (file_type c) objects [])))

  -- The key to download, and the version of it.
  unfoldable pub choose_key : List Bytes → Action (Run w) (Bytes × Bytes)
  unfolding validate_restore choose_by
  choose_key args = do
    chosen ← lift (validate_restore c args)
    key ← choose_by chosen.0
    lift (ok (key, chosen.1))

-- `zipMember`
unfoldable pub zip_member : Bytes → List ZipFile → Result ZipFile
unfolding find_file
zip_member name zs = elim (find_file name zs) [ none ↦ err member_missing | some z ↦ ok z ]

abbrev pub gpg_decrypt : List Bytes
gpg_decrypt = codes "--decrypt" ∷ codes "--batch" ∷ codes "--pinentry-mode" ∷ codes "loopback" ∷ []

unfoldable pub wrap {ℓ} : {A : Type ℓ} → Result A → Result A
wrap (ok a) = ok a
wrap (err e) = err (wrapped e)

-- An answer of which only the error counts.
unfoldable pub unit_of {ℓ} : {A : Type ℓ} → Result A → Result (Unit {0})
unit_of (ok a) = ok tt
unit_of (err e) = err e

unfoldable pub archive_name : Bool → Bytes
archive_name auth = if auth then auth_archive else data_archive

module _ (w : World) (f : Formats) (c : Config) where
  -- `withWorkspace`
  unfoldable pub with_workspace : (Bytes → Action (Run w) (Unit {0})) → Action (Run w) (Unit {0})
  unfolding attempt join
  with_workspace action = do
    dir ← silent w (w.make_temp [])
    result ← attempt (action dir)
    removed ← attempt (silent w (w.remove_all dir))
    lift (join result removed)

  -- gpg's output goes to a new file, which is closed in any case.
  unfoldable pub decrypt : Bytes → Bytes → Action w.State Bytes
  unfolding attempt join run_tool join_path
  decrypt dir file =
      let plain = join_path dir (codes "backup.zip") in
      if is_empty c.passphrase then lift (ok file) else (do
        w.create plain
        text ← attempt (run_tool w (codes "gpg") (gpg_decrypt ++ (file ∷ [])))
        closed ← attempt (w.fill plain text)
        lift (join text closed)
        lift (ok plain))

  unfoldable pub open_bundle : Bytes → Action w.State (List ZipFile)
  unfolding wrap
  open_bundle file s = let (zs, s') = w.open_archive file s in (wrap zs, s')

  -- What is done with an archive that is open: the whole check first.
  unfoldable pub checked :
      (List ZipFile → Manifest → Action (Run w) (Unit {0}))
      → List ZipFile
      → Action (Run w) (Unit {0})
  unfolding validate_bundle
  checked action zs = do m ← lift (validate_bundle f c zs); action zs m

  unfoldable pub in_workspace :
      (List ZipFile → Manifest → Action (Run w) (Unit {0}))
      → Bytes
      → Bytes
      → Bytes
      → Action (Run w) (Unit {0})
  unfolding decrypt join_path file_type defer checked open_bundle
  in_workspace action key version dir = do
    let file = join_path dir (codes "backup" ++ file_type c)
    silent w (w.download key version file)
    plain ← silent w (decrypt dir file)
    zs ← silent w (open_bundle plain)
    defer w f c w.close_archive (checked action zs)

  -- `withBundle`
  unfoldable pub with_bundle :
      List Bytes → (List ZipFile → Manifest → Action (Run w) (Unit {0})) → Action (Run w) (Unit {0})
  unfolding choose_key with_workspace in_workspace
  with_bundle args action = do
    chosen ← choose_key w c args
    with_workspace (in_workspace action chosen.0 chosen.1)

  -- `restoreArchive`
  unfoldable pub restore_archive : ZipFile → List Bytes → Action (Run w) (Unit {0})
  unfolding import
  restore_archive z args = do lift z.opens; import w (codes "mongorestore") args z.read

  unfoldable pub restore_args : List Bytes
  unfolding connection_args decimal
  restore_args =
      connection_args c
      ++ (codes "--archive"
          ∷ codes "--gzip"
          ∷ codes "--stopOnError"
          ∷ (codes "--numParallelCollections=" ++ decimal c.parallel_collections)
          ∷ (if c.restore_drop then codes "--drop" ∷ [] else []))

  -- The last argument: what is restored, once the users are.
  unfoldable pub selection : Bool → Manifest → Bytes
  selection auth m =
      if auth
      then codes "--nsInclude=admin.*"
      else if m.oplog
      then codes "--oplogReplay"
      else codes "--nsInclude=" ++ (c.database ++ codes ".*")

  unfoldable pub users_first : ZipFile → Bool → Action (Run w) (Unit {0})
  unfolding restore_archive restore_args
  users_first z needed =
      if needed
      then restore_archive z (
          restore_args
          ++ (codes "--nsInclude=admin.system.users"
              ∷ codes "--nsInclude=admin.system.roles"
              ∷ codes "--nsInclude=admin.system.version"
              ∷ []))
      else lift (ok tt)

  -- The callback of `restore`.
  unfoldable pub import_bundle : Bool → List ZipFile → Manifest → Action (Run w) (Unit {0})
  unfolding zip_member users_first restore_archive selection restore_args archive_name
  import_bundle auth zs m = do
    z ← lift (zip_member (archive_name auth) zs)
    users_first z ((auth || m.oplog) && c.restore_drop)
    restore_archive z (restore_args ++ (selection auth m ∷ []))

  unfoldable pub restore_as : Bool → List Bytes → Action (Run w) (Unit {0})
  unfolding require_connection validate_restore acquire_lock defer with_runner with_bundle
      import_bundle
  restore_as auth args = do
    lift (require_connection c)
    lift (unit_of (validate_restore c args))
    silent w (acquire_lock w)
    defer w f c w.close_lock (with_runner w f c (with_bundle args (import_bundle auth)))

  unfoldable pub restore : List Bytes → Action (Run w) (Unit {0})
  unfolding restore_as
  restore args = restore_as false args

  unfoldable pub restore_auth : List Bytes → Action (Run w) (Unit {0})
  unfolding restore_as
  restore_auth args = do
    lift (fail_if (not (str_eq c.backup_mode per_database)) restore_auth_mode)
    restore_as true args
