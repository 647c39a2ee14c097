-- ===== src/Backup.antt =====
-- internal/backup/app.go: Backup, backupDatabase and what they call.
-- The uploader and the producers of a backup run at once in the code, joined by pipes. Here the
-- producers run first and the upload reads what they have made, with the way it ended. Each waits
-- for the other's end before backupDatabase returns, and any failure fails the whole.
pub mod Database
pub mod Complete
pub mod Loop
pub mod Order
pub mod Published
pub mod Restorable
use mongodb_backup_s.Base.{
  ℕ, Bool, true, false, not, List, [], ◌∷◌, ◌++◌, Option, none, some, Bytes, codes, ltb, ◌==◌,
  if◌then◌else◌, is_empty, str_eq, trim_space, Error, joined, run_failures, versioning_disabled,
  version_empty, Result, ok, err, fail_if,
}
use mongodb_backup_s.Clock.{Instant}
use mongodb_backup_s.Config.{Config, full, fixed}
use mongodb_backup_s.Config.Validate.{validate_backup}
use mongodb_backup_s.Keys.{backup_key}
use mongodb_backup_s.Databases.{select_databases}
use mongodb_backup_s.World.{
  World, Member, Content, whole, broken_off, ciphertext, run_filter, Body, Snapshot, Action, lift,
  check_ctx, run_tool, ◌>>=◌, ◌>>◌,
}
use mongodb_backup_s.Mongo
use mongodb_backup_s.Process.{acquire_lock}
use mongodb_backup_s.Trace.{
  Run, Event, backup_complete, backup_failed, retention_failed, versioning_unknown, no_snapshot,
  silent, note, upload,
}
use mongodb_backup_s.Url.{break_at}
use mongodb_backup_s.Bundle.{Formats}
use mongodb_backup_s.Bundle.Write.{write_bundle, now}
use mongodb_backup_s.Retention.{cutoff_of, remove_old_backups}

-- A step whose error is looked at and not passed on.
unfoldable pub attempt {ℓ} :
    {S : Type ℓ} {A : Type 0} → (S → Result A × S) → S → Result (Result A) × S
attempt m s = let (a, s') = m s in (ok a, s')

-- `errors.Join` of two errors that may be nil.
unfoldable pub join {ℓ} : {A : Type ℓ} → Result A → Result (Unit {0}) → Result (Unit {0})
join (ok a) second = second
join (err e) (ok u) = err e
join (err e) (err e') = err (joined e e')

unfoldable pub join_errors : List Error → Result (Unit {0})
unfolding join
join_errors [] = ok tt
join_errors (e ∷ es) = let first : Result (Unit {0}) = err e in join first (join_errors es)

abbrev pub gpg_encrypt : List Bytes
gpg_encrypt =
    codes "--symmetric"
    ∷ codes "--batch"
    ∷ codes "--pinentry-mode"
    ∷ codes "loopback"
    ∷ codes "--output"
    ∷ codes "-"
    ∷ []

-- What a producer has written: a failed one leaves no footer.
unfoldable pub content_of : Result (List Member) → Content
content_of (ok members) = whole members
content_of (err e) = broken_off

-- What the upload reads, without and with gpg in between, whose error comes first.
unfoldable pub plain_body : Result (List Member) → Body
unfolding content_of join
plain_body bundle = record { content = content_of bundle; end = join bundle (ok tt) }

unfoldable pub sealed_body : Bytes → Result (Unit {0}) → Result (List Member) → Body
unfolding join
sealed_body output end bundle = record {
  content = ciphertext output;
  end = join end (join bundle (ok tt));
}

module _ (w : World) (f : Formats) (c : Config) where
  -- `mongodump --version`: the first line.
  unfoldable pub tools_version : Action w.State Bytes
  unfolding run_tool trim_space break_at
  tools_version = do
    output ← run_tool w (codes "mongodump") (codes "--version" ∷ [])
    let version = trim_space (break_at (λ b. b == b'\n') output).0
    lift (fail_if (is_empty version) version_empty)
    lift (ok version)

  -- produceEncrypted behind its producer: gpg reads what this has written, unless there is no passphrase.
  unfoldable pub encrypt : Result (List Member) → Action w.State Body
  unfolding run_filter content_of plain_body sealed_body
  encrypt bundle s =
      let (sealed, s') = run_filter w (codes "gpg") gpg_encrypt (content_of bundle) s in
      if is_empty c.passphrase
      then (ok (plain_body bundle), s)
      else (ok (sealed_body sealed.0 sealed.1 bundle), s')

  -- produceEncrypted over writeBundle
  unfoldable pub produce : Bytes → Snapshot → Bytes → Instant → Action w.State Body
  unfolding write_bundle encrypt attempt
  produce database snapshot version started = do
    bundle ← attempt (write_bundle w f c database snapshot version started)
    encrypt bundle

  unfoldable pub backup_database : Bytes → Snapshot → Bytes → Action (Run w) (Unit {0})
  unfolding produce backup_key upload
  backup_database database snapshot version = do
    started ← silent w (now w)
    body ← silent w (produce database snapshot version started)
    result ← attempt (upload w (backup_key c database started) body)
    lift (join result body.end)

  -- The body of the loop up to the message: a fresh look at the server, and the backup.
  unfoldable pub backup_one : Bytes → Bytes → Action (Run w) (Unit {0})
  unfolding backup_database
  backup_one version database = do
    snapshot ← silent w (Mongo.inspect w)
    backup_database database snapshot version

  unfoldable pub report_retention : Bytes → Result (Unit {0}) → Action (Run w) (List Error)
  report_retention database (ok u) = lift (ok [])
  report_retention database (err e) = do note w (retention_failed database); lift (ok (e ∷ []))

  unfoldable pub retain : ℕ → Instant → Bytes → Action (Run w) (List Error)
  unfolding remove_old_backups attempt report_retention
  retain days cutoff database =
      if ltb 0 days
      then (do
        result ← attempt (remove_old_backups w c database cutoff)
        report_retention database result)
      else lift (ok [])

  -- The messages after a backup, and the retention after one that succeeded.
  unfoldable pub after_backup :
      ℕ → Instant → Bytes → Result (Unit {0}) → Action (Run w) (List Error)
  unfolding retain
  after_backup days cutoff database (err e) = do note w (backup_failed database); lift (ok (e ∷ []))
  after_backup days cutoff database (ok u) = do
    note w (backup_complete database)
    retain days cutoff database

  -- The loop; `failures` are in the order of their events.
  unfoldable pub backup_all :
      ℕ → Instant → Bytes → List Error → List Bytes → Action (Run w) (List Error)
  unfolding after_backup backup_one attempt
  backup_all days cutoff version failures [] = lift (ok failures)
  backup_all days cutoff version failures (database ∷ databases) = do
    silent w (check_ctx w)
    result ← attempt (backup_one version database)
    more ← after_backup days cutoff database result
    backup_all days cutoff version (failures ++ more) databases

  -- The check of a bucket for fixed names. A bucket that cannot be asked is let through.
  unfoldable pub check_versioning : Result Bool → Action (Run w) (Unit {0})
  check_versioning (ok enabled) = lift (fail_if (not enabled) versioning_disabled)
  check_versioning (err e) = do silent w (check_ctx w); note w versioning_unknown

  unfoldable pub require_versioning : Action (Run w) (Unit {0})
  unfolding check_versioning attempt str_eq
  require_versioning =
      if str_eq c.filename_mode fixed
      then (do enabled ← attempt (silent w w.versioning_enabled); check_versioning enabled)
      else lift (ok tt)

  -- `databases`: one nameless database stands for the whole replica set.
  unfoldable pub databases : Action (Run w) (List Bytes)
  unfolding select_databases str_eq
  databases = if str_eq c.backup_mode full then lift (ok ([] ∷ [])) else (do
    note w no_snapshot
    existing ← silent w (Mongo.databases w)
    lift (select_databases c existing))

  unfoldable pub with_failures : Result (Unit {0}) → Result (Unit {0})
  with_failures (ok u) = ok tt
  with_failures (err all) = err (run_failures all)

  unfoldable pub finish : List Error → Result (Unit {0})
  unfolding join_errors with_failures
  finish [] = ok tt
  finish (e ∷ es) = with_failures (join_errors (e ∷ es))

  -- `withRunner`: the private files are removed in any case, and a failure to remove them counts.
  unfoldable pub with_runner : Action (Run w) (Unit {0}) → Action (Run w) (Unit {0})
  unfolding attempt join
  with_runner action = do
    silent w w.prepare
    result ← attempt action
    removed ← attempt (silent w w.clean_up)
    lift (join result removed)

  -- A deferred call without a result.
  unfoldable pub defer : {A : Type 0} → (w.State → w.State) → Action (Run w) A → Action (Run w) A
  defer cleanup action r =
      let (a, r') = action r in (a, record { env = cleanup r'.env; trace = r'.trace })

  unfoldable pub run_backups : ℕ → List Bytes → Instant → Action (Run w) (Unit {0})
  unfolding tools_version backup_all finish
  run_backups days databases cutoff = do
    version ← silent w (tools_version)
    failures ← backup_all days cutoff version [] databases
    lift (finish failures)

  unfoldable pub with_source : ℕ → Action (Run w) (Unit {0})
  unfolding databases cutoff_of with_runner run_backups
  with_source days = do
    selected ← databases
    started ← silent w (now w)
    with_runner (run_backups days selected (cutoff_of started days))

  unfoldable pub with_lock : ℕ → Action (Run w) (Unit {0})
  unfolding require_versioning defer with_source
  with_lock days = do
    require_versioning
    silent w (Mongo.new_source w c)
    defer (λ s. (Mongo.close w s).1) (with_source days)

  unfoldable pub backup : Action (Run w) (Unit {0})
  unfolding validate_backup defer with_lock
  backup = do
    silent w (check_ctx w)
    days ← lift (validate_backup c)
    silent w (acquire_lock w)
    defer w.close_lock (with_lock days)
