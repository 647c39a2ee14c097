-- ===== src/Retention.antt =====
-- internal/backup/app.go: timestampBackups, removeOldBackups and the cutoff of a run.
pub mod Deletes
pub mod Complete
use mongodb_backup_s.Base.{
  ℕ, ◌*◌, ◌-◌, ◌%◌, Bool, List, [], ◌∷◌, Bytes, ltb, ◌==◌, if◌then◌else◌, any, keep, Error,
  modification_time_missing, Result, ok, err, fail_if,
}
use mongodb_backup_s.Clock.{Instant, second, day_seconds}
use mongodb_backup_s.Config.{Config}
use mongodb_backup_s.Keys.{timestamp_prefix, is_timestamp_backup}
use mongodb_backup_s.World.{World, Object, Action, lift, check_ctx, ◌>>=◌, ◌>>◌}
use mongodb_backup_s.Trace.{Run, silent, delete}

-- `a.now().UTC().Truncate(time.Second).Add(-time.Duration(days) * 24 * time.Hour)`. A cutoff before
-- the zero instant is the zero instant here: no time lies before either.
unfoldable pub cutoff_of : Instant → ℕ → Instant
cutoff_of now days = now - now % second - days * (day_seconds * second)

module _ (w : World) (c : Config) where
  unfoldable pub timestamp_backups : Bytes → Action (Run w) (List Object)
  timestamp_backups database = do
    objects ← silent w (w.list (timestamp_prefix c database))
    lift (ok (keep (λ o. is_timestamp_backup c database o.key) objects))

  delete_if : Bool → Bytes → Action (Run w) (Unit {0})
  delete_if old key = if old then delete w key else lift (ok tt)

  -- The second loop.
  pub delete_old : Instant → List Object → Action (Run w) (Unit {0})
  unfolding delete_if
  delete_old cutoff [] = lift (ok tt)
  delete_old cutoff (o ∷ objects) = do
    silent w (check_ctx w)
    delete_if (ltb o.last_modified cutoff) o.key
    delete_old cutoff objects

  unfoldable pub remove_old_backups : Bytes → Instant → Action (Run w) (Unit {0})
  unfolding timestamp_backups delete_old
  remove_old_backups database cutoff = do
    objects ← timestamp_backups database
    lift (fail_if (any (λ o. o.last_modified == 0) objects) modification_time_missing)
    delete_old cutoff objects
