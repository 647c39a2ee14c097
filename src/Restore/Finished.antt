-- ===== src/Restore/Finished.antt =====
-- internal/backup/restore.go: what a restore without an error has done.
use mongodb_backup_s.Base.{Bool, ◌≡◌, List, [], ◌∷◌, ◌++◌, ok}
use mongodb_backup_s.Config.{Config}
use mongodb_backup_s.Bundle.{Manifest, Formats}
use mongodb_backup_s.Bundle.Validate.{validate_bundle}
use mongodb_backup_s.World.{World, ZipFile, Action}
use mongodb_backup_s.Trace.{Run, Event, imported}
use mongodb_backup_s.Restore.{zip_member, restore_args, selection, archive_name}

module _ (w : World) (Q : List Event → Type 0) where
  -- If the action succeeds, its trace has the property.
  abbrev Gives : {A : Type 0} → Action (Run w) A → Run w → Type 0
  Gives {A} m r = (a : A) → (m r).0 ≡ ok a → Q (m r).1.trace

-- The last import of a restore: the whole archive of an accepted bundle, with the arguments for it.
pub record IsImported (w : World) (f : Formats) (c : Config) (auth : Bool) (t : List Event)
    : Type 0 where
  pub archive : List ZipFile
  pub manifest : Manifest
  pub accepted : validate_bundle f c archive ≡ ok manifest
  pub member : ZipFile
  pub found : zip_member (archive_name auth) archive ≡ ok member
  pub before : List Event
  pub sent :
      t ≡ imported (restore_args w f c ++ (selection w f c auth manifest ∷ [])) member.read ∷ before
