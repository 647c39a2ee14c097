-- ===== src/Restore/Verified.antt =====
-- internal/backup/restore.go: what restore and restoreAuth give to mongorestore.
use mongodb_backup_s.Base.{
  ◌≡◌, refl, Bool, true, false, ◌&&◌, ◌||◌, List, some, Bytes, codes, str_eq, arith, Bool-cases,
  inl, inr, Result, ok,
}
use mongodb_backup_s.Config.{Config}
use mongodb_backup_s.Config.Uri.{require_connection}
use mongodb_backup_s.Members.{manifest_json}
use mongodb_backup_s.Bundle.{Manifest, Formats}
use mongodb_backup_s.Bundle.Validate.{find_file, validate_bundle}
use mongodb_backup_s.Bundle.Intact.{IsIntact, validate_bundle-IsIntact}
use mongodb_backup_s.World.{World, ZipFile, lift}
use mongodb_backup_s.Trace.{Event, imported, Run, silent}
use mongodb_backup_s.Trace.Extends.{Adds, >>=-Adds, >>-Adds, silent-Adds, lift-Adds, import-Adds}
use mongodb_backup_s.RestoreArgs.{validate_restore}
use mongodb_backup_s.Process.{acquire_lock}
use mongodb_backup_s.Backup.{with_runner}
use mongodb_backup_s.Restore.Bundles.{defer-Adds, with_runner-Adds, with_bundle-Adds}
use mongodb_backup_s.Restore.{
  zip_member, with_bundle, restore_archive, users_first, archive_name, import_bundle, restore_as,
  unit_of,
}

-- What a restore may do to the server: it gives it a member of an accepted bundle, whole.
pub record IsVerified (f : Formats) (c : Config) (name : Bytes) (input : Result Bytes)
    : Type 0 where
  pub archive : List ZipFile
  pub manifest : Manifest
  pub member : ZipFile
  pub accepted : validate_bundle f c archive ≡ ok manifest
  pub listed : find_file name archive ≡ some member
  pub intact : IsIntact f manifest name member
  pub whole : input ≡ ok intact.contents

-- The events of a restore: nothing but such imports.
abbrev pub Imports : Formats → Config → Bool → Event → Type 0
Imports f c auth (imported args input) = IsVerified f c (archive_name auth) input
Imports f c auth _ = ⊥

archive_name_part : (auth : Bool) → str_eq (archive_name auth) manifest_json ≡ false
unfolding archive_name str_eq
archive_name_part true = refl
archive_name_part false = refl

zip_member-eq-ok :
    (name : Bytes) (zs : List ZipFile) (z : ZipFile)
    → zip_member name zs ≡ ok z
    → find_file name zs ≡ some z
unfolding zip_member
zip_member-eq-ok name zs z h = ground arith

module _ (w : World) (f : Formats) (c : Config) (auth : Bool) where
  abbrev P : Event → Type 0
  P = Imports f c auth

  restore_archive-Adds :
      (z : ZipFile) (args : List Bytes) (r : Run w)
      → IsVerified f c (archive_name auth) z.read
      → Adds w P (restore_archive w f c z args) r
  unfolding restore_archive
  restore_archive-Adds z args r h =
      >>-Adds w P (lift z.opens) _ r (lift-Adds w P z.opens r)
        λ _. import-Adds w P (codes "mongorestore") args z.read (lift z.opens r).1 h

  import_bundle-Adds :
      (zs : List ZipFile) (m : Manifest) (r : Run w)
      → validate_bundle f c zs ≡ ok m
      → Adds w P (import_bundle w f c auth zs m) r
  unfolding import_bundle users_first lift
  import_bundle-Adds zs m r h =
      >>=-Adds w P (lift (zip_member (archive_name auth) zs)) _ r
        (lift-Adds w P (zip_member (archive_name auth) zs) r)
        λ z e.
          let listed = zip_member-eq-ok (archive_name auth) zs z e in
          let intact =
            validate_bundle-IsIntact f c zs m (archive_name auth) z h listed
              (archive_name_part auth) in
          let verified : IsVerified f c (archive_name auth) z.read = record {
            archive = zs;
            manifest = m;
            member = z;
            accepted = h;
            listed = listed;
            intact = intact;
            whole = intact.read;
          } in
          >>-Adds w P (users_first w f c z ((auth || m.oplog) && c.restore_drop)) _ r
            (elim (Bool-cases ((auth || m.oplog) && c.restore_drop)) [
              | inl need ↦ rw need (restore_archive-Adds z _ r verified)
              | inr none_needed ↦ rw none_needed (lift-Adds w P (ok tt) r)
            ])
            λ _.
              restore_archive-Adds z _
                (users_first w f c z ((auth || m.oplog) && c.restore_drop) r).1 verified

  -- Restore and restore-auth give mongorestore nothing but the member of a bundle that was accepted as
  -- a whole before, with the contents whose size and SHA-256 its manifest records; they make no
  -- other change of the store or the server, whether they succeed or fail.
  pub restore_as-Imports : (args : List Bytes) (r : Run w) → Adds w P (restore_as w f c auth args) r
  unfolding restore_as
  restore_as-Imports args r =
      >>-Adds w P (lift (require_connection c)) _ r (lift-Adds w P (require_connection c) r) λ _.
        >>-Adds w P (lift (unit_of (validate_restore c args))) _ _ (lift-Adds w P _ _) λ _.
          >>-Adds w P (silent w (acquire_lock w)) _ _ (silent-Adds w P (acquire_lock w) _) λ _.
            defer-Adds w P f c w.close_lock
              (with_runner w f c (with_bundle w f c args (import_bundle w f c auth))) _
              (with_runner-Adds w P f c (with_bundle w f c args (import_bundle w f c auth)) _ λ s.
                with_bundle-Adds w P f c args (import_bundle w f c auth) s
                  λ zs m t accepted. import_bundle-Adds zs m t accepted)
