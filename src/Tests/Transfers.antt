-- ===== src/Tests/Transfers.antt =====
-- Examples of downloads, on a disk with a target and a temporary file.
use mongodb_backup_s.Base.{
  ◌≡◌, ◌≢◌, refl, [], Option, none, some, Bytes, codes, if◌then◌else◌, str_eq, external, wrapped,
  Result, ok, err, ok-injective, ◌∙◌, ap,
}
use mongodb_backup_s.World.{Body}
use mongodb_backup_s.Storage.Transfer.{Sdk, download}
use mongodb_backup_s.Storage.Transfer.Atomic.{IsFiles, IsWhole, download-Leaves, download-IsWhole}

pub record Disk : Type 0 where
  pub target : Option Bytes
  pub temporary : Option Bytes

abbrev target_path : Bytes
target_path = codes "/d/p"

abbrev temporary_path : Bytes
temporary_path = codes "/d/t"

abbrev at : Bytes → Disk → Option Bytes
at path disk = if str_eq path target_path then disk.target else disk.temporary

-- The SDK, with the way in which its transfers end.
abbrev sdk : Result (Unit {0}) → Sdk
sdk end = record {
  State = Disk;
  ctx_err = λ s. none;
  cause = λ s. none;
  get_versioning = λ s. (ok (codes "Enabled"), s);
  delete_object = λ key s. (ok tt, s);
  download_object = λ key version name s. (end, record s { temporary = some (codes "zip") });
  upload_object = λ key body part_size s. (ok tt, s);
  close_body = λ s. s;
  create_temp = λ dir s. (ok temporary_path, s);
  close_file = λ name s. (ok tt, s);
  rename = λ from to s. (ok tt, record s { target = at from s });
  remove = λ name s. record s { temporary = none };
}

differ : temporary_path ≢ target_path
unfolding str_eq
differ e = cc (ap (λ s. str_eq s target_path) e)

sdk-IsFiles : (end : Result (Unit {0})) → IsFiles (sdk end) at target_path
unfolding str_eq
sdk-IsFiles end = record {
  fresh = λ dir s h e. differ (ok-injective h ∙ e);
  created = λ dir s. refl;
  downloaded = λ key version name s other. refl;
  closed = λ file name s. refl;
  renamed = λ name s h. refl;
  removed = λ name s other. refl;
  not_renamed = λ name s h. cc;
}

abbrev disk : Disk
disk = record { target = some (codes "old"); temporary = none }

failed :
    (download (sdk (err (external 1))) (codes "k") [] target_path disk).0
    ≡ err (wrapped (external 1))
unfolding download mongodb_backup_s.World.◌>>◌
failed = refl

download-Leaves_example :
    at target_path (download (sdk (err (external 1))) (codes "k") [] target_path disk).1
    ≡ at target_path disk
download-Leaves_example =
    download-Leaves (sdk (err (external 1))) at target_path (sdk-IsFiles (err (external 1)))
      (codes "k") [] disk (wrapped (external 1)) failed

done : (download (sdk (ok tt)) (codes "k") [] target_path disk).0 ≡ ok tt
unfolding download mongodb_backup_s.World.◌>>◌
done = refl

download-IsWhole_example :
    IsWhole
      (sdk (ok tt))
      at
      target_path
      (sdk-IsFiles (ok tt))
      (codes "k")
      []
      (download (sdk (ok tt)) (codes "k") [] target_path disk).1
download-IsWhole_example =
    download-IsWhole (sdk (ok tt)) at target_path (sdk-IsFiles (ok tt)) (codes "k") [] disk done
