-- ===== src/Storage/Transfer.antt =====
-- internal/storage/s3.go: VersioningEnabled, Download and Delete; internal/storage/upload.go: Upload.
-- The SDK and the files are a record of operations on an unknown state.
pub mod Atomic
use mongodb_backup_s.Base.{
  ℕ, Bool, true, false, List, [], ◌∷◌, Option, none, some, Bytes, codes, if◌then◌else◌, is_empty,
  str_eq, Error, joined, wrapped, Result, ok, err,
}
use mongodb_backup_s.World.{Body, Action, lift, ◌>>=◌, ◌>>◌}
use mongodb_backup_s.Extract.{directory}

pub record Sdk : Type 1 where
  pub State : Type 0
  pub ctx_err : State → Option Error
  -- `context.Cause(ctx)` of the context of an upload, which a failed part cancels
  pub cause : State → Option Error
  -- GetBucketVersioning, DeleteObject, DownloadObject to a file, UploadObject with a part size
  pub get_versioning : State → Result Bytes × State
  pub delete_object : Bytes → State → Result (Unit {0}) × State
  pub download_object : Bytes → Option Bytes → Bytes → State → Result (Unit {0}) × State
  pub upload_object : Bytes → Body → ℕ → State → Result (Unit {0}) × State
  -- the Close of the body
  pub close_body : State → State
  -- CreateTemp in a directory, the Close of a file, Rename, and Remove
  pub create_temp : Bytes → State → Result Bytes × State
  pub close_file : Bytes → State → Result (Unit {0}) × State
  pub rename : Bytes → Bytes → State → Result (Unit {0}) × State
  pub remove : Bytes → State → State

-- `fmt.Errorf("…: %w", err)` around an error.
unfoldable pub explained : {A : Type 0} → Result A → Result A
explained (ok a) = ok a
explained (err e) = err (wrapped e)

unfoldable pub explain : {S A : Type 0} → Action S A → Action S A
unfolding explained
explain m s = let (a, s') = m s in (explained a, s')

unfoldable pub alive : Option Error → Result (Unit {0})
alive none = ok tt
alive (some e) = err e

-- The error of an upload, joined to the cause of its context's end.
unfoldable pub with_cause : Option Error → Result (Unit {0}) → Result (Unit {0})
with_cause none result = result
with_cause (some cause) (ok u) = err cause
with_cause (some cause) (err e) = err (joined cause e)

module _ (sdk : Sdk) where
  unfoldable pub check_ctx : Action sdk.State (Unit {0})
  unfolding alive
  check_ctx s = (alive (sdk.ctx_err s), s)

  -- `VersioningEnabled`
  unfoldable pub versioning_enabled : Action sdk.State Bool
  unfolding explain str_eq
  versioning_enabled = do
    status ← explain sdk.get_versioning
    lift (ok (str_eq status (codes "Enabled")))

  -- `Delete`
  unfoldable pub delete : Bytes → Action sdk.State (Unit {0})
  unfolding explain
  delete key = explain (sdk.delete_object key)

  unfoldable pub version_option : Bytes → Option Bytes
  version_option version = if is_empty version then none else some version

  -- Download from the transfer to the rename.
  unfoldable pub fetch : Bytes → Bytes → Bytes → Bytes → Action sdk.State (Unit {0})
  unfolding explain check_ctx version_option
  fetch key version path name = do
    explain (sdk.download_object key (version_option version) name)
    check_ctx
    explain (sdk.close_file name)
    explain (sdk.rename name path)

  -- The deferred Close and Remove, whose errors are dropped.
  unfoldable pub and_clear : Bytes → Action sdk.State (Unit {0}) → Action sdk.State (Unit {0})
  and_clear name m s = let (a, s') = m s in (a, sdk.remove name (sdk.close_file name s').1)

  -- `Download`
  unfoldable pub download : Bytes → Bytes → Bytes → Action sdk.State (Unit {0})
  unfolding check_ctx explain directory fetch and_clear
  download key version path = do
    check_ctx
    name ← explain (sdk.create_temp (directory path))
    and_clear name (fetch key version path name)

  unfoldable pub send : ℕ → Bytes → Body → Action sdk.State (Unit {0})
  unfolding explained with_cause
  send part_size key body s =
      let (result, s') = sdk.upload_object key body part_size s in
      (explained (with_cause (sdk.cause s') result), s')

  -- The deferred Close of the body.
  unfoldable pub and_close : Action sdk.State (Unit {0}) → Action sdk.State (Unit {0})
  and_close m s = let (a, s') = m s in (a, sdk.close_body s')

  -- `Upload`, with the part size of its S3
  unfoldable pub upload : ℕ → Bytes → Body → Action sdk.State (Unit {0})
  unfolding check_ctx send and_close
  upload part_size key body = and_close (do check_ctx; send part_size key body)

-- `UploadPart` of streamUploadClient, over the request of the SDK and the cancel of the upload's context: a
-- part that fails ends the upload, with its error as the cause.
unfoldable pub upload_part :
    {S Output : Type 0} → (S → Result Output × S) → (Error → S → S) → Action S Output
upload_part request cancel s =
    let (out, s') = request s in (out, elim out [ ok _ ↦ s' | err e ↦ cancel e s' ])
