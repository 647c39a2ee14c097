-- ===== src/Extract.antt =====
-- internal/backup/bundle.go: extractConfiguration and copyMember; internal/backup/restore.go:
-- ExtractConfig. The messages are left out.
pub mod Inside
use mongodb_backup_s.Base.{
  Bool, ◌||◌, not, List, [], ◌∷◌, ◌++◌, Bytes, codes, if◌then◌else◌, is_empty, str_eq, has_prefix,
  ◌==◌, output_exists, config_member_invalid, extract_no_output, Result, ok, err, fail_if,
}
use mongodb_backup_s.Config.{Config}
use mongodb_backup_s.Members.{
  join_path, clean, safe_member, manifest_json, replica_set_json, config_directory,
}
use mongodb_backup_s.Bundle.{Manifest, Formats}
use mongodb_backup_s.World.{World, ZipFile, Action, lift, check_ctx, ◌>>=◌, ◌>>◌}
use mongodb_backup_s.Trace.{Run, silent, write_file, move}
use mongodb_backup_s.RestoreArgs.{validate_restore}
use mongodb_backup_s.Backup.{attempt, defer, with_runner}
use mongodb_backup_s.Restore.{unit_of, with_bundle}

-- The text up to the last slash, that byte included.
unfoldable pub up_to_slash : Bytes → Bytes
up_to_slash [] = []
up_to_slash (c ∷ s) =
    let rest = up_to_slash s in
    if is_empty rest then (if c == b'/' then c ∷ [] else []) else c ∷ rest

-- `filepath.Dir`
unfoldable pub directory : Bytes → Bytes
unfolding clean up_to_slash
directory path = clean (up_to_slash path)

unfoldable pub is_config_member : Bytes → Bool
unfolding str_eq has_prefix
is_config_member name =
    str_eq name manifest_json || str_eq name replica_set_json || has_prefix name config_directory

module _ (w : World) where
  -- `copyMember`
  unfoldable pub copy_member : ZipFile → Bytes → Action (Run w) (Unit {0})
  unfolding write_file
  copy_member z target = do lift z.opens; silent w (w.create target); write_file w target z.read

  unfoldable pub extract_member : Bytes → ZipFile → Action (Run w) (Unit {0})
  unfolding copy_member join_path directory safe_member
  extract_member dir z = do
    lift (fail_if (not (safe_member z.name)) config_member_invalid)
    silent w (w.make_dirs (directory (join_path dir z.name)))
    copy_member z (join_path dir z.name)

  -- The loop.
  unfoldable pub extract_members : Bytes → List ZipFile → Action (Run w) (Unit {0})
  unfolding extract_member is_config_member
  extract_members dir [] = lift (ok tt)
  extract_members dir (z ∷ zs) = do
    (if is_config_member z.name then extract_member dir z else lift (ok tt))
    extract_members dir zs

  unfoldable pub fill_stage : Bytes → List ZipFile → Bytes → Action (Run w) (Unit {0})
  unfolding extract_members
  fill_stage path zs dir = do extract_members dir zs; silent w (check_ctx w); move w dir path

  -- Whether Lstat finds something.
  unfoldable pub check_absent : Bytes → Action w.State (Unit {0})
  check_absent path s = (fail_if (not (w.is_absent path s)) output_exists, s)

  module _ (f : Formats) (c : Config) where
    unfoldable pub extract_configuration : List ZipFile → Bytes → Action (Run w) (Unit {0})
    unfolding directory check_absent fill_stage defer
    extract_configuration zs dest = do
      path ← silent w (w.absolute dest)
      silent w (check_absent path)
      dir ← silent w (w.make_temp (directory path))
      defer w f c (λ s. (w.remove_all dir s).1) (fill_stage path zs dir)

    -- `ExtractConfig`; there is no lock, since nothing is imported.
    unfoldable pub extract_config : Bytes → List Bytes → Action (Run w) (Unit {0})
    unfolding validate_restore with_runner with_bundle extract_configuration
    extract_config dest args = do
      lift (fail_if (is_empty dest) extract_no_output)
      lift (unit_of (validate_restore c args))
      with_runner w f c (with_bundle w f c args (λ zs m. extract_configuration zs dest))
