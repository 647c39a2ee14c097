-- ===== src/Bundle/Validate.antt =====
-- internal/backup/bundle.go: validateBundle. The members of an opened archive carry what their
-- headers say and what reading them to the end gives: the contents, or an error of the archive's
-- checksum or of the context. The loops over the map of members go in the order of the archive;
-- another order can only change which of several errors is reported.
use mongodb_backup_s.Base.{
  ℕ, suc, ◌-◌, Bool, true, false, ◌&&◌, ◌||◌, not, List, [], ◌∷◌, Option, none, some, Bytes, ltb,
  ◌==◌, if◌then◌else◌, same, is_empty, str_eq, length, has_prefix, wrapped, bundle_member_invalid,
  bundle_member_duplicate, manifest_missing, manifest_oversized, manifest_invalid,
  manifest_mismatch, manifest_incomplete, components_missing, auth_unexpected, inventory_mismatch,
  size_mismatch, checksum_mismatch, config_mismatch, Result, ok, err, ◌>>=◌, ◌>>◌, fail_if,
}
use mongodb_backup_s.Config.{Config, full, per_database}
use mongodb_backup_s.Members.{
  safe_member, allowed_member, manifest_json, replica_set_json, data_archive, auth_archive,
  config_directory,
}
use mongodb_backup_s.World.{ZipFile}
use mongodb_backup_s.Bundle.{FileRecord, Manifest, Formats, manifest_limit, find_record}

unfoldable pub find_file : Bytes → List ZipFile → Option ZipFile
unfolding str_eq
find_file name [] = none
find_file name (z ∷ zs) =
    let rest = find_file name zs in if str_eq z.name name then some z else rest

unfoldable pub has_member : List ZipFile → Bytes → Bool
unfolding find_file
has_member zs name = elim (find_file name zs) [ none ↦ false | some _ ↦ true ]

-- The first loop, which fills the map; `seen` is the part of the archive behind it.
unfoldable pub check_members : List ZipFile → List ZipFile → Result (Unit {0})
unfolding safe_member allowed_member has_member
check_members seen [] = ok tt
check_members seen (z ∷ zs) = do
  fail_if (not (safe_member z.name) || not (allowed_member z.name) || z.special)
      bundle_member_invalid
  fail_if (has_member seen z.name) bundle_member_duplicate
  check_members (z ∷ seen) zs

unfoldable pub decoded : Option Manifest → Result Manifest
decoded none = err manifest_invalid
decoded (some m) = ok m

-- What is asked of the manifest itself and of the names of the members.
unfoldable pub check_manifest : Config → List ZipFile → Manifest → Result (Unit {0})
unfolding has_member str_eq
check_manifest c zs m = do
  fail_if
      (not (m.format_version == 1)
        || not (str_eq m.mode c.backup_mode)
        || not (same m.oplog (str_eq m.mode full))
        || not (str_eq m.database c.database))
      manifest_mismatch
  fail_if
      (is_empty m.server_version
        || is_empty m.tools_version
        || is_empty m.fcv
        || m.started_at == 0
        || ltb m.completed_at m.started_at)
      manifest_incomplete
  fail_if
      (not (has_member zs data_archive)
        || not (has_member zs replica_set_json)
        || str_eq m.mode per_database && not (has_member zs auth_archive))
      components_missing
  fail_if (str_eq m.mode full && has_member zs auth_archive) auth_unexpected
  fail_if (not (length m.files == length zs - 1)) inventory_mismatch

-- A member against its record.
unfoldable pub check_contents : Formats → FileRecord → Bytes → Result (Unit {0})
unfolding str_eq
check_contents f r contents =
    fail_if (not (length contents == r.size) || not (str_eq (f.sha256_hex contents) r.sha256))
      checksum_mismatch

unfoldable pub read_member : Result Bytes → Result Bytes
read_member (ok contents) = ok contents
read_member (err e) = err (wrapped e)

unfoldable pub check_member : Formats → Option FileRecord → ZipFile → Result (Unit {0})
unfolding check_contents read_member
check_member f none z = err size_mismatch
check_member f (some r) z = do
  fail_if (not (r.size == z.uncompressed_size)) size_mismatch
  z.opens
  contents ← read_member z.read
  check_contents f r contents

-- The last loop: every member but the manifest.
unfoldable pub check_files : Formats → Manifest → List ZipFile → Result (Unit {0})
unfolding check_member find_record str_eq
check_files f m [] = ok tt
check_files f m (z ∷ zs) = do
  (if str_eq z.name manifest_json then ok tt else check_member f (find_record z.name m.files) z)
  check_files f m zs

-- `configs`
unfoldable pub count_configs : List ZipFile → ℕ
unfolding has_prefix
count_configs [] = 0
count_configs (z ∷ zs) =
    let rest = count_configs zs in if has_prefix z.name config_directory then suc rest else rest

unfoldable pub read_manifest : Formats → Option ZipFile → Result Manifest
unfolding decoded
read_manifest f none = err manifest_missing
read_manifest f (some z) = do
  fail_if (ltb manifest_limit z.uncompressed_size) manifest_missing
  z.opens
  contents ← z.read
  fail_if (ltb manifest_limit (length contents)) manifest_oversized
  decoded (f.from_json contents)

unfoldable pub validate_bundle : Formats → Config → List ZipFile → Result Manifest
unfolding check_members read_manifest check_manifest check_files count_configs find_file
validate_bundle f c zs = do
  check_members [] zs
  m ← read_manifest f (find_file manifest_json zs)
  check_manifest c zs m
  check_files f m zs
  fail_if (not (same m.config_included (ltb 0 (count_configs zs)))) config_mismatch
  ok m
