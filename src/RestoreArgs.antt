-- ===== src/RestoreArgs.antt =====
-- internal/backup/restore.go: validateRestore, the arguments that a restore takes.
use mongodb_backup_s.Base.{
  Bool, true, false, ◌&&◌, ◌||◌, not, List, [], ◌∷◌, none, some, Bytes, codes, if◌then◌else◌,
  is_empty, str_eq, full_with_selectors, restore_database_unset, restore_only_database,
  restore_usage, Result, ok, err, ◌>>◌, fail_if,
}
use mongodb_backup_s.Clock.{parse}
use mongodb_backup_s.Config.{Config, full, fixed, timestamp}
use mongodb_backup_s.Config.Databases.{validate_databases}
use mongodb_backup_s.Keys.{is_timestamp}

-- `parse` as a test.
unfoldable pub is_real_time : Bytes → Bool
unfolding parse
is_real_time s = elim (parse s) [ none ↦ false | some _ ↦ true ]

unfoldable pub is_version_option : Bytes → Bool
unfolding str_eq
is_version_option arg = str_eq arg (codes "--version-id")

-- The switch on the number of arguments: a timestamp, or the version of an object.
unfoldable pub parse_args : Config → List Bytes → Result (Bytes × Bytes)
unfolding is_timestamp is_real_time is_version_option str_eq
parse_args c [] = ok ([], [])
parse_args c (arg ∷ []) =
    if str_eq c.filename_mode timestamp && is_timestamp arg && is_real_time arg
    then ok (arg, [])
    else err restore_usage
parse_args c (option ∷ version ∷ []) =
    if str_eq c.filename_mode fixed && is_version_option option && not (is_empty version)
    then ok ([], version)
    else err restore_usage
parse_args c (_ ∷ _ ∷ _ ∷ _) = err restore_usage

unfoldable pub database_error : Result (Unit {0}) → Result (Unit {0})
database_error (ok u) = ok tt
database_error (err e) = err restore_database_unset

unfoldable pub check_restore : Config → Result (Unit {0})
unfolding str_eq database_error validate_databases
check_restore c =
    let named =
      not (is_empty c.databases)
      || not (is_empty c.exclude)
      || str_eq c.backup_all (codes "true") in
    let single = (do
      database_error (validate_databases (c.database ∷ []))
      fail_if named restore_only_database) in
    if str_eq c.backup_mode full
    then fail_if (not (is_empty c.database) || named) full_with_selectors
    else single

unfoldable pub validate_restore : Config → List Bytes → Result (Bytes × Bytes)
unfolding check_restore parse_args
validate_restore c args = do check_restore c; parse_args c args
