-- ===== src/Config/Validate.antt =====
-- internal/backup/config.go: validateBackup.
pub mod Days
pub mod Selectors
use mongodb_backup_s.Base.{
  ℕ, Bool, true, false, ◌&&◌, ◌||◌, not, List, [], ◌∷◌, Option, none, some, Bytes, codes, ltb, ◌==◌,
  if◌then◌else◌, is_empty, any, str_eq, Error, mode_invalid, full_with_selectors, all_with_explicit,
  no_selector, exclude_without_all, keep_days_not_positive, keep_days_range, Result, ok, err, ◌>>=◌,
  ◌>>◌, fail_if,
}
use mongodb_backup_s.Config.{Config, full, per_database}
use mongodb_backup_s.Config.Databases.{parse_database_list, validate_databases}
use mongodb_backup_s.Config.Uri.{require_connection}
use mongodb_backup_s.Decimal.{is_digit, atoi, in_range}

abbrev pub all_databases : Config → Bool
all_databases c = str_eq c.backup_all (codes "true")

-- The branch of the full mode.
check_full : Config → Result (Unit {0})
check_full c =
    fail_if
      (not (is_empty c.database)
        || not (is_empty c.databases)
        || not (is_empty c.exclude)
        || all_databases c)
      full_with_selectors

check_named : Config → Result (Unit {0})
check_named c =
    if not (is_empty c.databases)
    then validate_databases (parse_database_list c.databases)
    else if not (is_empty c.database)
    then validate_databases (c.database ∷ [])
    else ok tt

check_excluded : Config → Result (Unit {0})
check_excluded c =
    if not (is_empty c.exclude) then validate_databases (parse_database_list c.exclude) else ok tt

-- The branch of the per-database mode.
check_single : Config → Result (Unit {0})
unfolding check_named check_excluded
check_single c = do
  fail_if (all_databases c && (not (is_empty c.database) || not (is_empty c.databases)))
      all_with_explicit
  fail_if (not (all_databases c) && is_empty c.database && is_empty c.databases) no_selector
  fail_if (not (is_empty c.exclude) && not (all_databases c)) exclude_without_all
  check_named c
  check_excluded c

pub check_selectors : Config → Result (Unit {0})
unfolding check_full check_single str_eq
check_selectors c =
    if str_eq c.backup_mode full
    then check_full c
    else if str_eq c.backup_mode per_database
    then check_single c
    else err mode_invalid

in_days : Option ℕ → Result ℕ
in_days none = err keep_days_range
in_days (some n) = ok n

-- The end of validateBackup: the days to keep, 0 for no retention.
pub check_keep_days : Bytes → Result ℕ
unfolding in_days in_range atoi
check_keep_days [] = ok 0
check_keep_days (c ∷ s) =
    if c == b'0' || any (λ d. not (is_digit d)) (c ∷ s)
    then err keep_days_not_positive
    else in_days (in_range 1 36500 (atoi (c ∷ s)))

unfoldable pub validate_backup : Config → Result ℕ
unfolding check_selectors check_keep_days
validate_backup c = do require_connection c; check_selectors c; check_keep_days c.keep_days
