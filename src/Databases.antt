-- ===== src/Databases.antt =====
-- internal/backup/app.go: `databases`, the choice of what a run backs up.
pub mod Selected
use mongodb_backup_s.Base.{
  ℕ, Bool, true, false, ◌&&◌, not, List, [], ◌∷◌, Bytes, codes, if◌then◌else◌, is_empty, any, keep,
  str_eq, Error, database_missing, nothing_selected, Result, ok, err, ◌>>=◌, ◌>>◌, fail_if,
}
use mongodb_backup_s.Config.{Config, full}
use mongodb_backup_s.Config.Databases.{parse_database_list, validate_databases, system_database}

-- A `map[string]bool` that is only filled in, as the list of its keys.
unfoldable pub contains : List Bytes → Bytes → Bool
unfolding str_eq
contains names name = any (str_eq name) names

-- The candidates, before the checks.
unfoldable pub candidates : Config → List Bytes → List Bytes
unfolding str_eq system_database parse_database_list
candidates c existing =
    if str_eq c.backup_all (codes "true")
    then keep (λ name. not (system_database name)) existing
    else if not (is_empty c.databases)
    then parse_database_list c.databases
    else c.database ∷ []

unfoldable pub excluded : Config → List Bytes
unfolding parse_database_list
excluded c = if is_empty c.exclude then [] else parse_database_list c.exclude

check_exist : List Bytes → List Bytes → Result (Unit {0})
check_exist existing [] = ok tt
check_exist existing (name ∷ names) = do
  fail_if (not (contains existing name)) database_missing
  check_exist existing names

-- The last loop: `seen` grows with every name that is selected.
select : List Bytes → List Bytes → List Bytes → List Bytes
select out seen [] = []
select out seen (name ∷ names) =
    let later = name ∷ select out (name ∷ seen) names in
    let skipped = select out seen names in
    if not (contains out name) && not (contains seen name) then later else skipped

-- From the inventory of the server to the databases to back up.
unfoldable pub select_databases : Config → List Bytes → Result (List Bytes)
unfolding check_exist select contains candidates excluded
select_databases c existing = do
  let names = candidates c existing
  validate_databases names
  check_exist existing names
  let selected = select (excluded c) [] names
  fail_if (is_empty selected) nothing_selected
  ok selected
