-- ===== src/Capture/Directory.antt =====
-- internal/backup/capture.go: captureConfig. SHA-256 is a parameter, and so is the callback, which
-- goes on from a value of any type.
use mongodb_backup_s.Base.{
  ℕ, suc, Bool, false, ◌&&◌, ◌||◌, not, List, [], ◌∷◌, ◌++◌, Option, none, some, Bytes,
  if◌then◌else◌, is_empty, str_eq, length, ◌==◌, contains_byte, Error, wrapped,
  config_not_directory, config_changed, config_path_unsafe, config_not_regular, config_dir_empty,
  Result, ok, err, fail_if,
}
use mongodb_backup_s.World.{World, FileInfo, Action, lift, check_ctx, ◌>>=◌, ◌>>◌}
use mongodb_backup_s.Capture.{
  Consumer, is_dir, is_regular, config_link, still_no_link, Reading, Inventory, nothing, assign,
  value_of,
}
use mongodb_backup_s.Capture.Files.{tried, explained, closing, capture_file}

-- `walkErr`, with the message around it
unfoldable pub walked : Option Error → Result (Unit {0})
walked none = ok tt
walked (some e) = err (wrapped e)

-- `err != nil || !os.SameFile(info, openedRoot)`, with the info of the root
unfoldable pub same_root : FileInfo → Result FileInfo → Result FileInfo
same_root info (err e) = err config_changed
same_root info (ok root) = if info.file == root.file then ok root else err config_changed

-- `err != nil || !os.SameFile(…) || configLink(…)`, negated

unfoldable pub same_file_no_link : FileInfo → Result FileInfo → Bool
unfolding config_link
same_file_no_link before (err e) = false
same_file_no_link before (ok after) = before.file == after.file && not (config_link after)

-- A path that has been entered: a directory, or a file to be taken.
unfoldable pub sort_out : Bytes → FileInfo → Inventory → Result Inventory
unfolding assign
sort_out name info found =
    let entries = assign name info found.entries in
    if is_dir info
    then ok (record { files = found.files; entries = entries })
    else if is_regular info
    then ok (record { files = found.files ++ ((name, info) ∷ []); entries = entries })
    else err config_not_regular

-- `before, exists := entries[name]` and the comparison of the second walk; what was there before.
unfoldable pub compared : Option FileInfo → Result FileInfo → Result FileInfo
unfolding still_no_link
compared none after = err config_changed
compared (some before) after = if still_no_link before after then ok before else err config_changed

-- `bytes.Equal(hashes[name], h.Sum(nil))`; a name without an entry has the empty value.
unfoldable pub same_hash : Option Bytes → Bytes → Bool
unfolding str_eq
same_hash none sum = str_eq [] sum
same_hash (some known) sum = str_eq known sum

module _ (w : World) where
  -- The callback of the first walk, and its calls.
  unfoldable pub visit : Bytes × Option Error → Inventory → Action w.State Inventory
  unfolding walked explained config_link sort_out
  visit (name, walk_err) found = do
    check_ctx w
    lift (walked walk_err)
    info ← explained (w.root_lstat name)
    lift (fail_if (config_link info || contains_byte name 92) config_path_unsafe)
    lift (sort_out name info found)

  unfoldable pub visit_all : List (Bytes × Option Error) → Inventory → Action w.State Inventory
  unfolding visit
  visit_all [] found = lift (ok found)
  visit_all (item ∷ items) found = do found' ← visit item found; visit_all items found'

  unfoldable pub scan : Action w.State Inventory
  unfolding visit_all
  scan s = let (items, s') = w.walk s in visit_all items nothing s'

  -- The callback of the second walk that reads a file into its hash only.
  unfoldable pub only_read : Bytes → Action w.State Reading → Action w.State (Unit {0} × Reading)
  only_read name read = do r ← read; lift (ok (tt, r))

  module _ (sha256 : Bytes → Bytes) where
    -- The loop over the files, with the hashes of what has been taken.
    unfoldable pub take_files :
        {X : Type 0}
        → (X → Consumer w X)
        → List (Bytes × FileInfo)
        → X
        → List (Bytes × Bytes)
        → Action w.State (X × List (Bytes × Bytes))
    unfolding capture_file assign
    take_files add [] x hashes = lift (ok (x, hashes))
    take_files add ((name, info) ∷ files) x hashes = do
      check_ctx w
      taken ← capture_file w name info (add x)
      take_files add files taken.0 (assign name (sha256 taken.1.contents) hashes)

    unfoldable pub same_contents :
        Bytes → FileInfo → List (Bytes × Bytes) → Action w.State (Unit {0})
    unfolding capture_file only_read same_hash value_of
    same_contents name before hashes = do
      again ← capture_file w name before only_read
      lift (
          fail_if (not (same_hash (value_of name hashes) (sha256 again.1.contents))) config_changed)

    unfoldable pub read_again : Bytes → FileInfo → List (Bytes × Bytes) → Action w.State (Unit {0})
    unfolding same_contents
    read_again name before hashes =
        if is_regular before then same_contents name before hashes else lift (ok tt)

    -- The callback of the second walk, and its calls, with the number of paths seen.
    unfoldable pub visit_again :
        Inventory → List (Bytes × Bytes) → Bytes × Option Error → Action w.State (Unit {0})
    unfolding walked tried compared value_of read_again
    visit_again found hashes (name, walk_err) = do
      check_ctx w
      lift (walked walk_err)
      after ← tried (w.root_lstat name)
      before ← lift (compared (value_of name found.entries) after)
      read_again name before hashes

    unfoldable pub visit_all_again :
        Inventory → List (Bytes × Bytes) → List (Bytes × Option Error) → ℕ → Action w.State ℕ
    unfolding visit_again
    visit_all_again found hashes [] seen = lift (ok seen)
    visit_all_again found hashes (item ∷ items) seen = do
      visit_again found hashes item
      visit_all_again found hashes items (suc seen)

    unfoldable pub verify : Inventory → List (Bytes × Bytes) → Action w.State ℕ
    unfolding visit_all_again
    verify found hashes s = let (items, s') = w.walk s in visit_all_again found hashes items 0 s'

    -- Between the two checks of the directory itself.
    unfoldable pub capture_contents : {X : Type 0} → (X → Consumer w X) → X → Action w.State X
    unfolding scan take_files verify
    capture_contents add x = do
      found ← scan
      lift (fail_if (is_empty found.files) config_dir_empty)
      taken ← take_files add found.files x []
      seen ← verify found taken.1
      lift (fail_if (not (seen == length found.entries)) config_changed)
      lift (ok taken.0)

    -- With the root open.
    unfoldable pub capture_root :
        {X : Type 0} → Bytes → FileInfo → (X → Consumer w X) → X → Action w.State X
    unfolding capture_contents tried same_root same_file_no_link
    capture_root dir info add x = do
      found ← tried w.root_stat
      root ← lift (same_root info found)
      x' ← capture_contents add x
      current ← tried (w.lstat dir)
      lift (fail_if (not (same_file_no_link root current)) config_changed)
      check_ctx w
      lift (ok x')

    -- An unset directory is nothing to take.
    unfoldable pub capture_config : {X : Type 0} → Bytes → (X → Consumer w X) → X → Action w.State X
    unfolding capture_root explained closing is_dir config_link
    capture_config [] add x = do check_ctx w; lift (ok x)
    capture_config (d ∷ dir) add x = do
      check_ctx w
      info ← explained (w.lstat (d ∷ dir))
      lift (fail_if (not (is_dir info) || config_link info) config_not_directory)
      explained (w.open_root (d ∷ dir))
      closing w.close_root (capture_root (d ∷ dir) info add x)
