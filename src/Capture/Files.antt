-- ===== src/Capture/Files.antt =====
-- internal/backup/capture.go: captureConfigFile. The callback that takes a file is given the copying
-- of its reader, an action that it runs if it gets that far; what it makes of it is of any type.
use mongodb_backup_s.Base.{
  ℕ, not, [], ◌++◌, none, some, Bytes, ◌==◌, wrapped, config_changed, Result, ok, err, fail_if,
}
use mongodb_backup_s.Members.{config_directory}
use mongodb_backup_s.World.{World, FileInfo, Action, lift, check_ctx, ◌>>=◌, ◌>>◌}
use mongodb_backup_s.Capture.{
  Consumer, ConfigReader, Reading, new_reader, copy, still, still_no_link,
}

-- An error that is looked at together with something else.
unfoldable pub tried : {S A : Type 0} → Action S A → Action S (Result A)
tried m s = let (r, s') = m s in (ok r, s')

-- `fmt.Errorf("…: %w", err)` for an error.
unfoldable pub explained : {S A : Type 0} → Action S A → Action S A
explained m s = let (r, s') = m s in (elim r [ ok a ↦ ok a | err e ↦ err (wrapped e) ], s')

-- `defer root.Close()` and `defer file.Close()`
unfoldable pub closing : {S A : Type 0} → (S → S) → Action S A → Action S A
closing close m s = let (r, s') = m s in (r, close s')

-- `if reader.err != nil`
unfoldable pub check_reader : ConfigReader → Result (Unit {0})
check_reader r = elim r.failure [ none ↦ ok tt | some e ↦ err (wrapped e) ]

module _ (w : World) where
  -- The copying of the reader of a file to its end.
  unfoldable pub read_all : ℕ → Action w.State Reading
  unfolding copy
  read_all file s = let (calls, s') = w.file_reads file s in (copy [] new_reader calls, s')

  -- From `file.Stat` on.
  unfoldable pub opened :
      {X : Type 0} → Bytes → FileInfo → Consumer w X → ℕ → Action w.State (X × Reading)
  unfolding tried explained check_reader read_all still still_no_link
  opened name before add file = do
    found ← tried (w.file_stat file)
    lift (fail_if (not (still before found)) config_changed)
    taken ← explained (add (config_directory ++ name) (read_all file))
    check_ctx w
    lift (check_reader taken.1.reader)
    lift (fail_if (not (taken.1.reader.count == before.size)) config_changed)
    after ← tried (w.file_stat file)
    lift (fail_if (not (still before after)) config_changed)
    current ← tried (w.root_lstat name)
    lift (fail_if (not (still_no_link before current)) config_changed)
    lift (ok taken)

  unfoldable pub capture_file :
      {X : Type 0} → Bytes → FileInfo → Consumer w X → Action w.State (X × Reading)
  unfolding opened tried explained closing still_no_link
  capture_file name before add = do
    current ← tried (w.root_lstat name)
    lift (fail_if (not (still_no_link before current)) config_changed)
    file ← explained (w.root_open name)
    closing (w.close_file file) (opened name before add file)
