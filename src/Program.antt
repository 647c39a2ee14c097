-- ===== src/Program.antt =====
-- cmd/mongodb-backup-s3/main.go: run. The environment, os.ReadFile, url.Parse and LoadDefaultConfig
-- are parameters, as in Config.Load and Storage. The number of the signal that has been received is read off
-- the state at the end; that it ends the context is the world's part.
pub mod Exit
pub mod Safe
use mongodb_backup_s.Base.{
  ℕ, ◌+◌, Bool, true, false, ◌||◌, ◌&&◌, not, List, [], ◌∷◌, Option, none, some, Bytes, String,
  codes, if◌then◌else◌, is_empty, str_eq, Error, external, Result, ok, err,
}
use mongodb_backup_s.Config.{Config}
use mongodb_backup_s.World.{World, Action, lift, ◌>>=◌, ◌>>◌}
use mongodb_backup_s.Trace.{Run, usage_shown, error_shown, silent, note}
use mongodb_backup_s.Bundle.{Formats}
use mongodb_backup_s.Backup
use mongodb_backup_s.Restore.{restore, restore_auth}
use mongodb_backup_s.Extract.{extract_config}
use mongodb_backup_s.Config.Load.{load_config}
use mongodb_backup_s.Storage.{Endpoint, Credentials, Client, new_s3}
use mongodb_backup_s.Schedule
use mongodb_backup_s.Schedule.{Cron}

-- The command and its arguments: without any, the command is "run".
unfoldable pub command_of : List Bytes → Bytes × List Bytes
command_of [] = (codes "run", [])
command_of (command ∷ args) = (command, args)

unfoldable pub is_help : Bytes → Bool
unfolding str_eq
is_help command =
    str_eq command (codes "--help") || str_eq command (codes "-h") || str_eq command (codes "help")

unfoldable pub is_run_or_backup : Bytes → Bool
unfolding str_eq
is_run_or_backup command = str_eq command (codes "run") || str_eq command (codes "backup")

unfoldable pub is_command : Bytes → Bool
unfolding str_eq is_run_or_backup
is_command command =
    is_run_or_backup command
    || str_eq command (codes "restore")
    || str_eq command (codes "restore-auth")
    || str_eq command (codes "extract-config")

unfoldable pub is_misused : Bytes → List Bytes → Bool
unfolding str_eq is_command is_run_or_backup
is_misused command args =
    not (is_command command)
    || (is_run_or_backup command && not (is_empty args))
    || (str_eq command (codes "extract-config") && is_empty args)

module _ (w : World) (cron : Cron w) (f : Formats) (received : w.State → Option ℕ)
    (lookup : Bytes → Option Bytes) (read_file : Bytes → Result Bytes)
    (parse : Bytes → Option Endpoint)
    (load_default : Bytes → Option Credentials → Result Bytes) where
  -- `args[0]` and `args[1:]`, which the test of the arguments makes safe.
  unfoldable pub extract_from : Config → List Bytes → Action (Run w) (Unit {0})
  unfolding extract_config
  extract_from c [] = lift (ok tt)
  extract_from c (dest ∷ args) = extract_config w f c dest args

  -- The switch.
  unfoldable pub dispatch : Config → Bytes → List Bytes → Action (Run w) (Unit {0})
  unfolding str_eq extract_from
  dispatch c command args =
      if str_eq command (codes "run")
      then Schedule.run w cron f c
      else if str_eq command (codes "backup")
      then Backup.backup w f c
      else if str_eq command (codes "restore")
      then restore w f c args
      else if str_eq command (codes "restore-auth")
      then restore_auth w f c args
      else if str_eq command (codes "extract-config")
      then extract_from c args
      else lift (ok tt)

  unfoldable pub execute : Bytes → List Bytes → Action (Run w) (Unit {0})
  unfolding dispatch load_config new_s3
  execute command args = do
    c ← lift (load_config lookup read_file)
    store ← silent w (λ s. (new_s3 (w.ctx_err s) lookup parse load_default c.storage, s))
    dispatch c command args

  -- The exit code: that of the signal, if there was one, or of the error.
  unfoldable pub exit_as : Option ℕ → Result (Unit {0}) → Run w → ℕ × Run w
  exit_as (some signal) result r = (128 + signal, r)
  exit_as none (ok u) r = (0, r)
  exit_as none (err e) r = (1, (note w (error_shown e) r).1)

  unfoldable pub exit_code : Result (Unit {0}) → Run w → ℕ × Run w
  unfolding exit_as
  exit_code result r = exit_as (received r.env) result r

  -- `run`, behind the name of the program
  unfoldable pub run : List Bytes → Run w → ℕ × Run w
  unfolding command_of is_help is_misused execute exit_code
  run args r =
      let (command, rest) = command_of args in
      if is_help command
      then (0, (note w usage_shown r).1)
      else if is_misused command rest
      then (2, (note w usage_shown r).1)
      else (let (result, r') = execute command rest r in exit_code result r')
