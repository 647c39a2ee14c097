-- ===== src/Program/Safe.antt =====
-- cmd/mongodb-backup-s3/main.go, run: deletions, under every command line.
use mongodb_backup_s.Base.{
  ℕ, ◌≡◌, sym, ◌∙◌, subst, inl, inr, Bool, true, false, not, List, [], ◌∷◌, Option, none, some,
  Bytes, codes, All, Bool-cases, str_eq, Result, ok, err, restore_auth_mode, fail_if, ok-injective,
}
use mongodb_backup_s.Config.{Config, per_database}
use mongodb_backup_s.Config.Load.{load_config}
use mongodb_backup_s.World.{World, ZipFile, Action, lift}
use mongodb_backup_s.Trace.{Run, Event, imported, written, write_failed, moved, silent, note}
use mongodb_backup_s.Bundle.{Formats}
use mongodb_backup_s.Backup.Order.{
  Justified, Quiet, Keeps, Adds-Keeps, >>=-Keeps, >>-Keeps, quiet_silent, quiet_lift,
  backup-Justified,
}
use mongodb_backup_s.Restore.{restore, restore_auth, restore_as}
use mongodb_backup_s.Restore.Verified.{Imports, restore_as-Imports}
use mongodb_backup_s.Extract.{extract_config}
use mongodb_backup_s.Extract.Inside.{Extracts, extract_config-Adds}
use mongodb_backup_s.Storage.{Endpoint, Credentials, Client, new_s3}
use mongodb_backup_s.Schedule.{Cron}
use mongodb_backup_s.Schedule.Justified.{run-Keeps}
use mongodb_backup_s.Program.{
  command_of, is_help, is_misused, extract_from, dispatch, execute, exit_as, exit_code, run,
}

module _ (w : World) (f : Formats) (c : Config) where
  Imports-Quiet : (auth : Bool) (es : List Event) → All (Imports f c auth) es → All (Quiet c) es
  Imports-Quiet auth [] h = tt
  Imports-Quiet auth (imported args input ∷ es) (x, h) = (tt, Imports-Quiet auth es h)
  Imports-Quiet auth (_ ∷ es) (x, h) = absurd x

  Extracts-Quiet :
      (dest : Bytes) (archive : List ZipFile) (s : w.State) (e : Event)
      → Extracts w dest archive s e
      → Quiet c e
  unfolding Extracts
  Extracts-Quiet dest archive s (written target contents) x = tt
  Extracts-Quiet dest archive s (write_failed target) x = tt
  Extracts-Quiet dest archive s (moved from to) x = tt
  Extracts-Quiet dest archive s _ x = absurd x

  restore_as-Keeps :
      (auth : Bool) (args : List Bytes) (r : Run w) → Keeps c w (restore_as w f c auth args) r
  restore_as-Keeps auth args r =
      let (es, eq, h) = restore_as-Imports w f c auth args r in
      Adds-Keeps c w _ r (es, eq, Imports-Quiet auth es h)

  restore_auth-Keeps : (args : List Bytes) (r : Run w) → Keeps c w (restore_auth w f c args) r
  unfolding restore_auth
  restore_auth-Keeps args r =
      >>-Keeps c w (lift (fail_if (not (str_eq c.backup_mode per_database)) restore_auth_mode)) _ r
        (quiet_lift c w f _ r) λ _. restore_as-Keeps true args _

  extract_config-Keeps :
      (dest : Bytes) (args : List Bytes) (r : Run w) → Keeps c w (extract_config w f c dest args) r
  extract_config-Keeps dest args r =
      Adds-Keeps c w _ r (extract_config-Adds w f c dest (Quiet c) (Extracts-Quiet dest) args r)

  module _ (cron : Cron w) (received : w.State → Option ℕ) (lookup : Bytes → Option Bytes)
      (read_file : Bytes → Result Bytes) (parse : Bytes → Option Endpoint)
      (load_default : Bytes → Option Credentials → Result Bytes) where
    extract_from-Keeps :
        (args : List Bytes) (r : Run w)
        → Keeps c w (extract_from w cron f received lookup read_file parse load_default c args) r
    unfolding extract_from
    extract_from-Keeps [] r = quiet_lift c w f (ok tt) r
    extract_from-Keeps (dest ∷ args) r = extract_config-Keeps dest args r

    dispatch-Keeps :
        (command : Bytes) (args : List Bytes) (r : Run w)
        → Keeps c w
            (dispatch w cron f received lookup read_file parse load_default c command args)
            r
    unfolding dispatch restore
    dispatch-Keeps command args r = elim (Bool-cases (str_eq command (codes "run"))) [
      | inl e ↦ rw e (run-Keeps w c cron f r)
      | inr a ↦ elim (Bool-cases (str_eq command (codes "backup"))) [
        | inl e ↦ rw (a, e) (record { kept = backup-Justified c w f r })
        | inr b ↦ elim (Bool-cases (str_eq command (codes "restore"))) [
          | inl e ↦ rw (a, b, e) (restore_as-Keeps false args r)
          | inr d ↦ elim (Bool-cases (str_eq command (codes "restore-auth"))) [
            | inl e ↦ rw (a, b, d, e) (restore_auth-Keeps args r)
            | inr g ↦ elim (Bool-cases (str_eq command (codes "extract-config"))) [
              | inl e ↦ rw (a, b, d, g, e) (extract_from-Keeps args r)
              | inr e ↦ rw (a, b, d, g, e) (quiet_lift c w f (ok tt) r)
            ]
          ]
        ]
      ]
    ]

    execute-Keeps :
        (command : Bytes) (args : List Bytes) (r : Run w)
        → load_config lookup read_file ≡ ok c
        → Keeps c w (execute w cron f received lookup read_file parse load_default command args) r
    unfolding execute lift
    execute-Keeps command args r loaded =
        let open_store : Config → Action w.State Client =
          λ config s. (new_s3 (w.ctx_err s) lookup parse load_default config.storage, s) in
        >>=-Keeps c w (lift (load_config lookup read_file)) _ r (quiet_lift c w f _ r) λ config e.
          >>=-Keeps c w (silent w (open_store config)) _ r (quiet_silent c w f _ r) λ client _.
            let s : Run w = (silent w (open_store config) r).1 in
            subst
              (λ other.
                Keeps c w
                  (dispatch w cron f received lookup read_file parse load_default other command
                    args)
                  s)
              (ok-injective (sym loaded ∙ e)) (dispatch-Keeps command args s)

    exit_as-Justified :
        (signal : Option ℕ) (result : Result (Unit {0})) (r : Run w)
        → Justified c r.trace
        → Justified c
            (exit_as w cron f received lookup read_file parse load_default signal result r).1.trace
    unfolding exit_as note
    exit_as-Justified (some signal) result r j = j
    exit_as-Justified none (ok u) r j = j
    exit_as-Justified none (err e) r j = j

    -- Whatever the command line is, and however the program ends, scheduled runs, restores and
    -- extractions included: each deletion of an object, done or tried, is behind the upload of a
    -- backup of the database that the object is a timestamp backup of, under the configuration that
    -- was loaded, if this holds of the events before.
    pub run-Justified :
        (args : List Bytes) (r : Run w)
        → load_config lookup read_file ≡ ok c
        → Justified c r.trace
        → Justified c (run w cron f received lookup read_file parse load_default args r).1.trace
    unfolding run note exit_code
    run-Justified args r loaded j = elim (Bool-cases (is_help (command_of args).0)) [
      | inl e ↦ rw (e, Justified) j
      | inr e ↦ elim (Bool-cases (is_misused (command_of args).0 (command_of args).1)) [
        | inl bad ↦ rw (e, bad, Justified) j
        | inr good ↦
            let done =
              execute w cron f received lookup read_file parse load_default (command_of args).0
                (command_of args).1 r in
            rw (e, good)
              (exit_as-Justified (received done.1.env) done.0 done.1
                ((execute-Keeps (command_of args).0 (command_of args).1 r loaded).kept j))
      ]
    ]
