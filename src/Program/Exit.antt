-- ===== src/Program/Exit.antt =====
-- cmd/mongodb-backup-s3/main.go, run: what the exit codes say.
use mongodb_backup_s.Base.{
  ℕ, ◌≡◌, refl, ◌⊎◌, inl, inr, true, false, List, Option, none, some, Bytes, arith, Bool-cases,
  Result, ok, err,
}
use mongodb_backup_s.Config.{Config}
use mongodb_backup_s.Config.Load.{load_config}
use mongodb_backup_s.World.{World, lift, >>=-eq-ok}
use mongodb_backup_s.Trace.{Run, silent}
use mongodb_backup_s.Bundle.{Formats}
use mongodb_backup_s.Storage.{Endpoint, Credentials, Client, new_s3}
use mongodb_backup_s.Schedule.{Cron}
use mongodb_backup_s.Program.{
  command_of, is_help, is_misused, dispatch, execute, exit_as, exit_code, run,
}

module _ (w : World) (cron : Cron w) (f : Formats) (received : w.State → Option ℕ)
    (lookup : Bytes → Option Bytes) (read_file : Bytes → Result Bytes)
    (parse : Bytes → Option Endpoint)
    (load_default : Bytes → Option Credentials → Result Bytes) where
  -- The command line was right, the configuration and the store's client were accepted, and the
  -- command returned no error.
  pub record IsDone (args : List Bytes) (r : Run w) : Type 0 where
    pub well_used : is_misused (command_of args).0 (command_of args).1 ≡ false
    pub config : Config
    pub loaded : load_config lookup read_file ≡ ok config
    pub client : Client
    pub built : new_s3 (w.ctx_err r.env) lookup parse load_default config.storage ≡ ok client
    pub finished :
        (dispatch w cron f received lookup read_file parse load_default config
          (command_of args).0
          (command_of args).1
          r).0
        ≡ ok tt
    pub no_signal :
        received
          (execute w cron f received lookup read_file parse load_default
            (command_of args).0
            (command_of args).1
            r).1.env
        ≡ none

  execute-eq-ok :
      (command : Bytes) (args : List Bytes) (r : Run w)
      → (execute w cron f received lookup read_file parse load_default command args r).0 ≡ ok tt
      → (c : Config) × (client : Client) × (load_config lookup read_file ≡ ok c)
        × (new_s3 (w.ctx_err r.env) lookup parse load_default c.storage ≡ ok client)
        × ((dispatch w cron f received lookup read_file parse load_default c command args r).0
            ≡ ok tt)
  unfolding execute lift silent
  execute-eq-ok command args r h =
      let (c, loaded, h1) = >>=-eq-ok (lift (load_config lookup read_file)) _ r h in
      let (client, built, h2) =
        >>=-eq-ok (silent w (λ s. (new_s3 (w.ctx_err s) lookup parse load_default c.storage, s))) _
          r h1 in
      (c, client, loaded, built, h2)

  exit_as-eq-zero :
      (signal : Option ℕ) (result : Result (Unit {0})) (r : Run w)
      → (exit_as w cron f received lookup read_file parse load_default signal result r).0 ≡ 0
      → (result ≡ ok tt) × (signal ≡ none)
  unfolding exit_as
  exit_as-eq-zero (some signal) result r h = absurd (omega (arith, h))
  exit_as-eq-zero none (ok u) r h = (refl, refl)
  exit_as-eq-zero none (err e) r h = absurd (omega (arith, h))

  -- The exit code 0 means that the help was asked for, or that the command line was right, the
  -- configuration and the client of the store were accepted, the command returned no error, and no
  -- signal had come.
  pub run-IsDone :
      (args : List Bytes) (r : Run w)
      → (run w cron f received lookup read_file parse load_default args r).0 ≡ 0
      → (is_help (command_of args).0 ≡ true) ⊎ IsDone args r
  unfolding run exit_code
  run-IsDone args r h = elim (Bool-cases (is_help (command_of args).0)) [
    | inl e ↦ inl e
    | inr e ↦ elim (Bool-cases (is_misused (command_of args).0 (command_of args).1)) [
      | inl bad ↦ absurd (omega (arith, rw (e, bad) at h))
      | inr good ↦
          let (finished, quiet) = exit_as-eq-zero _ _ _ (rw (e, good) at h) in
          let (c, client, loaded, built, done) =
            execute-eq-ok (command_of args).0 (command_of args).1 r finished in
          inr (record {
            well_used = good;
            config = c;
            loaded = loaded;
            client = client;
            built = built;
            finished = done;
            no_signal = quiet;
          })
    ]
  ]
