-- ===== src/Trace.antt =====
-- The state of a run of the program: the world, and the calls of the store and the messages that
-- the run has made, the newest first.
pub mod Extends
use mongodb_backup_s.Base.{List, ◌∷◌, Bytes, Error, Result, ok, err}
use mongodb_backup_s.World.{World, Action, Body, command_error}

pub data Event : Type 0 where
  -- `Store.Upload` and `Store.Delete` that returned no error
  uploaded : Bytes → Event
  deleted : Bytes → Event
  -- `Store.Upload` and `Store.Delete` that failed
  upload_failed : Bytes → Event
  delete_failed : Bytes → Event
  -- "Backup complete", "Backup failed" and "Retention failed", with the database
  backup_complete : Bytes → Event
  backup_failed : Bytes → Event
  retention_failed : Bytes → Event
  -- "Warning: Could not verify S3 bucket versioning"
  versioning_unknown : Event
  -- "Warning: per-database backups do not provide a point-in-time snapshot"
  no_snapshot : Event
  -- mongorestore with its arguments and its input, which has been started
  imported : List Bytes → Result Bytes → Event
  -- a new file with all that has been written to it; one that was not filled as a whole, because its
  -- source or the write failed; a rename that was asked for
  written : Bytes → Bytes → Event
  write_failed : Bytes → Event
  moved : Bytes → Bytes → Event
  -- "Scheduling backups" and "Scheduled backup failed"
  scheduling : Event
  scheduled_failed : Event
  -- the usage, on the output or as an error, and "Error:" with the error
  usage_shown : Event
  error_shown : Error → Event

pub record Run (w : World) : Type 0 where
  pub env : w.State
  pub trace : List Event

pub data In : Event → List Event → Type 0 where
  here : {e : Event} {t : List Event} → In e (e ∷ t)
  there : {e f : Event} {t : List Event} → In e t → In e (f ∷ t)

module _ (w : World) where
  -- A call that makes no event.
  unfoldable pub silent : {A : Type 0} → Action w.State A → Action (Run w) A
  silent m r = let (a, s) = m r.env in (a, record { env = s; trace = r.trace })

  unfoldable pub note : Event → Action (Run w) (Unit {0})
  note e r = (ok tt, record { env = r.env; trace = e ∷ r.trace })

  abbrev outcome : Result (Unit {0}) → Event → Event → Event
  outcome (ok u) good bad = good
  outcome (err e) good bad = bad

  unfoldable pub upload : Bytes → Body → Action (Run w) (Unit {0})
  upload key body r =
      let (a, s) = w.upload key body r.env in
      (a, record { env = s; trace = outcome a (uploaded key) (upload_failed key) ∷ r.trace })

  unfoldable pub delete : Bytes → Action (Run w) (Unit {0})
  delete key r =
      let (a, s) = w.delete key r.env in
      (a, record { env = s; trace = outcome a (deleted key) (delete_failed key) ∷ r.trace })

  -- A tool that is given an archive.
  unfoldable pub import : Bytes → List Bytes → Result Bytes → Action (Run w) (Unit {0})
  unfolding command_error
  import name args input r =
      let (a, s) = w.feed name args input r.env in
      (command_error w a s, record { env = s; trace = imported args input ∷ r.trace })

  -- The result of a copy: an error of its source is one of the copy.
  unfoldable pub copied : Result Bytes → Result (Unit {0}) → Result (Unit {0})
  copied (ok contents) a = a
  copied (err e) a = err e

  unfoldable pub copy_event : Bytes → Result Bytes → Result (Unit {0}) → Event
  copy_event path (ok contents) (ok u) = written path contents
  copy_event path (ok contents) (err e) = write_failed path
  copy_event path (err e) a = write_failed path

  -- What a new file is filled with.
  unfoldable pub write_file : Bytes → Result Bytes → Action (Run w) (Unit {0})
  unfolding copied copy_event
  write_file path contents r =
      let (a, s) = w.fill path contents r.env in
      (copied contents a, record { env = s; trace = copy_event path contents a ∷ r.trace })

  unfoldable pub move : Bytes → Bytes → Action (Run w) (Unit {0})
  move from to r =
      let (a, s) = w.rename from to r.env in
      (a, record { env = s; trace = moved from to ∷ r.trace })
