-- ===== src/Schedule.antt =====
-- internal/backup/app.go: Run. The package cron is a parameter: it parses a schedule, computes the
-- next time, and runs a job again and again until the context has ended and the last job is done.
-- It starts a job without waiting for the one before; here jobs run one after the other, and the
-- second of two at once would end at the lock.
pub mod Justified
use mongodb_backup_s.Base.{
  Error, Bool, Option, none, some, Bytes, if◌then◌else◌, is_empty, wrapped, schedule_invalid,
  schedule_never, Result, ok, err,
}
use mongodb_backup_s.Clock.{Instant}
use mongodb_backup_s.Config.{Config}
use mongodb_backup_s.Config.Validate.{validate_backup}
use mongodb_backup_s.World.{World, Action, lift, ◌>>=◌, ◌>>◌}
use mongodb_backup_s.Trace.{Run, scheduling, scheduled_failed, silent, note}
use mongodb_backup_s.Bundle.{Formats}
use mongodb_backup_s.Backup.{attempt, backup}

-- What happens while a job is scheduled: the world goes on, or the job runs.
pub data Turns (w : World) (job : Run w → Run w) : Run w → Run w → Type 0 where
  ended : {r : Run w} → Turns w job r r
  wait :
      {r t : Run w} (s : w.State)
      → Turns w job (record { env = s; trace = r.trace }) t
      → Turns w job r t
  fire : {r t : Run w} → Turns w job (job r) t → Turns w job r t

pub record Cron (w : World) : Type 1 where
  pub Schedule : Type 0
  -- `scheduleParser().Parse`
  pub parse : Bytes → Result Schedule
  -- `Next`, which is the zero time where there is none
  pub next : Schedule → Instant → Option Instant
  -- from Schedule and Start, over the end of the context, to the end of Stop
  pub serve : Schedule → (Run w → Run w) → Run w → Run w
  -- It does nothing itself but run the job.
  pub serves :
      (schedule : Schedule) (job : Run w → Run w) (r : Run w) → Turns w job r (serve schedule job r)

module _ (w : World) (cron : Cron w) (f : Formats) (c : Config) where
  unfoldable pub report_scheduled : Result (Unit {0}) → Action (Run w) (Unit {0})
  report_scheduled (ok u) = lift (ok tt)
  report_scheduled (err e) = note w scheduled_failed

  -- The function that is scheduled; its error ends in a message.
  unfoldable pub scheduled_job : Run w → Run w
  unfolding report_scheduled
  scheduled_job r = let (result, s) = backup w f c r in (report_scheduled result s).1

  unfoldable pub has_future : Option Instant → Result (Unit {0})
  has_future none = err schedule_never
  has_future (some t) = ok tt

  unfoldable pub parse_schedule : Result cron.Schedule → Result cron.Schedule
  parse_schedule (ok schedule) = ok schedule
  parse_schedule (err e) = err schedule_invalid

  unfoldable pub error_of : Option Error → Result (Unit {0})
  error_of none = ok tt
  error_of (some e) = err e

  -- The end: `<-ctx.Done()`, the end of the scheduler, and `ctx.Err()`.
  unfoldable pub until_done : cron.Schedule → Action (Run w) (Unit {0})
  unfolding scheduled_job error_of
  until_done schedule r =
      let r' = cron.serve schedule scheduled_job r in (error_of (w.ctx_err r'.env), r')

  unfoldable pub run_schedule : Action (Run w) (Unit {0})
  unfolding has_future parse_schedule until_done
  run_schedule = do
    days ← lift (validate_backup c)
    schedule ← lift (parse_schedule (cron.parse c.schedule))
    at ← silent w (λ s. (ok (w.now s), s))
    lift (has_future (cron.next schedule at))
    note w scheduling
    until_done schedule

  -- `Run`
  unfoldable pub run : Action (Run w) (Unit {0})
  unfolding run_schedule
  run = if is_empty c.schedule then backup w f c else run_schedule
