-- ===== src/Schedule/Justified.antt =====
-- internal/backup/app.go, Run: the deletions of all scheduled backups.
use mongodb_backup_s.Base.{inl, inr, is_empty, Bool-cases, Result, ok, err}
use mongodb_backup_s.Config.{Config}
use mongodb_backup_s.Config.Validate.{validate_backup}
use mongodb_backup_s.World.{World, lift}
use mongodb_backup_s.Trace.{Run, scheduling, silent, note}
use mongodb_backup_s.Trace.Extends.{note-Adds}
use mongodb_backup_s.Bundle.{Formats}
use mongodb_backup_s.Backup.{backup}
use mongodb_backup_s.Backup.Order.{
  Justified, Quiet, Keeps, Adds-Keeps, >>=-Keeps, >>-Keeps, quiet_silent, quiet_lift,
  backup-Justified,
}
use mongodb_backup_s.Schedule.{
  Turns, ended, wait, fire, Cron, report_scheduled, scheduled_job, has_future, parse_schedule,
  until_done, run_schedule, run,
}

module _ (w : World) (c : Config) where
  Turns-Justified :
      (job : Run w → Run w) {r t : Run w}
      → ((s : Run w) → Justified c s.trace → Justified c (job s).trace)
      → Turns w job r t
      → Justified c r.trace
      → Justified c t.trace
  Turns-Justified job h ended j = j
  Turns-Justified job h (wait s turns) j = Turns-Justified job h turns j
  Turns-Justified job {r} h (fire turns) j = Turns-Justified job h turns (h r j)

  module _ (cron : Cron w) (f : Formats) where
    report_scheduled-Justified :
        (result : Result (Unit {0})) (r : Run w)
        → Justified c r.trace
        → Justified c (report_scheduled w cron f c result r).1.trace
    unfolding report_scheduled lift note
    report_scheduled-Justified (ok u) r j = j
    report_scheduled-Justified (err e) r j = j

    scheduled_job-Justified :
        (r : Run w) → Justified c r.trace → Justified c (scheduled_job w cron f c r).trace
    unfolding scheduled_job
    scheduled_job-Justified r j =
        report_scheduled-Justified (backup w f c r).0 (backup w f c r).1
          (backup-Justified c w f r j)

    until_done-Keeps :
        (schedule : cron.Schedule) (r : Run w) → Keeps c w (until_done w cron f c schedule) r
    unfolding until_done
    until_done-Keeps schedule r = record {
      kept =
          Turns-Justified (scheduled_job w cron f c) scheduled_job-Justified
            (cron.serves schedule (scheduled_job w cron f c) r);
    }

    run_schedule-Keeps : (r : Run w) → Keeps c w (run_schedule w cron f c) r
    unfolding run_schedule
    run_schedule-Keeps r =
        >>=-Keeps c w (lift (validate_backup c)) _ r (quiet_lift c w f (validate_backup c) r)
          λ days _.
            >>=-Keeps c w (lift (parse_schedule w cron f c (cron.parse c.schedule))) _ _
              (quiet_lift c w f _ _)
              λ schedule _.
                >>=-Keeps c w (silent w (λ s. (ok (w.now s), s))) _ _ (quiet_silent c w f _ _)
                  λ at _.
                    >>-Keeps c w (lift (has_future w cron f c (cron.next schedule at))) _ _
                      (quiet_lift c w f _ _)
                      λ _.
                        >>-Keeps c w (note w scheduling) _ _
                          (Adds-Keeps c w _ _ (note-Adds w (Quiet c) scheduling _ tt))
                          λ _. until_done-Keeps schedule _

    pub run-Keeps : (r : Run w) → Keeps c w (run w cron f c) r
    unfolding run
    run-Keeps r = elim (Bool-cases (is_empty c.schedule)) [
      | inl e ↦ rw e (record { kept = backup-Justified c w f r })
      | inr e ↦ rw e (run_schedule-Keeps r)
    ]
