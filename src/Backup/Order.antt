-- ===== src/Backup/Order.antt =====
-- internal/backup/app.go, Backup: the order of uploads and deletions in a run.
use mongodb_backup_s.Base.{
  ℕ, ◌≡◌, refl, sym, ◌∙◌, subst, Bool, true, not, List, [], ◌∷◌, ◌++◌, Bytes, All, ltb, Bool-cases,
  Error, versioning_disabled, Result, ok, err, Result-cases, inl, inr, ok-injective, str_eq,
  fail_if,
}
use mongodb_backup_s.Clock.{Instant}
use mongodb_backup_s.Config.{Config, full, fixed}
use mongodb_backup_s.Config.Validate.{validate_backup}
use mongodb_backup_s.Keys.{backup_key, is_timestamp_backup}
use mongodb_backup_s.World.{World, Action, lift, check_ctx, ◌>>=◌, ◌>>◌}
use mongodb_backup_s.Mongo
use mongodb_backup_s.Process.{acquire_lock}
use mongodb_backup_s.Trace.{
  Run, Event, uploaded, deleted, delete_failed, backup_complete, backup_failed, retention_failed,
  versioning_unknown, no_snapshot, In, there, silent, note,
}
use mongodb_backup_s.Trace.Extends.{Adds, In-append, >>-Adds, silent-Adds, note-Adds, lift-Adds}
use mongodb_backup_s.Databases.{select_databases}
use mongodb_backup_s.Bundle.{Formats}
use mongodb_backup_s.Bundle.Write.{now}
use mongodb_backup_s.Retention.{remove_old_backups, cutoff_of}
use mongodb_backup_s.Retention.Deletes.{Retains, remove_old_backups-Retains}
use mongodb_backup_s.Backup.{
  attempt, backup_one, retain, report_retention, after_backup, backup_all, tools_version, finish,
  run_backups, with_runner, defer, with_source, with_lock, require_versioning, check_versioning,
  databases, backup, join,
}
use mongodb_backup_s.Backup.Database.{backup_one-Adds, backup_one-In}

module _ (c : Config) where
  -- The key is that of a timestamp backup of a database whose new backup was uploaded before.
  abbrev pub Owed : Bytes → List Event → Type 0
  Owed key t =
      (database : Bytes) × (at : Instant) × In (uploaded (backup_key c database at)) t
      × (is_timestamp_backup c database key ≡ true)

  -- Every deletion in a trace, the newest event first, is owed to the events before it.
  abbrev pub Justified : List Event → Type 0
  Justified [] = Unit
  Justified (deleted key ∷ t) = Owed key t × Justified t
  Justified (delete_failed key ∷ t) = Owed key t × Justified t
  Justified (_ ∷ t) = Justified t

  abbrev pub Quiet : Event → Type 0
  Quiet (deleted key) = ⊥
  Quiet (delete_failed key) = ⊥
  Quiet _ = Unit

  pub Justified-Quiet : (es t : List Event) → All Quiet es → Justified t → Justified (es ++ t)
  Justified-Quiet [] t h j = j
  Justified-Quiet (deleted key ∷ es) t (q, h) j = absurd q
  Justified-Quiet (delete_failed key ∷ es) t (q, h) j = absurd q
  Justified-Quiet (_ ∷ es) t (q, h) j = Justified-Quiet es t h j

  module _ (w : World) where
    Justified-Retains :
        (database : Bytes) (at cutoff : Instant) (env : w.State) (es t : List Event)
        → All (Retains w c database cutoff env) es
        → In (uploaded (backup_key c database at)) t
        → Justified t
        → Justified (es ++ t)
    Justified-Retains database at cutoff env [] t h sent j = j
    Justified-Retains database at cutoff env (deleted key ∷ es) t (x, h) sent j = (
      (database, at, In-append es t sent, x.5),
      Justified-Retains database at cutoff env es t h sent j,
    )
    Justified-Retains database at cutoff env (delete_failed key ∷ es) t (x, h) sent j = (
      (database, at, In-append es t sent, x.5),
      Justified-Retains database at cutoff env es t h sent j,
    )
    Justified-Retains database at cutoff env (_ ∷ es) t (x, h) sent j = absurd x

    -- A computation keeps the trace justified.
    pub record Keeps {A : Type 0} (m : Action (Run w) A) (r : Run w) : Type 0 where
      pub kept : Justified r.trace → Justified (m r).1.trace

    pub Adds-Keeps : {A : Type 0} (m : Action (Run w) A) (r : Run w) → Adds w Quiet m r → Keeps m r
    Adds-Keeps m r (es, e, h) = record {
      kept = λ j. subst Justified (sym e) (Justified-Quiet es r.trace h j);
    }

    pub >>=-Keeps :
        {A B : Type 0} (m : Action (Run w) A) (f : A → Action (Run w) B) (r : Run w)
        → Keeps m r
        → ((a : A) → (m r).0 ≡ ok a → Keeps (f a) (m r).1)
        → Keeps (m >>= f) r
    unfolding ◌>>=◌
    >>=-Keeps m f r h k = elim (Result-cases (m r).0) [
      | inl (a, e) ↦ record { kept = λ j. rw (e, ◌>>=◌) ((k a e).kept (h.kept j)) }
      | inr (_, e) ↦ record { kept = λ j. rw (e, ◌>>=◌) (h.kept j) }
    ]

    pub >>-Keeps :
        {B : Type 0} (m : Action (Run w) (Unit {0})) (k : Action (Run w) B) (r : Run w)
        → Keeps m r
        → ((m r).0 ≡ ok tt → Keeps k (m r).1)
        → Keeps (m >> k) r
    unfolding ◌>>◌
    >>-Keeps m k r h next = >>=-Keeps m (λ _. k) r h (λ _ e. next e)

    module _ (f : Formats) where
      report_retention-Keeps :
          (database : Bytes) (result : Result (Unit {0})) (r : Run w)
          → Keeps (report_retention w f c database result) r
      unfolding report_retention
      report_retention-Keeps database (ok u) r = Adds-Keeps _ r (lift-Adds w Quiet (ok []) r)
      report_retention-Keeps database (err e) r = Adds-Keeps _ r (
          >>-Adds w Quiet (note w (retention_failed database)) _ r (note-Adds w Quiet _ r tt)
            λ _. lift-Adds w Quiet (ok (e ∷ [])) _)

      retain-Keeps :
          (days : ℕ) (cutoff : Instant) (database : Bytes) (at : Instant) (r : Run w)
          → In (uploaded (backup_key c database at)) r.trace
          → Keeps (retain w f c days cutoff database) r
      unfolding retain attempt
      retain-Keeps days cutoff database at r sent = elim (Bool-cases (ltb 0 days)) [
        | inr e ↦ rw e (Adds-Keeps _ r (lift-Adds w Quiet (ok []) r))
        | inl e ↦ rw e (
            >>=-Keeps (attempt (remove_old_backups w c database cutoff)) _ r
              (record {
                kept = λ j.
                    let (es, eq, h) = remove_old_backups-Retains w c database cutoff r in
                    subst Justified (sym eq)
                      (Justified-Retains database at cutoff r.env es r.trace h sent j);
              })
              λ result _. report_retention-Keeps database result _)
      ]

      after_backup-Keeps :
          (days : ℕ) (cutoff : Instant) (database : Bytes) (result : Result (Unit {0})) (r : Run w)
          → (result ≡ ok tt → (at : Instant) × In (uploaded (backup_key c database at)) r.trace)
          → Keeps (after_backup w f c days cutoff database result) r
      unfolding after_backup note
      after_backup-Keeps days cutoff database (err e) r sent = Adds-Keeps _ r (
          >>-Adds w Quiet (note w (backup_failed database)) _ r (note-Adds w Quiet _ r tt)
            λ _. lift-Adds w Quiet (ok (e ∷ [])) _)
      after_backup-Keeps days cutoff database (ok u) r sent =
          let (at, s) = sent refl in
          >>-Keeps (note w (backup_complete database)) _ r
            (Adds-Keeps _ r (note-Adds w Quiet _ r tt))
            λ _. retain-Keeps days cutoff database at _ (there s)

      backup_all-Keeps :
          (days : ℕ) (cutoff : Instant) (version : Bytes) (failures : List Error)
          (names : List Bytes) (r : Run w)
          → Keeps (backup_all w f c days cutoff version failures names) r
      unfolding backup_all attempt
      backup_all-Keeps days cutoff version failures [] r =
          Adds-Keeps _ r (lift-Adds w Quiet (ok failures) r)
      backup_all-Keeps days cutoff version failures (database ∷ names) r =
          >>-Keeps (silent w (check_ctx w)) _ r
            (Adds-Keeps _ r (silent-Adds w Quiet (check_ctx w) r))
            λ _.
              let s = (silent w (check_ctx w) r).1 in
              >>=-Keeps (attempt (backup_one w f c version database)) _ s
                (Adds-Keeps _ s (backup_one-Adds w f c Quiet version database s (λ t. (tt, tt))))
                λ result e.
                  >>=-Keeps (after_backup w f c days cutoff database result) _ _
                    (after_backup-Keeps days cutoff database result _
                      (λ good. backup_one-In w f c version database s (ok-injective e ∙ good)))
                    λ more _. backup_all-Keeps days cutoff version (failures ++ more) names _

      pub quiet_silent : {A : Type 0} (m : Action w.State A) (r : Run w) → Keeps (silent w m) r
      quiet_silent m r = Adds-Keeps (silent w m) r (silent-Adds w Quiet m r)

      pub quiet_lift : {A : Type 0} (x : Result A) (r : Run w) → Keeps (lift x) r
      quiet_lift x r = Adds-Keeps (lift x) r (lift-Adds w Quiet x r)

      attempt-Keeps :
          {A : Type 0} (m : Action (Run w) A) (r : Run w) → Keeps m r → Keeps (attempt m) r
      unfolding attempt
      attempt-Keeps m r h = record { kept = h.kept }

      defer-Keeps :
          {A : Type 0} (cleanup : w.State → w.State) (m : Action (Run w) A) (r : Run w)
          → Keeps m r
          → Keeps (defer w f c cleanup m) r
      unfolding defer
      defer-Keeps cleanup m r h = record { kept = h.kept }

      with_runner-Keeps :
          (action : Action (Run w) (Unit {0})) (r : Run w)
          → ((s : Run w) → Keeps action s)
          → Keeps (with_runner w f c action) r
      unfolding with_runner
      with_runner-Keeps action r h =
          >>-Keeps (silent w w.prepare) _ r (quiet_silent w.prepare r) λ _.
            >>=-Keeps (attempt action) _ _ (attempt-Keeps action _ (h _)) λ result _.
              >>=-Keeps (attempt (silent w w.clean_up)) _ _
                (attempt-Keeps (silent w w.clean_up) _ (quiet_silent w.clean_up _))
                λ removed _. quiet_lift (join result removed) _

      run_backups-Keeps :
          (days : ℕ) (names : List Bytes) (cutoff : Instant) (r : Run w)
          → Keeps (run_backups w f c days names cutoff) r
      unfolding run_backups
      run_backups-Keeps days names cutoff r =
          >>=-Keeps (silent w (tools_version w f c)) _ r (quiet_silent (tools_version w f c) r)
            λ version _.
              >>=-Keeps (backup_all w f c days cutoff version [] names) _ _
                (backup_all-Keeps days cutoff version [] names _)
                λ failures _. quiet_lift (finish w f c failures) _

      databases-Keeps : (r : Run w) → Keeps (databases w f c) r
      unfolding databases
      databases-Keeps r = elim (Bool-cases (str_eq c.backup_mode full)) [
        | inl e ↦ rw e (quiet_lift (ok ([] ∷ [])) r)
        | inr e ↦ rw e (
            >>-Keeps (note w no_snapshot) _ r (Adds-Keeps _ r (note-Adds w Quiet no_snapshot r tt))
              λ _.
                >>=-Keeps (silent w (Mongo.databases w)) _ _ (quiet_silent (Mongo.databases w) _)
                  λ existing _. quiet_lift (select_databases c existing) _)
      ]

      with_source-Keeps : (days : ℕ) (r : Run w) → Keeps (with_source w f c days) r
      unfolding with_source
      with_source-Keeps days r = >>=-Keeps (databases w f c) _ r (databases-Keeps r) λ names _.
          >>=-Keeps (silent w (now w)) _ _ (quiet_silent (now w) _) λ started _.
            with_runner-Keeps (run_backups w f c days names (cutoff_of started days)) _
              (run_backups-Keeps days names (cutoff_of started days))

      check_versioning-Keeps :
          (enabled : Result Bool) (r : Run w) → Keeps (check_versioning w f c enabled) r
      unfolding check_versioning
      check_versioning-Keeps (ok enabled) r =
          quiet_lift (fail_if (not enabled) versioning_disabled) r
      check_versioning-Keeps (err e) r =
          >>-Keeps (silent w (check_ctx w)) _ r (quiet_silent (check_ctx w) r)
            λ _. Adds-Keeps _ _ (note-Adds w Quiet versioning_unknown _ tt)

      require_versioning-Keeps : (r : Run w) → Keeps (require_versioning w f c) r
      unfolding require_versioning
      require_versioning-Keeps r = elim (Bool-cases (str_eq c.filename_mode fixed)) [
        | inr e ↦ rw e (quiet_lift (ok tt) r)
        | inl e ↦ rw e (
            >>=-Keeps (attempt (silent w w.versioning_enabled)) _ r
              (attempt-Keeps _ r (quiet_silent w.versioning_enabled r))
              λ enabled _. check_versioning-Keeps enabled _)
      ]

      -- In every run of Backup, whatever fails in it, each deletion of an object, done or tried, is
      -- behind the upload of a backup of the database that the object is a timestamp backup of,
      -- if this holds of the events before the run, as it does where there are none.
      pub backup-Justified : (r : Run w) → Justified r.trace → Justified (backup w f c r).1.trace
      unfolding backup with_lock
      backup-Justified r =
          (>>-Keeps (silent w (check_ctx w)) _ r (quiet_silent (check_ctx w) r) λ _.
            >>=-Keeps (lift (validate_backup c)) _ _ (quiet_lift (validate_backup c) _) λ days _.
              >>-Keeps (silent w (acquire_lock w)) _ _ (quiet_silent (acquire_lock w) _) λ _.
                defer-Keeps w.close_lock (with_lock w f c days) _ (
                  >>-Keeps (require_versioning w f c) _ _ (require_versioning-Keeps _) λ _.
                    >>-Keeps (silent w (Mongo.new_source w c)) _ _
                      (quiet_silent (Mongo.new_source w c) _)
                      λ _.
                        defer-Keeps (λ s. (Mongo.close w s).1) (with_source w f c days) _
                          (with_source-Keeps days _))).kept
