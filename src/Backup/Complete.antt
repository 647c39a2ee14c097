-- ===== src/Backup/Complete.antt =====
-- internal/backup/app.go, Backup: what a run without an error has done.
use mongodb_backup_s.Base.{
  false, is_empty, codes, trim_space, ◌==◌, fail_if, version_empty, ℕ, ◌≡◌, sym, ◌∙◌, ap, subst,
  List, [], ◌∷◌, Bytes, All, ok, ok-injective,
}
use mongodb_backup_s.Clock.{Instant}
use mongodb_backup_s.Config.{Config}
use mongodb_backup_s.Config.Validate.{validate_backup}
use mongodb_backup_s.Url.{break_at}
use mongodb_backup_s.World.{
  run_tool, lift-fail_if-eq-ok, World, Action, lift, check_ctx, >>=-eq-ok, >>-eq-ok, >>=-of_ok,
  >>-of_ok,
}
use mongodb_backup_s.Mongo
use mongodb_backup_s.Process.{acquire_lock}
use mongodb_backup_s.Trace.{Run, Event, silent}
use mongodb_backup_s.Bundle.{Formats}
use mongodb_backup_s.Bundle.Write.{now}
use mongodb_backup_s.Retention.{cutoff_of}
use mongodb_backup_s.Backup.{
  attempt, backup_all, run_backups, tools_version, with_runner, defer, with_source, with_lock,
  require_versioning, databases, backup,
}
use mongodb_backup_s.Backup.Database.{join-eq-ok}
use mongodb_backup_s.Backup.Loop.{IsBackedUp, finish-eq-ok, backup_all-IsBackedUp}

module _ (w : World) (f : Formats) (c : Config) where
  -- The action with the private files: what it does is all that is seen.
  pub with_runner-eq-ok :
      (action : Action (Run w) (Unit {0})) (r : Run w)
      → (with_runner w f c action r).0 ≡ ok tt
      → (s : Run w) × ((action s).0 ≡ ok tt)
        × ((with_runner w f c action r).1.trace ≡ (action s).1.trace)
  unfolding with_runner attempt lift silent
  with_runner-eq-ok action r h =
      let (prepared, h1) = >>-eq-ok (silent w w.prepare) _ r h in
      let s1 : Run w = (silent w w.prepare r).1 in
      let (result, e2, h2) = >>=-eq-ok (attempt action) _ s1 h1 in
      let s2 : Run w = (action s1).1 in
      let (removed, e3, h3) = >>=-eq-ok (attempt (silent w w.clean_up)) _ s2 h2 in
      let step =
        >>-of_ok (silent w w.prepare) _ r prepared
        ∙ >>=-of_ok (attempt action) _ s1 e2
        ∙ >>=-of_ok (attempt (silent w w.clean_up)) _ s2 e3 in
      (s1, ok-injective e2 ∙ (join-eq-ok result removed h3).0, ap (λ x. x.1.trace) step)

  -- What a run has done: a selection of databases, and a backup of each.
  pub record IsCompleted (t : List Event) : Type 0 where
    pub names : List Bytes
    pub before : Run w
    pub selected : (databases w f c before).0 ≡ ok names
    pub done : All (IsBackedUp w f c t) names

  tools_version-eq-ok :
      (s : w.State) (version : Bytes)
      → (tools_version w f c s).0 ≡ ok version
      → is_empty version ≡ false
  unfolding tools_version lift
  tools_version-eq-ok s version h =
      let (output, e1, h1) =
        >>=-eq-ok (run_tool w (codes "mongodump") (codes "--version" ∷ [])) _ s h in
      let found = trim_space (break_at (λ b. b == b'\n') output).0 in
      let (named, e2) = >>-eq-ok (lift (fail_if (is_empty found) version_empty)) _ _ h1 in
      subst (λ v. is_empty v ≡ false) (ok-injective e2)
        (lift-fail_if-eq-ok {S = w.State} (is_empty found) version_empty s named)

  run_backups-IsBackedUp :
      (days : ℕ) (names : List Bytes) (cutoff : Instant) (r : Run w)
      → (run_backups w f c days names cutoff r).0 ≡ ok tt
      → All (IsBackedUp w f c (run_backups w f c days names cutoff r).1.trace) names
  unfolding run_backups lift silent
  run_backups-IsBackedUp days names cutoff r h =
      let (version, e1, h1) = >>=-eq-ok (silent w (tools_version w f c)) _ r h in
      let s1 : Run w = (silent w (tools_version w f c) r).1 in
      let (failures, e2, h2) = >>=-eq-ok (backup_all w f c days cutoff version [] names) _ s1 h1 in
      let step =
        >>=-of_ok (silent w (tools_version w f c)) _ r e1
        ∙ >>=-of_ok (backup_all w f c days cutoff version [] names) _ s1 e2 in
      let nothing = finish-eq-ok w f c failures h2 in
      subst (λ x. All (IsBackedUp w f c x.1.trace) names) (sym step)
        (backup_all-IsBackedUp w f c days cutoff version [] names s1
          (tools_version-eq-ok r.env version e1) (e2 ∙ ap (λ l. ok l) nothing)).1

  with_source-IsCompleted :
      (days : ℕ) (s : Run w)
      → (with_source w f c days s).0 ≡ ok tt
      → IsCompleted (with_source w f c days s).1.trace
  unfolding with_source
  with_source-IsCompleted days s h =
      let (names, e1, h1) = >>=-eq-ok (databases w f c) _ s h in
      let s1 : Run w = (databases w f c s).1 in
      let (started, e2, h2) = >>=-eq-ok (silent w (now w)) _ s1 h1 in
      let s2 : Run w = (silent w (now w) s1).1 in
      let action = run_backups w f c days names (cutoff_of started days) in
      let (s3, good, same) = with_runner-eq-ok action s2 h2 in
      let step = >>=-of_ok (databases w f c) _ s e1 ∙ >>=-of_ok (silent w (now w)) _ s1 e2 in
      record {
        names = names;
        before = s;
        selected = e1;
        done =
            subst (λ t. All (IsBackedUp w f c t) names) (sym (ap (λ x. x.1.trace) step ∙ same))
              (run_backups-IsBackedUp days names (cutoff_of started days) s3 good);
      }

  -- A run of Backup without an error has, of the databases that were selected, uploaded a backup of
  -- each and reported it complete.
  pub backup-IsCompleted :
      (r : Run w) → (backup w f c r).0 ≡ ok tt → IsCompleted (backup w f c r).1.trace
  unfolding backup with_lock defer lift
  backup-IsCompleted r h =
      let (live, h1) = >>-eq-ok (silent w (check_ctx w)) _ r h in
      let s1 : Run w = (silent w (check_ctx w) r).1 in
      let (days, valid, h2) = >>=-eq-ok (lift (validate_backup c)) _ s1 h1 in
      let (locked, h3) = >>-eq-ok (silent w (acquire_lock w)) _ s1 h2 in
      let s2 : Run w = (silent w (acquire_lock w) s1).1 in
      let (versioned, h4) = >>-eq-ok (require_versioning w f c) _ s2 h3 in
      let s3 : Run w = (require_versioning w f c s2).1 in
      let (connected, h5) = >>-eq-ok (silent w (Mongo.new_source w c)) _ s3 h4 in
      let s4 : Run w = (silent w (Mongo.new_source w c) s3).1 in
      let step =
        >>-of_ok (silent w (check_ctx w)) _ r live
        ∙ >>=-of_ok (lift (validate_backup c)) _ s1 valid
        ∙ >>-of_ok (silent w (acquire_lock w)) _ s1 locked in
      let inner =
        >>-of_ok (require_versioning w f c) _ s2 versioned
        ∙ >>-of_ok (silent w (Mongo.new_source w c)) _ s3 connected in
      subst IsCompleted (sym (ap (λ x. x.1.trace) step ∙ ap (λ x. x.1.trace) inner))
        (with_source-IsCompleted days s4 h5)
