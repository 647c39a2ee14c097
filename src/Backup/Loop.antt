-- ===== src/Backup/Loop.antt =====
-- internal/backup/app.go, Backup: what its loop has done, if nothing failed.
use mongodb_backup_s.Base.{
  false, is_empty, ℕ, ◌≡◌, refl, sym, ◌∙◌, ap, subst, List, [], ◌∷◌, ◌++◌, Bytes, All, ltb,
  Bool-cases, inl, inr, Error, Result, ok, err, ok-injective,
}
use mongodb_backup_s.Clock.{Instant}
use mongodb_backup_s.Config.{Config}
use mongodb_backup_s.Keys.{backup_key}
use mongodb_backup_s.World.{
  World, lift, check_ctx, ◌>>=◌, ◌>>◌, >>=-eq-ok, >>-eq-ok, >>=-of_ok, >>-of_ok,
}
use mongodb_backup_s.Trace.{
  Run, Event, uploaded, backup_complete, backup_failed, retention_failed, In, here, silent, note,
}
use mongodb_backup_s.Trace.Extends.{
  Extends, Extends-In, Adds, >>=-Adds, >>-Adds, silent-Adds, note-Adds, lift-Adds,
}
use mongodb_backup_s.Bundle.{Formats}
use mongodb_backup_s.Bundle.Write.{now}
use mongodb_backup_s.Retention.{remove_old_backups}
use mongodb_backup_s.Retention.Deletes.{remove_old_backups-Retains}
use mongodb_backup_s.Backup.{
  attempt, backup_one, retain, report_retention, after_backup, backup_all, with_failures, finish,
  join_errors, join,
}
use mongodb_backup_s.Backup.Database.{attempt-Adds, backup_one-Adds, backup_one-In}

-- Nothing is asked of an event.
abbrev Any : Event → Type 0
Any e = Unit

module _ (w : World) (f : Formats) (c : Config) where
  -- A backup of the database, with a known version of the tools, that reported success.
  abbrev pub Succeeded : Bytes → Type 0
  Succeeded database =
      (version : Bytes) × (s : Run w) × (is_empty version ≡ false)
      × ((backup_one w f c version database s).0 ≡ ok tt)

  -- The database has a backup that was uploaded, and the message that says so.
  abbrev pub IsBackedUp : List Event → Bytes → Type 0
  IsBackedUp t database =
      ((at : Instant) × In (uploaded (backup_key c database at)) t)
      × In (backup_complete database) t
      × Succeeded database

  report_retention-Adds :
      (database : Bytes) (result : Result (Unit {0})) (r : Run w)
      → Adds w Any (report_retention w f c database result) r
  unfolding report_retention
  report_retention-Adds database (ok u) r = lift-Adds w Any (ok []) r
  report_retention-Adds database (err e) r =
      >>-Adds w Any (note w (retention_failed database)) _ r (note-Adds w Any _ r tt)
        λ _. lift-Adds w Any (ok (e ∷ [])) _

  append-eq-nil : (xs ys : List Error) → xs ++ ys ≡ [] → (xs ≡ []) × (ys ≡ [])
  append-eq-nil [] ys h = (refl, h)
  append-eq-nil (x ∷ xs) ys h = cc

  join-eq-err :
      (e : Error) (rest : Result (Unit {0})) → join {A = Unit {0}} (err e) rest ≡ ok tt → ⊥
  unfolding join
  join-eq-err e (ok u) h = cc
  join-eq-err e (err x) h = cc

  with_failures-eq-ok : (all : Result (Unit {0})) → with_failures w f c all ≡ ok tt → all ≡ ok tt
  unfolding with_failures
  with_failures-eq-ok (ok u) h = refl
  with_failures-eq-ok (err e) h = cc

  pub finish-eq-ok : (failures : List Error) → finish w f c failures ≡ ok tt → failures ≡ []
  unfolding finish join_errors
  finish-eq-ok [] h = refl
  finish-eq-ok (e ∷ es) h = absurd (join-eq-err e (join_errors es) (with_failures-eq-ok _ h))

  All-Any : (es : List Event) → All Any es
  All-Any [] = tt
  All-Any (e ∷ es) = (tt, All-Any es)

  retain-Adds :
      (days : ℕ) (cutoff : Instant) (database : Bytes) (r : Run w)
      → Adds w Any (retain w f c days cutoff database) r
  unfolding retain
  retain-Adds days cutoff database r = elim (Bool-cases (ltb 0 days)) [
    | inr e ↦ rw e (lift-Adds w Any (ok []) r)
    | inl e ↦
        let (es, eq, _) = remove_old_backups-Retains w c database cutoff r in
        rw e (
          >>=-Adds w Any (attempt (remove_old_backups w c database cutoff)) _ r
            (attempt-Adds w Any (remove_old_backups w c database cutoff) r (es, eq, All-Any es))
            λ result _. report_retention-Adds database result _)
  ]

  after_backup-Adds :
      (days : ℕ) (cutoff : Instant) (database : Bytes) (result : Result (Unit {0})) (r : Run w)
      → Adds w Any (after_backup w f c days cutoff database result) r
  unfolding after_backup
  after_backup-Adds days cutoff database (err e) r =
      >>-Adds w Any (note w (backup_failed database)) _ r (note-Adds w Any _ r tt)
        λ _. lift-Adds w Any (ok (e ∷ [])) _
  after_backup-Adds days cutoff database (ok u) r =
      >>-Adds w Any (note w (backup_complete database)) _ r (note-Adds w Any _ r tt)
        λ _. retain-Adds days cutoff database _

  -- No failure after a backup: it succeeded, and the message has been written.
  after_backup-eq-nil :
      (days : ℕ) (cutoff : Instant) (database : Bytes) (result : Result (Unit {0})) (r : Run w)
      → (after_backup w f c days cutoff database result r).0 ≡ ok []
      → (result ≡ ok tt)
        × In (backup_complete database) (after_backup w f c days cutoff database result r).1.trace
  unfolding after_backup note lift ◌>>◌ ◌>>=◌
  after_backup-eq-nil days cutoff database (err e) r h = cc
  after_backup-eq-nil days cutoff database (ok u) r h = (
    refl,
    Extends-In Any _ _ (retain-Adds days cutoff database (note w (backup_complete database) r).1)
        here,
  )

  grown :
      (t u : List Event) (database : Bytes)
      → Extends Any t u
      → IsBackedUp t database
      → IsBackedUp u database
  grown t u database more ((at, sent), told, succeeded) =
      ((at, Extends-In Any t u more sent), Extends-In Any t u more told, succeeded)

  backup_all-Adds :
      (days : ℕ) (cutoff : Instant) (version : Bytes) (failures : List Error) (names : List Bytes)
      (r : Run w)
      → Adds w Any (backup_all w f c days cutoff version failures names) r
  unfolding backup_all
  backup_all-Adds days cutoff version failures [] r = lift-Adds w Any (ok failures) r
  backup_all-Adds days cutoff version failures (database ∷ names) r =
      >>-Adds w Any (silent w (check_ctx w)) _ r (silent-Adds w Any (check_ctx w) r) λ _.
        >>=-Adds w Any (attempt (backup_one w f c version database)) _ _
          (attempt-Adds w Any (backup_one w f c version database) _
            (backup_one-Adds w f c Any version database _ λ t. (tt, tt)))
          λ result _.
            >>=-Adds w Any (after_backup w f c days cutoff database result) _ _
              (after_backup-Adds days cutoff database result _)
              λ more _. backup_all-Adds days cutoff version (failures ++ more) names _

  -- The loop without a failure.
  pub backup_all-IsBackedUp :
      (days : ℕ) (cutoff : Instant) (version : Bytes) (failures : List Error) (names : List Bytes)
      (r : Run w)
      → is_empty version ≡ false
      → (backup_all w f c days cutoff version failures names r).0 ≡ ok []
      → (failures ≡ [])
        × All (IsBackedUp (backup_all w f c days cutoff version failures names r).1.trace) names
  unfolding backup_all attempt lift
  backup_all-IsBackedUp days cutoff version failures [] r named h = (ok-injective h, tt)
  backup_all-IsBackedUp days cutoff version failures (database ∷ names) r named h =
      let (live, h1) = >>-eq-ok (silent w (check_ctx w)) _ r h in
      let s1 : Run w = (silent w (check_ctx w) r).1 in
      let (result, e2, h2) = >>=-eq-ok (attempt (backup_one w f c version database)) _ s1 h1 in
      let s2 : Run w = (backup_one w f c version database s1).1 in
      let (more, e3, h3) = >>=-eq-ok (after_backup w f c days cutoff database result) _ s2 h2 in
      let s3 : Run w = (after_backup w f c days cutoff database result s2).1 in
      let (none_failed, rest) =
        backup_all-IsBackedUp days cutoff version (failures ++ more) names s3 named h3 in
      let (before, now) = append-eq-nil failures more none_failed in
      let (good, told) =
        after_backup-eq-nil days cutoff database result s2 (e3 ∙ ap (λ l. ok l) now) in
      let (at, sent) = backup_one-In w f c version database s1 (ok-injective e2 ∙ good) in
      let step =
        >>-of_ok (silent w (check_ctx w)) _ r live
        ∙ >>=-of_ok (attempt (backup_one w f c version database)) _ s1 e2
        ∙ >>=-of_ok (after_backup w f c days cutoff database result) _ s2 e3 in
      let kept = Extends-In Any _ _ (after_backup-Adds days cutoff database result s2) sent in
      (
        before,
        subst (λ x. All (IsBackedUp x.1.trace) (database ∷ names)) (sym step)
            (
              grown s3.trace _ database
                  (backup_all-Adds days cutoff version (failures ++ more) names s3)
                  ((at, kept), told, (version, s1, named, ok-injective e2 ∙ good)),
              rest,
            ),
      )
