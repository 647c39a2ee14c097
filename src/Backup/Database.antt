-- ===== src/Backup/Database.antt =====
-- internal/backup/app.go: what backupDatabase leaves in the trace.
use mongodb_backup_s.Base.{◌≡◌, refl, sym, ◌∙◌, subst, Bytes, Result, ok, err, ok-injective}
use mongodb_backup_s.Clock.{Instant}
use mongodb_backup_s.Config.{Config}
use mongodb_backup_s.Keys.{backup_key}
use mongodb_backup_s.World.{World, Body, Snapshot, Action, lift, >>=-eq-ok, >>=-of_ok}
use mongodb_backup_s.Mongo
use mongodb_backup_s.Trace.{Run, Event, uploaded, upload_failed, In, here, silent, upload}
use mongodb_backup_s.Trace.Extends.{Adds, >>=-Adds, silent-Adds, lift-Adds, upload-Adds}
use mongodb_backup_s.Bundle.{Formats}
use mongodb_backup_s.Bundle.Write.{now}
use mongodb_backup_s.Backup.{attempt, join, produce, backup_database, backup_one}

pub join-eq-ok : (a b : Result (Unit {0})) → join a b ≡ ok tt → (a ≡ ok tt) × (b ≡ ok tt)
unfolding join
join-eq-ok (ok u) b h = (refl, h)
join-eq-ok (err e) (ok u) h = cc
join-eq-ok (err e) (err e') h = cc

module _ (w : World) where
  pub attempt-Adds :
      (P : Event → Type 0) {A : Type 0} (m : Action (Run w) A) (r : Run w)
      → Adds w P m r
      → Adds w P (attempt m) r
  unfolding attempt
  attempt-Adds P m r h = h

  -- An upload without an error is in the trace.
  upload-In :
      (key : Bytes) (body : Body) (r : Run w)
      → (upload w key body r).0 ≡ ok tt
      → In (uploaded key) (upload w key body r).1.trace
  unfolding upload
  upload-In key body r h = rw h here

  module _ (f : Formats) (c : Config) where
    -- The upload of a backup of this database, at some time.
    abbrev pub Uploads : Bytes → Event → Type 0
    Uploads database e = (t : Instant) × (e ≡ uploaded (backup_key c database t))

    pub backup_database-Adds :
        (P : Event → Type 0) (database : Bytes) (snapshot : Snapshot) (version : Bytes) (r : Run w)
        → ((t : Instant)
            → P (uploaded (backup_key c database t)) × P (upload_failed (backup_key c database t)))
        → Adds w P (backup_database w f c database snapshot version) r
    unfolding backup_database
    backup_database-Adds P database snapshot version r h =
        >>=-Adds w P (silent w (now w)) _ r (silent-Adds w P (now w) r) λ started _.
          >>=-Adds w P (silent w (produce w f c database snapshot version started)) _ _
            (silent-Adds w P _ _)
            λ body _.
              >>=-Adds w P (attempt (upload w (backup_key c database started) body)) _ _
                (attempt-Adds P (upload w (backup_key c database started) body) _ (
                  upload-Adds w P (backup_key c database started) body _ (h started).0
                    (h started).1))
                λ _ _. lift-Adds w P _ _

    pub backup_one-Adds :
        (P : Event → Type 0) (version database : Bytes) (r : Run w)
        → ((t : Instant)
            → P (uploaded (backup_key c database t)) × P (upload_failed (backup_key c database t)))
        → Adds w P (backup_one w f c version database) r
    unfolding backup_one
    backup_one-Adds P version database r h =
        >>=-Adds w P (silent w (Mongo.inspect w)) _ r (silent-Adds w P (Mongo.inspect w) r)
          λ snapshot _. backup_database-Adds P database snapshot version _ h

    -- A backup that succeeds has been uploaded.
    pub backup_database-In :
        (database : Bytes) (snapshot : Snapshot) (version : Bytes) (r : Run w)
        → (backup_database w f c database snapshot version r).0 ≡ ok tt
        → (t : Instant) × In
            (uploaded (backup_key c database t))
            (backup_database w f c database snapshot version r).1.trace
    unfolding backup_database attempt lift
    backup_database-In database snapshot version r h =
        let (started, e1, h1) = >>=-eq-ok (silent w (now w)) _ r h in
        let s1 = (silent w (now w) r).1 in
        let make = silent w (produce w f c database snapshot version started) in
        let (body, e2, h2) = >>=-eq-ok make _ s1 h1 in
        let s2 = (make s1).1 in
        let key = backup_key c database started in
        let (result, e3, h3) = >>=-eq-ok (attempt (upload w key body)) _ s2 h2 in
        let sent : (upload w key body s2).0 ≡ ok tt =
          ok-injective e3 ∙ (join-eq-ok result body.end h3).0 in
        let step =
          >>=-of_ok (silent w (now w)) _ r e1
          ∙ >>=-of_ok make _ s1 e2
          ∙ >>=-of_ok (attempt (upload w key body)) _ s2 e3 in
        (started, subst (λ x. In (uploaded key) x.1.trace) (sym step) (upload-In key body s2 sent))

    pub backup_one-In :
        (version database : Bytes) (r : Run w)
        → (backup_one w f c version database r).0 ≡ ok tt
        → (t : Instant) × In
            (uploaded (backup_key c database t))
            (backup_one w f c version database r).1.trace
    unfolding backup_one
    backup_one-In version database r h =
        let (snapshot, e1, h1) = >>=-eq-ok (silent w (Mongo.inspect w)) _ r h in
        let (t, sent) =
          backup_database-In database snapshot version (silent w (Mongo.inspect w) r).1 h1 in
        (
          t,
          subst (λ x. In (uploaded (backup_key c database t)) x.1.trace)
              (sym (>>=-of_ok (silent w (Mongo.inspect w)) _ r e1)) sent,
        )
