-- ===== src/Backup/Restorable.antt =====
-- internal/backup/app.go, Backup, against withBundle of restore.go: what was backed up can be restored.
use mongodb_backup_s.Base.{
  ◌≡◌, ◌≤◌, ◌<◌, refl, sym, subst, true, false, List, [], ◌∷◌, Bytes, is_empty, All, All-map,
  All-and, arith, Bool-cases, inl, inr, str_eq, str_eq→eq, str_eq_refl, utf8_valid, ok,
  ok-injective,
}
use mongodb_backup_s.Config.{Config, full}
use mongodb_backup_s.Databases.{contains, candidates}
use mongodb_backup_s.Databases.Selected.{select_databases-IsSelection}
use mongodb_backup_s.World.{World, Snapshot, lift, >>=-eq-ok, >>-eq-ok}
use mongodb_backup_s.Mongo
use mongodb_backup_s.Mongo.Metadata.{inspect-IsInspected}
use mongodb_backup_s.Trace.{Run, silent, note, no_snapshot}
use mongodb_backup_s.Bundle.{Formats, IsLawful}
use mongodb_backup_s.Bundle.Write.{collect}
use mongodb_backup_s.Bundle.RoundTrip.{IsAccepted, validate_bundle-write_bundle}
use mongodb_backup_s.Backup.{backup_one, databases, backup}
use mongodb_backup_s.Backup.Published.{IsPublished, backup_database-IsPublished}
use mongodb_backup_s.Backup.Complete.{backup-IsCompleted}
use mongodb_backup_s.Backup.Loop.{Succeeded, IsBackedUp}

-- The clock shows a time, and does not go back while a bundle is collected.
pub record IsTimed (w : World) (f : Formats) (c : Config) : Type 0 where
  pub dated : (s : w.State) → 0 < w.now s
  pub forward :
      (database : Bytes) (snapshot : Snapshot) (s : w.State)
      → w.now s ≤ w.now (Mongo.inspect w (collect w f c database snapshot s).1).1

-- The configuration for a restore of a database.
abbrev pub restoring : Config → Bytes → Config
restoring c database = record c { database = database }

contained :
    (P : Bytes → Type 0) (name : Bytes) (names : List Bytes)
    → All P names
    → contains names name ≡ true
    → P name
unfolding contains
contained P name [] h e = absurd (ground arith)
contained P name (other ∷ names) (p, h) e = elim (Bool-cases (str_eq name other)) [
  | inl same ↦ subst P (sym (str_eq→eq name other same)) p
  | inr apart ↦ contained P name names h (ground (arith, apart))
]

-- What holds of all candidates holds of the names that are among them.
All-contains :
    (P : Bytes → Type 0) (found names : List Bytes)
    → All P names
    → ((name : Bytes) → contains found name ≡ true → contains names name ≡ true)
    → All P found
unfolding contains
All-contains P [] names all sub = tt
All-contains P (name ∷ found) names all sub = (
  contained P name names all (sub name (ground (arith, str_eq_refl name))),
  All-contains P found names all (λ other h. sub other (ground arith)),
)

module _ (w : World) (f : Formats) (c : Config) where
  databases-utf8 :
      (r : Run w) (names : List Bytes)
      → (databases w f c r).0 ≡ ok names
      → All (λ name. utf8_valid name ≡ true) names
  unfolding databases lift utf8_valid
  databases-utf8 r names h = elim (Bool-cases (str_eq c.backup_mode full)) [
    | inl e ↦ subst (All (λ name. utf8_valid name ≡ true)) (ok-injective (rw e at h)) (refl, tt)
    | inr e ↦
        let (_, h1) = >>-eq-ok (note w no_snapshot) _ r (rw e at h) in
        let r1 = (note w no_snapshot r).1 in
        let (existing, _, h2) = >>=-eq-ok (silent w (Mongo.databases w)) _ r1 h1 in
        let selection = select_databases-IsSelection c existing names h2 in
        All-contains _ names (candidates c existing)
          (All-map _ _ (λ name d. d.utf8) (candidates c existing) selection.valid)
          (λ name e. ground (arith, selection.members name))
  ]

  -- The store has taken a backup of the database, and a restore accepts its bundle, if it gets
  -- this back as it was.
  pub record IsRestorable (database : Bytes) : Type 0 where
    pub snapshot : Snapshot
    pub tools : Bytes
    pub before : w.State
    pub published : IsPublished w f c database snapshot tools before
    pub accepted :
        IsAccepted w f c
          (restoring c database)
          database
          snapshot
          tools
          published.started
          before
          published.members

  module _ (law : IsLawful f) (timed : IsTimed w f c) (mode : utf8_valid c.backup_mode ≡ true) where
    IsPublished-IsRestorable :
        (database tools : Bytes) (snapshot : Snapshot) (before : w.State)
        → utf8_valid database ≡ true
        → is_empty tools ≡ false
        → is_empty snapshot.server_version ≡ false
        → is_empty snapshot.fcv ≡ false
        → IsPublished w f c database snapshot tools before
        → IsRestorable database
    IsPublished-IsRestorable database tools snapshot before valid named version fcv p = record {
      snapshot = snapshot;
      tools = tools;
      before = before;
      published = p;
      accepted =
          validate_bundle-write_bundle w f c (restoring c database) database snapshot tools
            p.started before p.members law (refl, refl)
            (record {
              mode_valid = mode;
              database_valid = valid;
              server_version = version;
              fcv = fcv;
              tools_version = named;
              dated = subst (λ t. 0 < t) p.at_start (timed.dated before);
              clock =
                  subst
                    (λ t. t ≤ w.now (Mongo.inspect w (collect w f c database snapshot before).1).1)
                    p.at_start (timed.forward database snapshot before);
            })
            p.finished;
    }

    Succeeded-IsRestorable :
        (database : Bytes)
        → utf8_valid database ≡ true
        → Succeeded w f c database
        → IsRestorable database
    unfolding backup_one silent
    Succeeded-IsRestorable database valid (tools, s, named, h) =
        let (snapshot, inspected, h1) = >>=-eq-ok (silent w (Mongo.inspect w)) _ s h in
        let found = inspect-IsInspected w s.env snapshot inspected in
        IsPublished-IsRestorable database tools snapshot _ valid named found.version_named
          found.fcv_named (backup_database-IsPublished w f c database snapshot tools _ h1)

    -- After a run of Backup without an error, the store has taken, for each of the databases that
    -- were selected, a body that carries a finished bundle, and a restore of this database accepts the
    -- bundle, if its archive comes back as it was written. JSON must read back what is valid, the
    -- mode must be valid UTF-8, and the clock must not go back while a bundle is collected.
    pub backup-IsRestorable :
        (r : Run w)
        → (backup w f c r).0 ≡ ok tt
        → (names : List Bytes) × (before : Run w) × ((databases w f c before).0 ≡ ok names)
          × All IsRestorable names
    backup-IsRestorable r h =
        let done = backup-IsCompleted w f c r h in
        (
          done.names,
          done.before,
          done.selected,
          All-map
              (λ name. (utf8_valid name ≡ true) × IsBackedUp w f c (backup w f c r).1.trace name)
              IsRestorable (λ database b. Succeeded-IsRestorable database b.0 b.1.2) done.names
              (All-and _ _ done.names (databases-utf8 done.before done.names done.selected)
                done.done),
        )
