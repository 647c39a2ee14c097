-- ===== src/Restore/Bundles.antt =====
-- internal/backup/restore.go: the events of withBundle and of what it stands in.
use mongodb_backup_s.Base.{
  ◌≡◌, not, List, [], ◌++◌, Bytes, codes, str_eq, is_empty, Bool-cases, inl, inr, ok,
}
use mongodb_backup_s.Config.{Config, fixed}
use mongodb_backup_s.Members.{join_path}
use mongodb_backup_s.Bundle.{Manifest, Formats}
use mongodb_backup_s.Bundle.Validate.{validate_bundle}
use mongodb_backup_s.Keys.{timestamp_prefix, file_type}
use mongodb_backup_s.World.{World, ZipFile, Action, lift}
use mongodb_backup_s.Trace.{Event, Run, silent}
use mongodb_backup_s.Trace.Extends.{Adds, >>=-Adds, >>-Adds, silent-Adds, lift-Adds}
use mongodb_backup_s.Retention.{timestamp_backups}
use mongodb_backup_s.RestoreArgs.{validate_restore}
use mongodb_backup_s.Backup.{attempt, join, defer, with_runner}
use mongodb_backup_s.Backup.Database.{attempt-Adds}
use mongodb_backup_s.Restore.{
  choose_by, choose_key, with_workspace, decrypt, open_bundle, checked, in_workspace, with_bundle,
}

module _ (w : World) (P : Event → Type 0) where
  module _ (f : Formats) (c : Config) where
    pub defer-Adds :
        {A : Type 0} (cleanup : w.State → w.State) (m : Action (Run w) A) (r : Run w)
        → Adds w P m r
        → Adds w P (defer w f c cleanup m) r
    unfolding defer
    defer-Adds cleanup m r h = h

    pub with_runner-Adds :
        (action : Action (Run w) (Unit {0})) (r : Run w)
        → ((s : Run w) → Adds w P action s)
        → Adds w P (with_runner w f c action) r
    unfolding with_runner
    with_runner-Adds action r h =
        >>-Adds w P (silent w w.prepare) _ r (silent-Adds w P w.prepare r) λ _.
          >>=-Adds w P (attempt action) _ _ (attempt-Adds w P action _ (h _)) λ result _.
            >>=-Adds w P (attempt (silent w w.clean_up)) _ _
              (attempt-Adds w P (silent w w.clean_up) _ (silent-Adds w P w.clean_up _))
              λ removed _. lift-Adds w P (join result removed) _

    with_workspace-Adds :
        (action : Bytes → Action (Run w) (Unit {0})) (r : Run w)
        → ((dir : Bytes) (s : Run w) → Adds w P (action dir) s)
        → Adds w P (with_workspace w f c action) r
    unfolding with_workspace
    with_workspace-Adds action r h =
        >>=-Adds w P (silent w (w.make_temp [])) _ r (silent-Adds w P (w.make_temp []) r) λ dir _.
          >>=-Adds w P (attempt (action dir)) _ _ (attempt-Adds w P (action dir) _ (h dir _))
            λ result _.
              >>=-Adds w P (attempt (silent w (w.remove_all dir))) _ _
                (attempt-Adds w P (silent w (w.remove_all dir)) _
                  (silent-Adds w P (w.remove_all dir) _))
                λ removed _. lift-Adds w P (join result removed) _

    choose_by-Adds : (time : Bytes) (r : Run w) → Adds w P (choose_by w c time) r
    unfolding choose_by timestamp_backups
    choose_by-Adds time r = elim (Bool-cases (str_eq c.filename_mode fixed)) [
      | inl e ↦ rw e (lift-Adds w P _ r)
      | inr e ↦ elim (Bool-cases (not (is_empty time))) [
        | inl t ↦ rw (e, t) (lift-Adds w P _ r)
        | inr t ↦
            rw (e, t)
              (>>=-Adds w P (timestamp_backups w c c.database) _ r
                (>>=-Adds w P (silent w (w.list (timestamp_prefix c c.database))) _ r
                  (silent-Adds w P (w.list (timestamp_prefix c c.database)) r)
                  λ _ _. lift-Adds w P _ _)
                λ objects _. lift-Adds w P _ _)
      ]
    ]

    choose_key-Adds : (args : List Bytes) (r : Run w) → Adds w P (choose_key w c args) r
    unfolding choose_key
    choose_key-Adds args r =
        >>=-Adds w P (lift (validate_restore c args)) _ r
          (lift-Adds w P (validate_restore c args) r)
          λ chosen _.
            >>=-Adds w P (choose_by w c chosen.0) _ _ (choose_by-Adds chosen.0 _)
              λ key _. lift-Adds w P _ _

    checked-Adds :
        (action : List ZipFile → Manifest → Action (Run w) (Unit {0})) (zs : List ZipFile)
        (r : Run w)
        → ((m : Manifest) (s : Run w) → validate_bundle f c zs ≡ ok m → Adds w P (action zs m) s)
        → Adds w P (checked w f c action zs) r
    unfolding checked lift
    checked-Adds action zs r h =
        >>=-Adds w P (lift (validate_bundle f c zs)) _ r (lift-Adds w P (validate_bundle f c zs) r)
          λ m e. h m r e

    -- The action of withBundle is run on accepted bundles alone.
    pub with_bundle-Adds :
        (args : List Bytes) (action : List ZipFile → Manifest → Action (Run w) (Unit {0}))
        (r : Run w)
        → ((zs : List ZipFile) (m : Manifest) (s : Run w)
            → validate_bundle f c zs ≡ ok m
            → Adds w P (action zs m) s)
        → Adds w P (with_bundle w f c args action) r
    unfolding with_bundle in_workspace
    with_bundle-Adds args action r h =
        >>=-Adds w P (choose_key w c args) _ r (choose_key-Adds args r) λ chosen _.
          with_workspace-Adds (in_workspace w f c action chosen.0 chosen.1) _ λ dir s.
            let file = join_path dir (codes "backup" ++ file_type c) in
            >>-Adds w P (silent w (w.download chosen.0 chosen.1 file)) _ s
              (silent-Adds w P (w.download chosen.0 chosen.1 file) s)
              λ _.
                >>=-Adds w P (silent w (decrypt w f c dir file)) _ _
                  (silent-Adds w P (decrypt w f c dir file) _)
                  λ plain _.
                    >>=-Adds w P (silent w (open_bundle w f c plain)) _ _
                      (silent-Adds w P (open_bundle w f c plain) _)
                      λ zs _.
                        defer-Adds w.close_archive (checked w f c action zs) _
                          (checked-Adds action zs _ (h zs))
