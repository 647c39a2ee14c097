-- ===== src/Extract/Inside.antt =====
-- internal/backup/bundle.go, extractConfiguration: what is written, and where.
use mathlib.Core.List.{Memᴰ}
use mongodb_backup_s.Base.{
  ◌≡◌, refl, inl, inr, true, not, List, [], ◌∷◌, Bytes, if◌then◌else◌, is_empty, All, All-map,
  arith, Bool-cases, split, ok, fail_if, extract_no_output, config_member_invalid,
}
use mongodb_backup_s.Config.{Config}
use mongodb_backup_s.Members.{safe_member, join_path}
use mongodb_backup_s.Members.Normal.{IsNormal, safe_member-IsNormal}
use mongodb_backup_s.Bundle.{Formats}
use mongodb_backup_s.World.{World, ZipFile, lift, lift-fail_if-eq-ok, check_ctx}
use mongodb_backup_s.Trace.{Event, written, write_failed, moved, Run, silent}
use mongodb_backup_s.Trace.Extends.{
  Adds, >>=-Adds, >>-Adds, silent-Adds, lift-Adds, write_file-Adds, move-Adds,
}
use mongodb_backup_s.RestoreArgs.{validate_restore}
use mongodb_backup_s.Restore.{unit_of, with_bundle}
use mongodb_backup_s.Restore.Bundles.{defer-Adds, with_runner-Adds, with_bundle-Adds}
use mongodb_backup_s.Extract.{
  directory, is_config_member, copy_member, extract_member, extract_members, fill_stage,
  check_absent, extract_configuration, extract_config,
}

check_absent-eq-ok :
    (w : World) (path : Bytes) (s : w.State)
    → (check_absent w path s).0 ≡ ok tt
    → w.is_absent path s ≡ true
unfolding check_absent
check_absent-eq-ok w path s h = ground (arith, h)

module _ (w : World) (dest : Bytes) (archive : List ZipFile) (s : w.State) where
  -- The state in which the path of the destination has been found.
  abbrev pub resolved_state : w.State
  resolved_state = (w.absolute dest s).1

  -- The new directory that the extraction makes beside the destination.
  pub record IsStage (path stage : Bytes) : Type 0 where
    pub resolved : (w.absolute dest s).0 ≡ ok path
    pub absent : w.is_absent path resolved_state ≡ true
    pub staged : (w.make_temp (directory path) resolved_state).0 ≡ ok stage

  -- A file of the configuration at its own path in this directory.
  pub record IsPlaced (target : Bytes) (member : ZipFile) : Type 0 where
    pub listed : Memᴰ member archive
    pub config : is_config_member member.name ≡ true
    pub path : Bytes
    pub stage : Bytes
    pub is_stage : IsStage path stage
    pub place : target ≡ join_path stage member.name
    pub inside : All IsNormal (split member.name b'/')

  -- The events of an extraction.
  unfoldable pub Extracts : Event → Type 0
  Extracts (written target contents) =
      (member : ZipFile) × IsPlaced target member × (member.read ≡ ok contents)
  Extracts (write_failed target) = (member : ZipFile) × IsPlaced target member
  Extracts (moved from to) = IsStage to from
  Extracts _ = ⊥

module _ (w : World) (dest : Bytes) (archive : List ZipFile) (s : w.State) where
  abbrev Ours : Event → Type 0
  Ours = Extracts w dest archive s

  module _ (path stage : Bytes) (is_stage : IsStage w dest archive s path stage) where
    extract_member-Adds :
        (z : ZipFile) (r : Run w)
        → Memᴰ z archive
        → is_config_member z.name ≡ true
        → Adds w Ours (extract_member w stage z) r
    unfolding extract_member copy_member Extracts
    extract_member-Adds z r listed config =
        let guard = fail_if (not (safe_member z.name)) config_member_invalid in
        let target = join_path stage z.name in
        let s1 : Run w = (lift guard r).1 in
        let s2 : Run w = (silent w (w.make_dirs (directory target)) s1).1 in
        let s3 : Run w = (lift z.opens s2).1 in
        let s4 : Run w = (silent w (w.create target) s3).1 in
        >>-Adds w Ours (lift guard) _ r (lift-Adds w Ours guard r) λ safe.
          let member_safe : safe_member z.name ≡ true =
            ground
              (arith, lift-fail_if-eq-ok (not (safe_member z.name)) config_member_invalid r safe) in
          let placed : IsPlaced w dest archive s target z = record {
            listed = listed;
            config = config;
            path = path;
            stage = stage;
            is_stage = is_stage;
            place = refl;
            inside = safe_member-IsNormal z.name member_safe;
          } in
          >>-Adds w Ours (silent w (w.make_dirs (directory target))) _ s1
            (silent-Adds w Ours (w.make_dirs (directory target)) s1)
            λ _. >>-Adds w Ours (lift z.opens) _ s2 (lift-Adds w Ours z.opens s2) λ _.
              >>-Adds w Ours (silent w (w.create target)) _ s3
                (silent-Adds w Ours (w.create target) s3)
                λ _. write_file-Adds w Ours target z.read s4 (λ whole e. (z, placed, e)) (z, placed)

    extract_members-Adds :
        (zs : List ZipFile) (r : Run w)
        → ((z : ZipFile) → Memᴰ z zs → Memᴰ z archive)
        → Adds w Ours (extract_members w stage zs) r
    unfolding extract_members
    extract_members-Adds [] r sub = lift-Adds w Ours (ok tt) r
    extract_members-Adds (z ∷ zs) r sub =
        >>-Adds w Ours (if is_config_member z.name then extract_member w stage z else lift (ok tt))
          _ r
          (elim (Bool-cases (is_config_member z.name)) [
            | inl e ↦ rw e (extract_member-Adds z r (sub z (Memᴰ.head refl)) e)
            | inr e ↦ rw e (lift-Adds w Ours (ok tt) r)
          ])
          λ _. extract_members-Adds zs _ (λ x l. sub x (Memᴰ.tail l))

    fill_stage-Adds : (r : Run w) → Adds w Ours (fill_stage w path archive stage) r
    unfolding fill_stage Extracts
    fill_stage-Adds r =
        >>-Adds w Ours (extract_members w stage archive) _ r
          (extract_members-Adds archive r λ z l. l)
          λ _.
            >>-Adds w Ours (silent w (check_ctx w)) _ _ (silent-Adds w Ours (check_ctx w) _)
              λ _. move-Adds w Ours stage path _ is_stage

module _ (w : World) (f : Formats) (c : Config) (dest : Bytes) where
  pub extract_configuration-Extracts :
      (archive : List ZipFile) (r : Run w)
      → Adds w (Extracts w dest archive r.env) (extract_configuration w f c archive dest) r
  unfolding extract_configuration silent check_absent
  extract_configuration-Extracts archive r =
      let P = Extracts w dest archive r.env in
      >>=-Adds w P (silent w (w.absolute dest)) _ r (silent-Adds w P (w.absolute dest) r)
        λ path resolved.
          let s1 : Run w = (silent w (w.absolute dest) r).1 in
          >>-Adds w P (silent w (check_absent w path)) _ s1
            (silent-Adds w P (check_absent w path) s1)
            λ free.
              >>=-Adds w P (silent w (w.make_temp (directory path))) _ s1
                (silent-Adds w P (w.make_temp (directory path)) s1)
                λ dir staged.
                  defer-Adds w P f c (λ s. (w.remove_all dir s).1) (fill_stage w path archive dir) _
                    (fill_stage-Adds w dest archive r.env path dir
                      (record {
                        resolved = resolved;
                        absent = check_absent-eq-ok w path s1.env free;
                        staged = staged;
                      })
                      _)

  -- What holds of the events of each extraction holds of those of the command.
  pub extract_config-Adds :
      (P : Event → Type 0)
      → ((archive : List ZipFile) (s : w.State) (e : Event) → Extracts w dest archive s e → P e)
      → (args : List Bytes) (r : Run w) → Adds w P (extract_config w f c dest args) r
  unfolding extract_config
  extract_config-Adds P sub args r =
      let named = fail_if (is_empty dest) extract_no_output in
      let s1 : Run w = (lift named r).1 in
      let s2 : Run w = (lift (unit_of (validate_restore c args)) s1).1 in
      >>-Adds w P (lift named) _ r (lift-Adds w P named r) λ _.
        >>-Adds w P (lift (unit_of (validate_restore c args))) _ s1
          (lift-Adds w P (unit_of (validate_restore c args)) s1)
          λ _.
            with_runner-Adds w P f c
              (with_bundle w f c args (λ zs m. extract_configuration w f c zs dest)) s2
              λ s.
                with_bundle-Adds w P f c args (λ zs m. extract_configuration w f c zs dest) s
                  λ zs m t accepted.
                    let (es, eq, all) = extract_configuration-Extracts zs t in
                    (es, eq, All-map _ P (sub zs t.env) es all)
