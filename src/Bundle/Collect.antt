-- ===== src/Bundle/Collect.antt =====
-- internal/backup/bundle.go: what the parts of a bundle come to when writeBundle has collected them all.
use mongodb_backup_s.Base.{
  codes, ℕ, ◌+◌, ◌≡◌, refl, sym, ◌∙◌, ap, subst, Bool, true, false, ◌||◌, not, List, [], ◌∷◌, ◌++◌,
  map, Bytes, ltb, if◌then◌else◌, is_empty, str_eq, str_eq_refl, length, has_prefix, cut_prefix,
  has_prefix-append, arith, Bool-cases, inl, inr, ok-injective, ok,
}
use mongodb_backup_s.Config.{Config, per_database}
use mongodb_backup_s.Members.{
  safe_member, allowed_member, manifest_json, replica_set_json, data_archive, auth_archive,
  config_directory,
}
use mongodb_backup_s.World.{
  ZipFile, FileInfo, World, Snapshot, Action, lift, check_ctx, run_tool, >>=-eq-ok, >>-eq-ok,
}
use mongodb_backup_s.Capture.{Reading}
use mongodb_backup_s.Capture.Directory.{capture_config}
use mongodb_backup_s.Capture.Taken.{Takes, opened_state}
use mongodb_backup_s.Capture.Captured.{capture_config-Captured}
use mongodb_backup_s.Bundle.{find_record, Formats, IsDistinctFiles}
use mongodb_backup_s.Bundle.Write.{
  Builder, empty, has_file, put, add_with, add, add_reading, add_auth, collect, dump_args,
}
use mongodb_backup_s.Bundle.Validate.{has_member, check_members, count_configs}
use mongodb_backup_s.Bundle.Added.{add_with-IsAdded}
use mongodb_backup_s.Bundle.Good.{IsGood, stored, put-IsGood, has_member-put, map-append_one}

abbrev pub has : Builder → Bytes → Bool
has b name = has_member (map stored b.members) name

abbrev pub configs : Builder → ℕ
configs b = count_configs (map stored b.members)

pub count_configs-append :
    (zs : List ZipFile) (z : ZipFile)
    → count_configs (zs ++ (z ∷ []))
      ≡ count_configs zs + (if has_prefix z.name config_directory then 1 else 0)
unfolding count_configs
count_configs-append [] z = ground arith
count_configs-append (y ∷ zs) z = ground (arith, count_configs-append zs z)

configs-put :
    (f : Formats) (b : Builder) (name contents : Bytes)
    → configs (put f b name contents)
      ≡ configs b + (if has_prefix name config_directory then 1 else 0)
unfolding put
configs-put f b name contents =
    rw (map-append_one b.members (record { name = name; contents = contents }))
      (count_configs-append (map stored b.members) _)

configs-other :
    (f : Formats) (b : Builder) (name contents : Bytes)
    → has_prefix name config_directory ≡ false
    → configs (put f b name contents) ≡ configs b
configs-other f b name contents h = rw (configs-put f b name contents, h) (omega arith)

not_config :
    (has_prefix replica_set_json config_directory ≡ false)
    × (has_prefix data_archive config_directory ≡ false)
    × (has_prefix auth_archive config_directory ≡ false)
unfolding has_prefix cut_prefix
not_config = (refl, refl, refl)

module _ (w : World) (f : Formats) where
  -- A part that has been added: the checks of `add` have passed, and it stands behind the others.
  add_with-eq-ok :
      {A : Type 0} (of : A → Bytes) (b : Builder) (name : Bytes) (produce : Action w.State A)
      (s : w.State) (b' : Builder) (a : A)
      → IsGood f b
      → (add_with w f of b name produce s).0 ≡ ok (b', a)
      → (b' ≡ put f b name (of a)) × IsGood f b'
  add_with-eq-ok of b name produce s b' a good h =
      let added = add_with-IsAdded w f of b name produce s b' a h in
      let bad = not (safe_member name) || not (allowed_member name) || str_eq name manifest_json in
      let fine : bad ≡ false = added.fine in
      (
        added.put_behind,
        subst (IsGood f) (sym added.put_behind) (
            put-IsGood f b name (of a) good (ground arith) (ground arith) (ground arith) added.new),
      )

  add-eq-ok :
      (b : Builder) (name : Bytes) (produce : Action w.State Bytes) (s : w.State) (b' : Builder)
      → IsGood f b
      → (add w f b name produce s).0 ≡ ok b'
      → (contents : Bytes) × (b' ≡ put f b name contents) × IsGood f b'
  unfolding add lift
  add-eq-ok b name produce s b' good h =
      let ((b1, contents), e, h1) = >>=-eq-ok (add_with w f (λ x. x) b name produce) _ s h in
      let (eq, fine) = add_with-eq-ok (λ x. x) b name produce s b1 contents good e in
      subst (λ b'. (contents : Bytes) × (b' ≡ put f b name contents) × IsGood f b')
        (ok-injective h1) (contents, eq, fine)

  empty-IsGood : IsGood f empty
  unfolding has_file find_record has_member check_members IsDistinctFiles
  empty-IsGood = record {
    checked = refl;
    agree = λ name. refl;
    records = tt;
    counted = refl;
    proper = tt;
    names = tt;
    sums = tt;
    distinct = tt;
  }

  -- The parts before the authentication archive.
  record Parts (b : Builder) : Type 0 where
    good : IsGood f b
    replica : has b replica_set_json ≡ true
    auth : has b auth_archive ≡ false

  config_name : (name : Bytes) → str_eq (config_directory ++ name) auth_archive ≡ false
  unfolding str_eq
  config_name name = refl

  Takes-Parts :
      (files : List (Bytes × FileInfo)) (readings : List Reading) (b b' : Builder) (s : w.State)
      → Parts b
      → Takes w (add_reading w f) files readings b b' s
      → Parts b' × (configs b' ≡ configs b + length files)
  unfolding Takes add_reading
  Takes-Parts [] [] b b' s p taken =
      subst (λ x. Parts x × (configs x ≡ configs b + 0)) taken (p, omega arith)
  Takes-Parts [] (_ ∷ _) b b' s p taken = elim taken [ ]
  Takes-Parts (_ ∷ _) [] b b' s p taken = elim taken [ ]
  Takes-Parts ((n, info) ∷ files) (r ∷ readings) b b' s p (b1, took, taken) =
      let name = config_directory ++ n in
      let (eq, good) =
        add_with-eq-ok (λ (r : Reading). r.contents) b name _ (opened_state w n took.file s) b1 r
          p.good took.added in
      let parts : Parts b1 = record {
        good = good;
        replica = rw (eq, has_member-put f b name r.contents replica_set_json, p.replica) refl;
        auth = rw (eq, has_member-put f b name r.contents auth_archive, p.auth) (config_name n);
      } in
      let one : configs b1 ≡ configs b + 1 =
        rw (eq, configs-put f b name r.contents, has_prefix-append config_directory n) refl in
      let (rest, more) = Takes-Parts files readings b1 b' _ parts taken in
      (rest, omega (arith, one, more))

  -- All parts: the archive of users goes along just in the per-database mode, and there are files
  -- of the configuration just if a directory is configured.
  pub record IsComplete (c : Config) (b : Builder) : Type 0 where
    pub good : IsGood f b
    pub replica : has b replica_set_json ≡ true
    pub data_member : has b data_archive ≡ true
    pub auth : has b auth_archive ≡ str_eq c.backup_mode per_database
    pub configured : ltb 0 (configs b) ≡ not (is_empty c.config_dir)

  capture_config-eq-ok :
      (dir : Bytes) (b : Builder) (s : w.State) (b' : Builder)
      → Parts b
      → configs b ≡ 0
      → (capture_config w f.sha256 dir (add_reading w f) b s).0 ≡ ok b'
      → Parts b' × (ltb 0 (configs b') ≡ not (is_empty dir))
  unfolding capture_config lift
  capture_config-eq-ok [] b s b' p zero_configs h =
      let (_, h1) = >>-eq-ok (check_ctx w) _ s h in
      subst (λ x. Parts x × (ltb 0 (configs x) ≡ false)) (ok-injective h1) (p, rw zero_configs)
  capture_config-eq-ok (d ∷ dir) b s b' p zero_configs h =
      let c = capture_config-Captured w f.sha256 (add_reading w f) (d ∷ dir) b s b' refl h in
      let (parts, more) = Takes-Parts c.found.files c.readings b b' _ p c.takes in
      (parts, positive c.found.files c.has_files more)
    where
      positive :
          (files : List (Bytes × FileInfo))
          → is_empty files ≡ false
          → configs b' ≡ configs b + length files
          → ltb 0 (configs b') ≡ true
      positive [] none_left more = cc
      positive (n ∷ files) none_left more = ground arith

  add_auth-eq-ok :
      (c : Config) (database : Bytes) (b : Builder) (s : w.State) (b' : Builder)
      → Parts b
      → has b data_archive ≡ true
      → ltb 0 (configs b) ≡ not (is_empty c.config_dir)
      → (add_auth w f c database b s).0 ≡ ok b'
      → IsComplete c b'
  unfolding add_auth lift
  add_auth-eq-ok c database b s b' p found configured h =
      elim (Bool-cases (str_eq c.backup_mode per_database)) [
        | inr e ↦ subst (IsComplete c) (ok-injective (rw e at h)) (record {
          good = p.good;
          replica = p.replica;
          data_member = found;
          auth = p.auth ∙ sym e;
          configured = configured;
        })
        | inl e ↦
            let (contents, eq, good) = add-eq-ok b auth_archive _ s b' p.good (rw e at h) in
            record {
              good = good;
              replica =
                  rw (eq, has_member-put f b auth_archive contents replica_set_json, p.replica)
                    refl;
              data_member =
                  rw (eq, has_member-put f b auth_archive contents data_archive, found) refl;
              auth =
                  rw (eq, has_member-put f b auth_archive contents auth_archive, e, p.auth)
                    (str_eq_refl auth_archive);
              configured =
                  ap (ltb 0) (ap configs eq ∙ configs-other f b auth_archive contents not_config.2)
                  ∙ configured;
            }
      ]

  pub collect-IsComplete :
      (c : Config) (database : Bytes) (snapshot : Snapshot) (s : w.State) (b : Builder)
      → (collect w f c database snapshot s).0 ≡ ok b
      → IsComplete c b
  unfolding collect str_eq has_member count_configs
  collect-IsComplete c database snapshot s b h =
      let (b1, e1, h1) =
        >>=-eq-ok (add w f empty replica_set_json (lift (ok snapshot.replica_set))) _ s h in
      let (x1, eq1, good1) = add-eq-ok empty replica_set_json _ s b1 empty-IsGood e1 in
      let parts1 : Parts b1 = record {
        good = good1;
        replica = rw (eq1, has_member-put f empty replica_set_json x1 replica_set_json) refl;
        auth = rw (eq1, has_member-put f empty replica_set_json x1 auth_archive) refl;
      } in
      let (b2, e2, h2) =
        >>=-eq-ok (capture_config w f.sha256 c.config_dir (add_reading w f) b1) _ _ h1 in
      let (parts2, configured2) =
        capture_config-eq-ok c.config_dir b1 _ b2 parts1
          (ap configs eq1 ∙ configs-other f empty replica_set_json x1 not_config.0) e2 in
      let dump = run_tool w (codes "mongodump") (dump_args c database false) in
      let (b3, e3, h3) = >>=-eq-ok (add w f b2 data_archive dump) _ _ h2 in
      let (x3, eq3, good3) = add-eq-ok b2 data_archive dump _ b3 parts2.good e3 in
      let parts3 : Parts b3 = record {
        good = good3;
        replica =
            rw (eq3, has_member-put f b2 data_archive x3 replica_set_json, parts2.replica) refl;
        auth = rw (eq3, has_member-put f b2 data_archive x3 auth_archive, parts2.auth) refl;
      } in
      let found : has b3 data_archive ≡ true =
        rw (eq3, has_member-put f b2 data_archive x3 data_archive)
          (or_true (has b2 data_archive)) in
      add_auth-eq-ok c database b3 _ b parts3 found
        (ap (ltb 0) (ap configs eq3 ∙ configs-other f b2 data_archive x3 not_config.1)
          ∙ configured2)
        h3
    where
      or_true : (x : Bool) → (x || true) ≡ true
      or_true x = ground arith
