-- ===== src/Bundle/RoundTrip.antt =====
-- internal/backup/bundle.go: writeBundle against validateBundle.
use mongodb_backup_s.Base.{
  suc, ◌-◌, ◌<◌, ◌≤◌, ◌≡◌, refl, ◌∙◌, ap, subst, Bool, true, false, ◌&&◌, not, List, [], ◌∷◌, ◌++◌,
  map, some, Bytes, ltb, same, is_empty, str_eq, str_eq_refl, str_eq→eq, length, length-append,
  has_prefix, cut_prefix, All, All-map, utf8_valid, arith, Bool-cases, inl, inr, ok-injective,
  server_changed, manifest_too_large, ok, fail_if,
}
use native.Mathlib.Nat.{add-zero}
use mongodb_backup_s.Clock.{Instant}
use mongodb_backup_s.Config.{Config, full, per_database}
use mongodb_backup_s.Members.{
  safe_member, allowed_member, manifest_json, replica_set_json, data_archive, auth_archive,
}
use mongodb_backup_s.Mongo
use mongodb_backup_s.World.{
  ZipFile, World, Member, Snapshot, lift, check_ctx, >>=-eq-ok, >>-eq-ok, lift-fail_if-eq-ok,
}
use mongodb_backup_s.Bundle.{
  FileRecord, Manifest, Formats, IsLawful, IsInventory, IsSameInventory, reread, find_record,
  manifest_limit,
}
use mongodb_backup_s.Bundle.Write.{
  Builder, record_of, collect, write_bundle, same_snapshot, now, manifest_of, close,
}
use mongodb_backup_s.Bundle.Validate.{
  find_file, has_member, check_members, check_manifest, check_files, check_member, check_contents,
  count_configs, read_manifest, validate_bundle, decoded,
}
use mongodb_backup_s.Bundle.Good.{
  IsGood, stored, has_member-append, has_member-nil, has_member-cons, check_members-append,
  map-append_one,
}
use mongodb_backup_s.Bundle.Collect.{IsComplete, collect-IsComplete, count_configs-append}

manifest_is_safe : (safe_member manifest_json ≡ true) × (allowed_member manifest_json ≡ true)
unfolding safe_member allowed_member cut_prefix
manifest_is_safe = (refl, refl)

no_manifest :
    (ms : List Member)
    → All (λ m. str_eq m.name manifest_json ≡ false) ms
    → has_member (map stored ms) manifest_json ≡ false
unfolding has_member
no_manifest [] h = refl
no_manifest (m ∷ ms) (e, h) = ground (arith, no_manifest ms h)

find_file-append :
    (zs : List ZipFile) (z : ZipFile)
    → has_member zs z.name ≡ false
    → find_file z.name (zs ++ (z ∷ [])) ≡ some z
unfolding has_member
find_file-append [] z h = ground (arith, str_eq_refl z.name)
find_file-append (y ∷ zs) z h = ground (arith, find_file-append zs z)

-- A member passes against the record that was made of it.
check_member-stored :
    (f : Formats) (p : Member) → check_member f (some (record_of f p.contents)) (stored p) ≡ ok tt
unfolding check_member check_contents record_of
check_member-stored f p = ground (arith, str_eq_refl (f.sha256_hex p.contents))

-- The last loop of a reader over the parts and the manifest.
check_files-stored :
    (f : Formats) (m : Manifest) (ms : List Member) (last : Member)
    → All (λ p. str_eq p.name manifest_json ≡ false) ms
    → All (λ p. find_record p.name m.files ≡ some (record_of f p.contents)) ms
    → str_eq last.name manifest_json ≡ true
    → check_files f m (map stored ms ++ (stored last ∷ [])) ≡ ok tt
unfolding check_files
check_files-stored f m [] last proper records e = rw e
check_files-stored f m (p ∷ ms) last (other, proper) (r, records) e =
    rw (other, r, check_member-stored f p) (check_files-stored f m ms last proper records e)

not_both : (mode : Bytes) → (str_eq mode full && str_eq mode per_database) ≡ false
unfolding str_eq
not_both mode = elim (Bool-cases (str_eq mode full)) [
  | inl e ↦ rw (str_eq→eq mode full e) refl
  | inr e ↦ rw e refl
]

-- A reader that finds nothing wrong.
validated :
    (f : Formats) (r : Config) (zs : List ZipFile) (m : Manifest)
    → check_members [] zs ≡ ok tt
    → read_manifest f (find_file manifest_json zs) ≡ ok m
    → check_manifest r zs m ≡ ok tt
    → check_files f m zs ≡ ok tt
    → same m.config_included (ltb 0 (count_configs zs)) ≡ true
    → validate_bundle f r zs ≡ ok m
unfolding validate_bundle
validated f r zs m e1 e2 e3 e4 e5 = rw (e1, e2, e3, e4, e5) refl

read_manifest-stored :
    (f : Formats) (m : Manifest) (manifest : Bytes)
    → f.from_json manifest ≡ some m
    → ltb manifest_limit (length manifest) ≡ false
    → read_manifest f (some (stored (record { name = manifest_json; contents = manifest }))) ≡ ok m
unfolding read_manifest decoded
read_manifest-stored f m manifest back small = rw small (rw (back, decoded) refl)

-- The files of a good collection are an inventory, since hexadecimal is valid UTF-8.
IsGood-IsInventory : (f : Formats) (b : Builder) → IsLawful f → IsGood f b → IsInventory b.files
unfolding record_of
IsGood-IsInventory f b law good = record {
  names = good.names;
  sums =
      All-map _ (λ e. utf8_valid e.1.sha256 ≡ true) (λ e made. rw made.1 (law.hex_valid made.0))
        b.files good.sums;
  distinct = good.distinct;
}

abbrev manifest_file : Bytes → ZipFile
manifest_file contents = stored (record { name = manifest_json; contents = contents })

-- The manifest behind the parts hides none of them, and is no file of the configuration.
behind_manifest :
    (zs : List ZipFile) (contents name : Bytes)
    → str_eq manifest_json name ≡ false
    → has_member (zs ++ (manifest_file contents ∷ [])) name ≡ has_member zs name
behind_manifest zs contents name h =
    rw has_member-append
      (ground (arith, has_member-cons (manifest_file contents) [] name, has_member-nil name))

other_names :
    (str_eq manifest_json data_archive ≡ false)
    × (str_eq manifest_json replica_set_json ≡ false)
    × (str_eq manifest_json auth_archive ≡ false)
unfolding str_eq
other_names = (refl, refl, refl)

configs_with_manifest :
    (zs : List ZipFile) (contents : Bytes)
    → count_configs (zs ++ (manifest_file contents ∷ [])) ≡ count_configs zs
unfolding has_prefix cut_prefix
configs_with_manifest zs contents =
    count_configs-append zs (manifest_file contents) ∙ add-zero (count_configs zs)

length-stored : (ms : List Member) → length (map stored ms) ≡ length ms
length-stored [] = refl
length-stored (m ∷ ms) = ap suc (length-stored ms)

same_refl : (b : Bool) → same b b ≡ true
same_refl b = ground arith

module _ (w : World) (f : Formats) (c r : Config) (database : Bytes) (snapshot : Snapshot)
    (tools : Bytes) (started : Instant) where
  -- A configuration for the restore of this backup.
  abbrev pub Matches : Type 0
  Matches = (r.backup_mode ≡ c.backup_mode) × (r.database ≡ database)

  -- The time at which writeBundle looks at the clock, behind the last look at the server.
  abbrev pub completed_at : w.State → Instant
  completed_at s = w.now (Mongo.inspect w (collect w f c database snapshot s).1).1

  -- What the callers of writeBundle have made sure of.
  pub record IsReady (s : w.State) : Type 0 where
    pub mode_valid : utf8_valid c.backup_mode ≡ true
    pub database_valid : utf8_valid database ≡ true
    pub server_version : is_empty snapshot.server_version ≡ false
    pub fcv : is_empty snapshot.fcv ≡ false
    pub tools_version : is_empty tools ≡ false
    pub dated : 0 < started
    pub clock : started ≤ completed_at s

  -- A bundle that a restore accepts, with the manifest of the parts that this run has collected.
  pub record IsAccepted (s : w.State) (members : List Member) : Type 0 where
    pub parts : Builder
    pub collected : (collect w f c database snapshot s).0 ≡ ok parts
    pub files : List (Bytes × FileRecord)
    pub same_files : IsSameInventory files parts.files
    pub accepted :
        validate_bundle f r (map stored members)
        ≡ ok (reread f (manifest_of c database snapshot tools started (completed_at s) parts) files)

  check_manifest-written :
      (s : w.State) (b : Builder) (files : List (Bytes × FileRecord)) (zs : List ZipFile)
      → IsLawful f
      → Matches
      → IsReady s
      → has_member zs data_archive ≡ true
      → has_member zs replica_set_json ≡ true
      → has_member zs auth_archive ≡ str_eq c.backup_mode per_database
      → length files ≡ length zs - 1
      → check_manifest r zs
          (reread f (manifest_of c database snapshot tools started (completed_at s) b) files)
        ≡ ok tt
  unfolding check_manifest manifest_of
  check_manifest-written s b files zs law matches ready data_member replica auth counted =
      rw
        (
          matches.0,
          matches.1,
          law.valid c.backup_mode ready.mode_valid,
          law.valid database ready.database_valid,
          law.replaced_empty snapshot.server_version,
          law.replaced_empty snapshot.fcv,
          law.replaced_empty tools,
          str_eq_refl c.backup_mode,
          str_eq_refl database,
          same_refl (str_eq c.backup_mode full),
          data_member,
          replica,
          auth,
        )
        (ground (
          arith,
          ready.server_version,
          ready.fcv,
          ready.tools_version,
          ready.dated,
          ready.clock,
          not_both c.backup_mode,
        ))

  written :
      (s : w.State) (b : Builder) (manifest : Bytes) (files : List (Bytes × FileRecord))
      → IsLawful f
      → Matches
      → IsReady s
      → IsComplete w f c b
      → IsSameInventory files b.files
      → f.from_json manifest
        ≡ some (reread f (manifest_of c database snapshot tools started (completed_at s) b) files)
      → ltb manifest_limit (length manifest) ≡ false
      → validate_bundle f r (map stored (close b manifest))
        ≡ ok (reread f (manifest_of c database snapshot tools started (completed_at s) b) files)
  unfolding close manifest_of
  written s b manifest files law matches ready complete same_files back small =
      let m = reread f (manifest_of c database snapshot tools started (completed_at s) b) files in
      let last : Member = record { name = manifest_json; contents = manifest } in
      let zs = map stored b.members in
      let new = no_manifest b.members complete.good.proper in
      rw (map-append_one b.members last) (
        validated f r (zs ++ (stored last ∷ [])) m
          (check_members-append [] zs (stored last) complete.good.checked manifest_is_safe.0
            manifest_is_safe.1 refl new (has_member-nil manifest_json))
          (ap (read_manifest f) (find_file-append zs (stored last) new)
            ∙ read_manifest-stored f m manifest back small)
          (check_manifest-written s b files (zs ++ (stored last ∷ [])) law matches ready
            (behind_manifest zs manifest data_archive other_names.0 ∙ complete.data_member)
            (behind_manifest zs manifest replica_set_json other_names.1 ∙ complete.replica)
            (behind_manifest zs manifest auth_archive other_names.2 ∙ complete.auth)
            (omega (
              arith,
              same_files.counted,
              complete.good.counted,
              length-stored b.members,
              length-append zs (stored last ∷ []),
            )))
          (check_files-stored f m b.members last complete.good.proper
            (All-map _ _ (λ p e. same_files.found p.name ∙ e) b.members complete.good.records)
            (str_eq_refl manifest_json))
          (rw (configs_with_manifest zs manifest, complete.configured)
            (same_refl (not (is_empty c.config_dir)))))

  -- What writeBundle finishes, and its archive brings back unharmed, validateBundle accepts for a
  -- restore of the same mode and database, and it returns the manifest of the parts that this run
  -- has collected, with the time after its last look at the server; only the order of the files, as
  -- of a map, and bytes of the versions that are not UTF-8 may differ. JSON must read back what is
  -- valid, the mode and the database must be valid UTF-8, the versions must be known, and the clock
  -- must stand at the start of the backup or later, which is not the zero time.
  pub validate_bundle-write_bundle :
      (s : w.State) (members : List Member)
      → IsLawful f
      → Matches
      → IsReady s
      → (write_bundle w f c database snapshot tools started s).0 ≡ ok members
      → IsAccepted s members
  unfolding write_bundle now lift manifest_of
  validate_bundle-write_bundle s members law matches ready h =
      let (b, e1, h1) = >>=-eq-ok (collect w f c database snapshot) _ s h in
      let s1 = (collect w f c database snapshot s).1 in
      let (after, e2, h2) = >>=-eq-ok (Mongo.inspect w) _ s1 h1 in
      let s2 = ((Mongo.inspect w) s1).1 in
      let (e3, h3) =
        >>-eq-ok (lift (fail_if (not (same_snapshot snapshot after)) server_changed)) _ s2 h2 in
      let (completed, e4, h4) = >>=-eq-ok (now w) _ s2 h3 in
      let json =
        lift {S = w.State}
          (f.to_json (manifest_of c database snapshot tools started completed b)) in
      let (manifest, e5, h5) = >>=-eq-ok json _ s2 h4 in
      let (e6, h6) =
        >>-eq-ok (lift (fail_if (ltb manifest_limit (length manifest)) manifest_too_large)) _ s2
          h5 in
      let (e7, h7) = >>-eq-ok (check_ctx w) _ s2 h6 in
      let small =
        lift-fail_if-eq-ok (ltb manifest_limit (length manifest)) manifest_too_large s2 e6 in
      let complete = collect-IsComplete w f c database snapshot s b e1 in
      let m = manifest_of c database snapshot tools started (completed_at s) b in
      let (files, same_files, back) =
        law.from_json-to_json m manifest (IsGood-IsInventory f b law complete.good) (
          ap (λ t. f.to_json (manifest_of c database snapshot tools started t b)) (ok-injective e4)
          ∙ e5) in
      record {
        parts = b;
        collected = e1;
        files = files;
        same_files = same_files;
        accepted =
            subst (λ ms. validate_bundle f r (map stored ms) ≡ ok (reread f m files))
              (ok-injective h7)
              (written s b manifest files law matches ready complete same_files back small);
      }
