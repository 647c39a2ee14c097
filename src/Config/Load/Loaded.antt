-- ===== src/Config/Load/Loaded.antt =====
-- internal/backup/config.go: what holds of every configuration that loadConfig returns.
use mongodb_backup_s.Base.{
  ℕ, ◌*◌, ◌≤◌, ◌≡◌, ◌⊎◌, inl, inr, refl, Bool, true, false, not, [], ◌∷◌, Option, none, some, Bytes,
  codes, is_empty, str_eq, str_eq→eq, subst, ok-injective, Error, parallel_invalid,
  part_size_invalid, contains_any, Bool-cases, arith, Result, ok, fail_if-eq-ok, >>-eq-ok,
  >>=-eq-ok,
}
use mongodb_backup_s.Config.{Config, full, per_database, timestamp, fixed}
use mongodb_backup_s.Config.Uri.{validate_uri}
use mongodb_backup_s.Config.Load.{
  load_config, initial, connection_uri, check_settings, check_uri, finish, is_one_of,
  read_preferences, mebibyte, value_or, need,
}
use mongodb_backup_s.Decimal.{in_range, atoi, ℤ, pos, negsuc}

pub record IsLoaded (c : Config) : Type 0 where
  pub bucket : is_empty c.storage.bucket ≡ false
  pub uri : (c.uri ≡ []) ⊎ (validate_uri c.uri ≡ ok tt)
  pub mode : (c.backup_mode ≡ full) ⊎ (c.backup_mode ≡ per_database)
  pub all : (c.backup_all ≡ codes "true") ⊎ (c.backup_all ≡ codes "false")
  pub filename_mode : (c.filename_mode ≡ timestamp) ⊎ (c.filename_mode ≡ fixed)
  pub passphrase : contains_any c.passphrase (13 ∷ 10 ∷ []) ≡ false
  pub read_preference : is_one_of read_preferences c.read_preference ≡ true
  pub parallel : (1 ≤ c.parallel_collections) × (c.parallel_collections ≤ 128)
  pub part_size :
      (5 * mebibyte ≤ c.storage.upload_part_size_bytes)
      × (c.storage.upload_part_size_bytes ≤ 5 * 1024 * mebibyte)

one_of_two : (a b s : Bytes) → is_one_of (a ∷ b ∷ []) s ≡ true → (s ≡ a) ⊎ (s ≡ b)
unfolding is_one_of
one_of_two a b s h = elim (Bool-cases (str_eq s a)) [
  | inl e ↦ inl (str_eq→eq s a e)
  | inr e ↦ inr (str_eq→eq s b (ground arith))
]

check_uri_sound : (uri : Bytes) → check_uri uri ≡ ok tt → (uri ≡ []) ⊎ (validate_uri uri ≡ ok tt)
unfolding check_uri
check_uri_sound [] h = inl refl
check_uri_sound (c ∷ s) h = inr h

-- What the checks in the middle have passed.
abbrev Checked : Config → Type 0
Checked c =
    (is_empty c.storage.bucket ≡ false)
    × (check_uri c.uri ≡ ok tt)
    × (not (is_one_of (full ∷ per_database ∷ []) c.backup_mode) ≡ false)
    × (not (is_one_of (codes "true" ∷ codes "false" ∷ []) c.backup_all) ≡ false)
    × (not (is_one_of (timestamp ∷ fixed ∷ []) c.filename_mode) ≡ false)
    × (contains_any c.passphrase (13 ∷ 10 ∷ []) ≡ false)
    × (not (is_one_of read_preferences c.read_preference) ≡ false)

check_settings-eq-ok : (c : Config) (drop : Bytes) → check_settings c drop ≡ ok tt → Checked c
unfolding check_settings
check_settings-eq-ok c drop h =
    let (bucket, h1) = fail_if-eq-ok _ _ _ h in
    let (uri, h2) = >>-eq-ok (check_uri c.uri) _ h1 in
    let (mode, h3) = fail_if-eq-ok _ _ _ h2 in
    let (every, h4) = fail_if-eq-ok _ _ _ h3 in
    let (names, h5) = fail_if-eq-ok _ _ _ h4 in
    let (passphrase, h6) = fail_if-eq-ok _ _ _ h5 in
    let (preference, h7) = fail_if-eq-ok _ _ _ h6 in
    (bucket, uri, mode, every, names, passphrase, preference)

not-eq-false : (b : Bool) → not b ≡ false → b ≡ true
not-eq-false b h = ground arith

need-eq-ok :
    (lo hi : ℕ) (e : Error) (o : Option ℤ) {n : ℕ}
    → need e (in_range lo hi o) ≡ ok n
    → (lo ≤ n) × (n ≤ hi)
unfolding need in_range
need-eq-ok lo hi e none h = cc
need-eq-ok lo hi e (some (negsuc k)) h = cc
need-eq-ok lo hi e (some (pos k)) h = ground arith

finish-IsLoaded :
    (c : Config) (drop : Bytes) (p q : Option ℤ) (d : Config)
    → finish c drop p q ≡ ok d
    → IsLoaded d
unfolding finish
finish-IsLoaded c drop p q d h =
    let (settings, h1) = >>-eq-ok (check_settings c drop) _ h in
    let (n, parallel, h2) = >>=-eq-ok (need parallel_invalid (in_range 1 128 p)) _ h1 in
    let (m, size, h3) = >>=-eq-ok (need part_size_invalid (in_range 5 5120 q)) _ h2 in
    let checked = check_settings-eq-ok c drop settings in
    let counts = need-eq-ok 1 128 parallel_invalid p parallel in
    let sizes = need-eq-ok 5 5120 part_size_invalid q size in
    subst IsLoaded (ok-injective h3) (record {
      bucket = checked.0;
      uri = check_uri_sound c.uri checked.1;
      mode = one_of_two full per_database c.backup_mode (not-eq-false _ checked.2);
      all = one_of_two (codes "true") (codes "false") c.backup_all (not-eq-false _ checked.3);
      filename_mode = one_of_two timestamp fixed c.filename_mode (not-eq-false _ checked.4);
      passphrase = checked.5;
      read_preference = not-eq-false _ checked.6;
      parallel = counts;
      part_size = omega (arith, sizes);
    })

module _ (lookup : Bytes → Option Bytes) (read_file : Bytes → Result Bytes) where
  -- A configuration that is returned has passed every check of its settings: the modes are known
  -- ones, the passphrase is one line, and the numbers are in range.
  pub load_config-IsLoaded : (c : Config) → load_config lookup read_file ≡ ok c → IsLoaded c
  unfolding load_config
  load_config-IsLoaded c h =
      let (uri, _, h1) = >>=-eq-ok (connection_uri lookup read_file) _ h in
      finish-IsLoaded (record (initial lookup read_file) { uri = uri })
        (value_or lookup read_file "MONGODB_RESTORE_DROP" "false")
        (atoi (value_or lookup read_file "MONGODB_PARALLEL_COLLECTIONS" "4"))
        (atoi (value_or lookup read_file "S3_UPLOAD_PART_SIZE_MB" "8")) c h1
