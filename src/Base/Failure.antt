-- ===== src/Base/Failure.antt =====
-- Errors as values. A Go result `(T, error)` is a `Result T`, and a lone `error` a `Result Unit`.
-- Each message that the code makes is a constructor; errors that come from outside are numbered.
use Prim.Native.Nat.{ℕ}
use mathlib.Core.Path.{◌≡◌, refl}
use mathlib.Core.Logic.{◌⊎◌, inl, inr}
use mathlib.Core.List.{List}
use mathlib.Core.Bool.{Bool, true, false}

-- What an error of the server is reported as: mongo.go keeps no text of the driver.
pub data ServerFailure : Type 0 where
  was_canceled timed_out denied other_failure : ServerFailure
  server_code : ℕ → ServerFailure

pub data Error : Type 0 where
  -- an error of the operating system, a tool, the driver or the storage service
  external : ℕ → Error
  -- `ctx.Err()`
  canceled : Error
  -- `errors.Join` of two errors
  joined : Error → Error → Error
  -- `fmt.Errorf("…: %w", err)`
  wrapped : Error → Error
  -- config.go
  both_uri_and_file uri_file_unreadable bucket_unset uri_unset : Error
  uri_invalid uri_has_path uri_query_invalid uri_read_preference : Error
  mode_invalid all_invalid filename_mode_invalid passphrase_newline : Error
  read_preference_invalid drop_invalid parallel_invalid part_size_invalid : Error
  full_with_selectors all_with_explicit no_selector exclude_without_all : Error
  keep_days_not_positive keep_days_range : Error
  databases_empty database_name_invalid database_internal : Error
  -- app.go
  schedule_invalid schedule_never versioning_disabled version_empty : Error
  database_missing nothing_selected modification_time_missing : Error
  run_failures : Error → Error
  -- restore.go
  restore_database_unset restore_only_database restore_usage restore_auth_mode : Error
  no_backup_found extract_no_output : Error
  -- bundle.go
  member_unsupported member_duplicate server_changed manifest_too_large : Error
  bundle_member_invalid bundle_member_duplicate manifest_missing manifest_oversized : Error
  manifest_invalid manifest_mismatch manifest_incomplete components_missing : Error
  auth_unexpected inventory_mismatch size_mismatch checksum_mismatch config_mismatch : Error
  member_missing config_dir_empty output_exists config_member_invalid : Error
  -- capture.go
  config_not_directory config_changed config_path_unsafe config_not_regular : Error
  config_read_failed : Error → Error
  -- mongo.go, with the operation and the kind of failure
  metadata : List ℕ → ServerFailure → Error
  not_replica_set no_replica_config replica_config_unreadable versions_incomplete : Error
  uri_required preference_invalid options_invalid tls_disabled ca_unreadable ca_invalid : Error
  -- process.go
  passphrase_unreadable lock_unavailable : Error
  -- s3.go
  bucket_empty part_size_range endpoint_invalid credentials_incomplete : Error
  list_entry_invalid list_token_invalid : Error

pub data Result {ℓ} (A : Type ℓ) : Type ℓ where
  ok : A → Result A
  err : Error → Result A

-- `if err != nil { return err }` between two steps.
infixl 5 ◌>>=◌
abbrev pub ◌>>=◌ {ℓ κ} : {X : Type ℓ} {Y : Type κ} → Result X → (X → Result Y) → Result Y
err failure >>= next = err failure
ok x >>= next = next x

abbrev pub IsOk {ℓ} : {A : Type ℓ} → Result A → Type 0
IsOk (err failure) = ⊥
IsOk (ok a) = Unit

-- `if bad { return err }`
abbrev pub fail_if : Bool → Error → Result (Unit {0})
fail_if true e = err e
fail_if false e = ok tt

infixl 5 ◌>>◌
abbrev pub ◌>>◌ {ℓ} : {Y : Type ℓ} → Result (Unit {0}) → Result Y → Result Y
first >> second = first >>= λ _. second

-- Inversion of a successful chain.
pub fail_if-eq-ok {ℓ} :
    {B : Type ℓ} (bad : Bool) (e : Error) (k : Result B) {x : B}
    → (fail_if bad e >> k) ≡ ok x
    → (bad ≡ false) × (k ≡ ok x)
fail_if-eq-ok true e k h = cc
fail_if-eq-ok false e k h = (refl, h)

pub >>=-eq-ok {ℓ κ} :
    {X : Type ℓ} {Y : Type κ} (first : Result X) (next : X → Result Y) {y : Y}
    → (first >>= next) ≡ ok y
    → (x : X) × (first ≡ ok x) × (next x ≡ ok y)
>>=-eq-ok (err failure) next h = cc
>>=-eq-ok (ok x) next h = (x, refl, h)

-- A step without a result.
pub >>-eq-ok {ℓ} :
    {B : Type ℓ} (m : Result (Unit {0})) (k : Result B) {b : B}
    → (m >> k) ≡ ok b
    → (m ≡ ok tt) × (k ≡ ok b)
>>-eq-ok (ok tt) k h = (refl, h)
>>-eq-ok (err e) k h = cc

pub ok-injective {ℓ} : {A : Type ℓ} {a b : A} → ok a ≡ ok b → a ≡ b
ok-injective h = cc

pub Result-cases {ℓ} :
    {A : Type ℓ} (r : Result A) → ((a : A) × (r ≡ ok a)) ⊎ ((e : Error) × (r ≡ err e))
Result-cases (ok a) = inl (a, refl)
Result-cases (err e) = inr (e, refl)
