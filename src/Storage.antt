-- ===== src/Storage.antt =====
-- internal/storage/s3.go: New, and firstNonempty. The client of the SDK is the record of what it is
-- built from. url.Parse and config.LoadDefaultConfig are parameters.
pub mod Built
pub mod Transfer
pub mod Idle
use mongodb_backup_s.Base.{
  ℕ, ◌*◌, Bool, true, false, ◌||◌, ◌&&◌, not, List, [], ◌∷◌, Option, none, some, Bytes, String,
  codes, ltb, ◌==◌, if◌then◌else◌, is_empty, str_eq, Error, wrapped, bucket_empty, part_size_range,
  endpoint_invalid, credentials_incomplete, Result, ok, err, ◌>>=◌, ◌>>◌, fail_if,
}
use mongodb_backup_s.Config.{StorageConfig}

-- What New reads of a url.URL.
pub record Endpoint : Type 0 where
  pub scheme : Bytes
  pub host : Bytes
  pub has_user : Bool
  pub raw_query : Bytes
  pub fragment : Bytes

-- Static credentials of the SDK.
pub record Credentials : Type 0 where
  pub access_key : Bytes
  pub secret_key : Bytes
  pub token : Bytes

-- S3, with what its client is made from.
pub record Client : Type 0 where
  pub bucket : Bytes
  pub region : Bytes
  pub endpoint : Bytes
  pub use_path_style : Bool
  pub credentials : Option Credentials
  pub upload_part_size : ℕ

-- `firstNonempty`
unfoldable pub first_nonempty : List Bytes → Bytes
first_nonempty [] = []
first_nonempty (value ∷ values) = if is_empty value then first_nonempty values else value

unfoldable pub part_size : StorageConfig → ℕ
part_size cfg =
    if cfg.upload_part_size_bytes == 0 then 8 * 1024 * 1024 else cfg.upload_part_size_bytes

unfoldable pub is_usable : Endpoint → Bool
unfolding str_eq
is_usable u =
    (str_eq u.scheme (codes "http") || str_eq u.scheme (codes "https"))
    && not (is_empty u.host)
    && not u.has_user
    && is_empty u.raw_query
    && is_empty u.fragment

module _ (ctx_err : Option Error) (lookup : Bytes → Option Bytes) (parse : Bytes → Option Endpoint)
    (load_default : Bytes → Option Credentials → Result Bytes) where
  -- `os.Getenv`
  unfoldable pub getenv : String → Bytes
  getenv key = elim (lookup (codes key)) [ none ↦ [] | some value ↦ value ]

  unfoldable pub check_endpoint : Bytes → Result (Unit {0})
  unfolding is_usable
  check_endpoint endpoint = if is_empty endpoint then ok tt else (elim (parse endpoint) [
    | none ↦ err endpoint_invalid
    | some u ↦ fail_if (not (is_usable u)) endpoint_invalid
  ])

  -- The keys of the configuration, or of the variables with the prefix S3.
  unfoldable pub overrides : StorageConfig → Credentials
  unfolding first_nonempty getenv
  overrides cfg = record {
    access_key = first_nonempty (cfg.access_key_id ∷ getenv "S3_ACCESS_KEY_ID" ∷ []);
    secret_key = first_nonempty (cfg.secret_access_key ∷ getenv "S3_SECRET_ACCESS_KEY" ∷ []);
    token = first_nonempty (cfg.session_token ∷ getenv "S3_SESSION_TOKEN" ∷ []);
  }

  -- What is left out of them comes from the variables of AWS.
  unfoldable pub filled : Credentials → Credentials
  unfolding first_nonempty getenv
  filled c = record {
    access_key =
        first_nonempty (c.access_key ∷ getenv "AWS_ACCESS_KEY_ID" ∷ getenv "AWS_ACCESS_KEY" ∷ []);
    secret_key =
        first_nonempty
          (c.secret_key ∷ getenv "AWS_SECRET_ACCESS_KEY" ∷ getenv "AWS_SECRET_KEY" ∷ []);
    token = first_nonempty (c.token ∷ getenv "AWS_SESSION_TOKEN" ∷ []);
  }

  -- Whether a pair of keys is complete.
  unfoldable pub complete : Credentials → Result (Option Credentials)
  complete c =
      if is_empty c.access_key || is_empty c.secret_key
      then err credentials_incomplete
      else ok (some c)

  unfoldable pub static_credentials : StorageConfig → Result (Option Credentials)
  unfolding overrides filled complete
  static_credentials cfg =
      let given = overrides cfg in
      if is_empty given.access_key && is_empty given.secret_key && is_empty given.token
      then ok none
      else complete (filled given)

  unfoldable pub loaded_region : Result Bytes → Result Bytes
  loaded_region (ok region) = ok (if is_empty region then codes "us-west-1" else region)
  loaded_region (err e) = err (wrapped e)

  unfoldable pub check_alive : Option Error → Result (Unit {0})
  check_alive none = ok tt
  check_alive (some e) = err e

  -- `newS3`; the region that is passed to LoadDefaultConfig may be empty, which is no option.
  unfoldable pub new_s3 : StorageConfig → Result Client
  unfolding check_endpoint part_size static_credentials loaded_region check_alive
  new_s3 cfg = do
    check_alive ctx_err
    fail_if (is_empty cfg.bucket) bucket_empty
    fail_if (ltb (part_size cfg) (5 * 1024 * 1024) || ltb (5 * 1024 * 1024 * 1024) (part_size cfg))
        part_size_range
    check_endpoint cfg.endpoint
    credentials ← static_credentials cfg
    region ← loaded_region (load_default cfg.region credentials)
    ok (record {
      bucket = cfg.bucket;
      region = region;
      endpoint = cfg.endpoint;
      use_path_style = not (is_empty cfg.endpoint);
      credentials = credentials;
      upload_part_size = part_size cfg;
    })
