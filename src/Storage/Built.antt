-- ===== src/Storage/Built.antt =====
-- internal/storage/s3.go, New: what a client is built from.
use mongodb_backup_s.Base.{
  or_false, ℕ, ◌*◌, ◌≤◌, ◌≡◌, refl, subst, ◌⊎◌, inl, inr, true, false, ◌||◌, ◌&&◌, not, [], ◌∷◌,
  Option, none, some, Bytes, ltb, is_empty, arith, Bool-cases, Option-cases, Error, bucket_empty,
  part_size_range, Result, ok, err, fail_if-eq-ok, >>=-eq-ok, ok-injective,
}
use mongodb_backup_s.Config.{StorageConfig}
use mongodb_backup_s.Storage.{
  Endpoint, Credentials, Client, is_usable, part_size, check_endpoint, overrides, filled, complete,
  static_credentials, loaded_region, check_alive, new_s3,
}

not_ltb : (a b : ℕ) → ltb a b ≡ false → b ≤ a
not_ltb a b h = ground (arith, h)

-- Both keys are there, where there are any.
abbrev pub AreComplete : Option Credentials → Type 0
AreComplete none = Unit
AreComplete (some c) = (is_empty c.access_key ≡ false) × (is_empty c.secret_key ≡ false)

module _ (ctx_err : Option Error) (lookup : Bytes → Option Bytes) (parse : Bytes → Option Endpoint)
    (load_default : Bytes → Option Credentials → Result Bytes) where
  -- No address, or one that names a host, and neither a user nor a query nor a fragment.
  abbrev pub IsEndpoint : Bytes → Type 0
  IsEndpoint endpoint =
      (is_empty endpoint ≡ true)
      ⊎ ((u : Endpoint) × (parse endpoint ≡ some u) × (is_usable u ≡ true))

  pub record IsClient (cfg : StorageConfig) (client : Client) : Type 0 where
    pub same_bucket : client.bucket ≡ cfg.bucket
    pub bucket_named : is_empty client.bucket ≡ false
    pub region_named : is_empty client.region ≡ false
    pub endpoint_usable : IsEndpoint client.endpoint
    pub path_style : client.use_path_style ≡ not (is_empty client.endpoint)
    pub keys_complete : AreComplete client.credentials
    pub size_least : 5 * 1024 * 1024 ≤ client.upload_part_size
    pub size_most : client.upload_part_size ≤ 5 * 1024 * 1024 * 1024

  complete-AreComplete :
      (c : Credentials) (o : Option Credentials)
      → complete ctx_err lookup parse load_default c ≡ ok o
      → AreComplete o
  unfolding complete
  complete-AreComplete c o h = elim (Bool-cases (is_empty c.access_key || is_empty c.secret_key)) [
    | inl e ↦ cc (rw e at h)
    | inr e ↦
        subst AreComplete (ok-injective (rw e at h))
          (or_false (is_empty c.access_key) (is_empty c.secret_key) e)
  ]

  check_endpoint-IsEndpoint :
      (endpoint : Bytes)
      → check_endpoint ctx_err lookup parse load_default endpoint ≡ ok tt
      → IsEndpoint endpoint
  unfolding check_endpoint
  check_endpoint-IsEndpoint endpoint h = elim (Bool-cases (is_empty endpoint)) [
    | inl e ↦ inl e
    | inr e ↦ elim (Option-cases (parse endpoint)) [
      | inl none_parsed ↦ cc (rw (e, none_parsed) at h)
      | inr (u, parsed) ↦ inr (u, parsed, ground (arith, rw (e, parsed) at h))
    ]
  ]

  static_credentials-AreComplete :
      (cfg : StorageConfig) (o : Option Credentials)
      → static_credentials ctx_err lookup parse load_default cfg ≡ ok o
      → AreComplete o
  unfolding static_credentials
  static_credentials-AreComplete cfg o h =
      let given = overrides ctx_err lookup parse load_default cfg in
      elim (Bool-cases
        (is_empty given.access_key && is_empty given.secret_key && is_empty given.token)) [
          | inl e ↦ subst AreComplete (ok-injective (rw e at h)) tt
          | inr e ↦
              complete-AreComplete (filled ctx_err lookup parse load_default given) o (rw e at h)
        ]

  loaded_region_named :
      (answer : Result Bytes) (region : Bytes)
      → loaded_region ctx_err lookup parse load_default answer ≡ ok region
      → is_empty region ≡ false
  unfolding loaded_region
  loaded_region_named (err e) region h = cc
  loaded_region_named (ok []) region h = subst (λ r. is_empty r ≡ false) (ok-injective h) refl
  loaded_region_named (ok (b ∷ bs)) region h = subst (λ r. is_empty r ≡ false) (ok-injective h) refl

  -- A client that New returns has a bucket and a region, an address that is usable if there is one,
  -- and then path-style requests, both keys if there are static credentials, and a part size that S3 allows.
  pub new_s3-IsClient :
      (cfg : StorageConfig) (client : Client)
      → new_s3 ctx_err lookup parse load_default cfg ≡ ok client
      → IsClient cfg client
  unfolding new_s3
  new_s3-IsClient cfg client h =
      let size = part_size cfg in
      let (_, _, h1) = >>=-eq-ok (check_alive ctx_err lookup parse load_default ctx_err) _ h in
      let (named, h2) = fail_if-eq-ok (is_empty cfg.bucket) bucket_empty _ h1 in
      let (sized, h3) =
        fail_if-eq-ok (ltb size (5 * 1024 * 1024) || ltb (5 * 1024 * 1024 * 1024) size)
          part_size_range _ h2 in
      let (_, usable, h4) =
        >>=-eq-ok (check_endpoint ctx_err lookup parse load_default cfg.endpoint) _ h3 in
      let (credentials, keys, h5) =
        >>=-eq-ok (static_credentials ctx_err lookup parse load_default cfg) _ h4 in
      let (region, loaded, h6) =
        >>=-eq-ok
          (loaded_region ctx_err lookup parse load_default (load_default cfg.region credentials)) _
          h5 in
      let bounds =
        or_false (ltb size (5 * 1024 * 1024)) (ltb (5 * 1024 * 1024 * 1024) size) sized in
      subst (IsClient cfg) (ok-injective h6) (record {
        same_bucket = refl;
        bucket_named = named;
        region_named = loaded_region_named (load_default cfg.region credentials) region loaded;
        endpoint_usable = check_endpoint-IsEndpoint cfg.endpoint usable;
        path_style = refl;
        keys_complete = static_credentials-AreComplete cfg credentials keys;
        size_least = not_ltb size (5 * 1024 * 1024) bounds.0;
        size_most = not_ltb (5 * 1024 * 1024 * 1024) size bounds.1;
      })
