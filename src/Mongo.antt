-- ===== src/Mongo.antt =====
-- internal/backup/mongo.go: the queries of the server. The driver is the world's; a command's
-- timeout and its read preference are the driver's part.
pub mod Inventory
pub mod Metadata
use mongodb_backup_s.Base.{
  ◌||◌, not, Bool, List, [], ◌∷◌, Option, none, some, Bytes, codes, if◌then◌else◌, is_empty, str_eq,
  str_lt, ◌==◌, ServerFailure, was_canceled, timed_out, denied, server_code, other_failure, Error,
  metadata, not_replica_set, no_replica_config, replica_config_unreadable, versions_incomplete,
  uri_required, preference_invalid, options_invalid, tls_disabled, ca_unreadable, ca_invalid,
  Result, ok, err, fail_if,
}
use mongodb_backup_s.Config.{Config}
use mongodb_backup_s.World.{
  World, Snapshot, Action, Command, Hello, Reply, hello, repl_set_get_config, build_info, get_fcv,
  list_databases, ◌>>=◌, ◌>>◌, lift, check_ctx,
}

-- `sort.Strings`
unfoldable pub insert_sorted : Bytes → List Bytes → List Bytes
unfolding str_lt
insert_sorted name [] = name ∷ []
insert_sorted name (other ∷ names) =
    if str_lt other name then other ∷ insert_sorted name names else name ∷ other ∷ names

unfoldable pub sort_strings : List Bytes → List Bytes
unfolding insert_sorted
sort_strings [] = []
sort_strings (name ∷ names) = insert_sorted name (sort_strings names)

-- The first key of a command, by which its errors are named.
unfoldable pub command_key : Command → Bytes
command_key hello = codes "hello"
command_key repl_set_get_config = codes "replSetGetConfig"
command_key build_info = codes "buildInfo"
command_key get_fcv = codes "getParameter"
command_key list_databases = codes "listDatabases"

module _ (w : World) where
  unfoldable pub failure_of : Error → ServerFailure
  failure_of e =
      if w.is_canceled e
      then was_canceled
      else if w.is_timeout e
      then timed_out
      else elim (w.command_code e) [
        | none ↦ other_failure
        | some c ↦ if c == 13 then denied else server_code c
      ]

  -- `metadataError`; `is_timeout` holds of context.DeadlineExceeded too.
  unfoldable pub metadata_error : Bytes → Error → Error
  unfolding failure_of
  metadata_error operation e = metadata operation (failure_of e)

  unfoldable pub renamed : {A : Type 0} → Bytes → Result A → Result A
  unfolding metadata_error
  renamed operation (ok a) = ok a
  renamed operation (err e) = err (metadata_error operation e)

  -- `mongoSource.command`
  unfoldable pub ask : (c : Command) → Action w.State (Reply c)
  unfolding renamed command_key
  ask c s = let (reply, s') = w.run_command c s in (renamed (command_key c) reply, s')

  unfoldable pub encoded : Result Bytes → Result Bytes
  encoded (ok text) = ok text
  encoded (err e) = err replica_config_unreadable

  unfoldable pub inspect : Action w.State Snapshot
  unfolding ask encoded
  inspect = do
    raw ← ask repl_set_get_config
    lift (fail_if (is_empty raw) no_replica_config)
    config ← lift (encoded (w.ext_json raw))
    version ← ask build_info
    fcv ← ask get_fcv
    lift (fail_if (is_empty version || is_empty fcv) versions_incomplete)
    lift (ok (record { replica_set = config; server_version = version; fcv = fcv }))

  unfoldable pub databases : Action w.State (List Bytes)
  unfolding ask sort_strings
  databases = do names ← ask list_databases; lift (ok (sort_strings names))

  -- Whether the answer to `hello` is that of a member of a replica set.
  unfoldable pub check_member_of_set : Action w.State (Unit {0})
  unfolding ask str_eq
  check_member_of_set = do
    reply ← ask hello
    lift (fail_if (is_empty reply.set_name || str_eq reply.msg (codes "isdbgrid")) not_replica_set)

  -- A source that is refused is closed, and an error of that is dropped.
  unfoldable pub or_hang_up : Result (Unit {0}) → Action w.State (Unit {0})
  or_hang_up (ok u) s = (ok tt, s)
  or_hang_up (err e) s = (err e, (w.hang_up s).1)

  unfoldable pub pem_of : Result Bytes → Result Bytes
  pem_of (ok pem) = ok pem
  pem_of (err e) = err ca_unreadable

  unfoldable pub check_ca : Config → Action w.State (Unit {0})
  unfolding pem_of
  check_ca c = if is_empty c.tls_ca then lift (ok tt) else (do
    lift (fail_if (not (w.uses_tls c.uri)) tls_disabled)
    pem ← (λ s. let (pem, s') = w.read_file c.tls_ca s in (pem_of pem, s'))
    lift (fail_if (not (w.has_certificate pem)) ca_invalid))

  unfoldable pub read_mode : Config → Bytes
  read_mode c = if is_empty c.read_preference then codes "primary" else c.read_preference

  unfoldable pub metadata_options : Config → Action w.State (Unit {0})
  unfolding check_ca read_mode
  metadata_options c = do
    lift (fail_if (is_empty c.uri) uri_required)
    lift (fail_if (not (w.is_read_mode (read_mode c))) preference_invalid)
    lift (fail_if (not (w.are_options_valid c.uri)) options_invalid)
    check_ca c

  -- NewSource behind metadataOptions.
  unfoldable pub open_client : Config → Action w.State (Unit {0})
  unfolding renamed check_member_of_set or_hang_up
  open_client c s =
      let (client, s1) = w.dial c s in
      elim (renamed (codes "initialize MongoDB connection") client) [
        | err e ↦ (err e, s1)
        | ok _ ↦ let (answer, s2) = check_member_of_set s1 in or_hang_up answer s2
      ]

  -- `NewSource`
  unfoldable pub new_source : Config → Action w.State (Unit {0})
  unfolding metadata_options open_client
  new_source c = do check_ctx w; metadata_options c; open_client c

  -- `Close`; its only caller drops the error.
  unfoldable pub close : Action w.State (Unit {0})
  unfolding renamed
  close s =
      let (answer, s') = w.hang_up s in (renamed (codes "close MongoDB connection") answer, s')
