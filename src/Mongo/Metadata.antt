-- ===== src/Mongo/Metadata.antt =====
-- internal/backup/mongo.go: what Inspect and NewSource return, and what their errors say.
use mongodb_backup_s.Base.{
  or_false, ◌≡◌, refl, sym, ap, subst, ◌∙◌, inl, inr, Bool, true, false, ◌||◌, not, none, Bytes,
  codes, is_empty, Bool-cases, Result-cases, ServerFailure, Error, metadata, not_replica_set,
  no_replica_config, replica_config_unreadable, versions_incomplete, uri_required,
  preference_invalid, options_invalid, tls_disabled, ca_unreadable, ca_invalid, Result, ok, err,
  fail_if, ok-injective, str_eq,
}
use mongodb_backup_s.Config.{Config}
use mongodb_backup_s.World.{
  World, Snapshot, Action, Command, hello, repl_set_get_config, build_info, get_fcv, list_databases,
  lift, lift-fail_if-eq-ok, check_ctx, ◌>>=◌, ◌>>◌, >>=-eq-ok, >>-eq-ok,
}
use mongodb_backup_s.Mongo.Inventory.{renamed-eq-ok}
use mongodb_backup_s.Mongo.{
  command_key, failure_of, metadata_error, renamed, ask, encoded, inspect, databases,
  check_member_of_set, or_hang_up, pem_of, check_ca, read_mode, metadata_options, open_client,
  new_source, close,
}

-- What mongo.go may say: its own messages, and the class of a failure of the driver.
pub data IsReported : Error → Type 0 where
  failed : (operation : Bytes) (f : ServerFailure) → IsReported (metadata operation f)
  no_config : IsReported no_replica_config
  bad_config : IsReported replica_config_unreadable
  no_versions : IsReported versions_incomplete
  no_set : IsReported not_replica_set
  no_uri : IsReported uri_required
  bad_preference : IsReported preference_invalid
  bad_options : IsReported options_invalid
  no_tls : IsReported tls_disabled
  no_ca : IsReported ca_unreadable
  bad_ca : IsReported ca_invalid

-- An answer whose error, if it is one, is such a message.
abbrev pub Reports : {A : Type 0} → Result A → Type 0
Reports (ok a) = Unit
Reports (err e) = IsReported e

>>=-Reports :
    {S A B : Type 0} (m : Action S A) (k : A → Action S B) (s : S)
    → Reports (m s).0
    → ((a : A) (t : S) → Reports (k a t).0)
    → Reports ((m >>= k) s).0
unfolding ◌>>=◌
>>=-Reports m k s h next = elim (Result-cases (m s).0) [
  | inl (a, e) ↦ rw (e, Reports) (next a (m s).1)
  | inr (x, e) ↦ rw (e, Reports) (rw (e, Reports) at h)
]

>>-Reports :
    {S B : Type 0} (m : Action S (Unit {0})) (k : Action S B) (s : S)
    → Reports (m s).0
    → ((t : S) → Reports (k t).0)
    → Reports ((m >> k) s).0
unfolding ◌>>◌
>>-Reports m k s h next = >>=-Reports m (λ u. k) s h λ a t. next t

guard-Reports :
    {S : Type 0} (bad : Bool) (e : Error) (s : S)
    → IsReported e
    → Reports (lift (fail_if bad e) s).0
unfolding lift
guard-Reports true e s h = h
guard-Reports false e s h = tt

renamed-Reports :
    (w : World) {A : Type 0} (operation : Bytes) (answer : Result A)
    → Reports (renamed w operation answer)
unfolding renamed metadata_error
renamed-Reports w operation (ok a) = tt
renamed-Reports w operation (err e) = failed operation (failure_of w e)

encoded-Reports : (w : World) (text : Result Bytes) → Reports (encoded w text)
unfolding encoded
encoded-Reports w (ok text) = tt
encoded-Reports w (err e) = bad_config

pem_of-Reports : (w : World) (text : Result Bytes) → Reports (pem_of w text)
unfolding pem_of
pem_of-Reports w (ok text) = tt
pem_of-Reports w (err e) = no_ca

or_hang_up-Reports :
    (w : World) (answer : Result (Unit {0})) (s : w.State)
    → Reports answer
    → Reports (or_hang_up w answer s).0
unfolding or_hang_up
or_hang_up-Reports w (ok u) s h = tt
or_hang_up-Reports w (err e) s h = h

module _ (w : World) where
  ask-Reports : (command : Command) (s : w.State) → Reports (ask w command s).0
  unfolding ask
  ask-Reports command s = renamed-Reports w (command_key command) (w.run_command command s).0

  inspect-Reports : (s : w.State) → Reports (inspect w s).0
  unfolding inspect lift
  inspect-Reports s =
      >>=-Reports (ask w repl_set_get_config) _ s (ask-Reports repl_set_get_config s) λ raw s1.
        >>-Reports (lift (fail_if (is_empty raw) no_replica_config)) _ s1
          (guard-Reports (is_empty raw) _ s1 no_config)
          λ s2.
            >>=-Reports (lift (encoded w (w.ext_json raw))) _ s2
              (encoded-Reports w (w.ext_json raw))
              λ config s3.
                >>=-Reports (ask w build_info) _ s3 (ask-Reports build_info s3) λ version s4.
                  >>=-Reports (ask w get_fcv) _ s4 (ask-Reports get_fcv s4) λ fcv s5.
                    >>-Reports
                      (lift (fail_if (is_empty version || is_empty fcv) versions_incomplete)) _ s5
                      (guard-Reports (is_empty version || is_empty fcv) _ s5 no_versions) λ s6. tt

  check_ca-Reports : (c : Config) (s : w.State) → Reports (check_ca w c s).0
  unfolding check_ca lift
  check_ca-Reports c s = elim (Bool-cases (is_empty c.tls_ca)) [
    | inl e ↦ rw e tt
    | inr e ↦ rw e (
        >>-Reports (lift (fail_if (not (w.uses_tls c.uri)) tls_disabled)) _ s
          (guard-Reports (not (w.uses_tls c.uri)) _ s no_tls)
          λ s1.
            >>=-Reports (λ t. let (pem, t') = w.read_file c.tls_ca t in (pem_of w pem, t')) _ s1
              (pem_of-Reports w (w.read_file c.tls_ca s1).0)
              λ pem s2. guard-Reports (not (w.has_certificate pem)) _ s2 bad_ca)
  ]

  metadata_options-Reports : (c : Config) (s : w.State) → Reports (metadata_options w c s).0
  unfolding metadata_options lift
  metadata_options-Reports c s =
      >>-Reports (lift (fail_if (is_empty c.uri) uri_required)) _ s
        (guard-Reports (is_empty c.uri) _ s no_uri)
        λ s1.
          >>-Reports (lift (fail_if (not (w.is_read_mode (read_mode w c))) preference_invalid)) _ s1
            (guard-Reports (not (w.is_read_mode (read_mode w c))) _ s1 bad_preference)
            λ s2.
              >>-Reports (lift (fail_if (not (w.are_options_valid c.uri)) options_invalid)) _ s2
                (guard-Reports (not (w.are_options_valid c.uri)) _ s2 bad_options)
                λ s3. check_ca-Reports c s3

  check_member_of_set-Reports : (s : w.State) → Reports (check_member_of_set w s).0
  unfolding check_member_of_set lift
  check_member_of_set-Reports s = >>=-Reports (ask w hello) _ s (ask-Reports hello s) λ reply t.
      guard-Reports (is_empty reply.set_name || str_eq reply.msg (codes "isdbgrid")) _ t no_set

  open_client-Reports : (c : Config) (s : w.State) → Reports (open_client w c s).0
  unfolding open_client
  open_client-Reports c s =
      elim (Result-cases (renamed w (codes "initialize MongoDB connection") (w.dial c s).0)) [
        | inl (u, e) ↦
            rw (e, Reports)
              (or_hang_up-Reports w (check_member_of_set w (w.dial c s).1).0 _
                (check_member_of_set-Reports (w.dial c s).1))
        | inr (x, e) ↦
            rw (e, Reports)
              (rw (e, Reports) at
                (renamed-Reports w (codes "initialize MongoDB connection") (w.dial c s).0))
      ]

  databases-Reports : (s : w.State) → Reports (databases w s).0
  unfolding databases lift
  databases-Reports s =
      >>=-Reports (ask w list_databases) _ s (ask-Reports list_databases s) λ names t. tt

  close-Reports : (s : w.State) → Reports (close w s).0
  unfolding close
  close-Reports s = renamed-Reports w (codes "close MongoDB connection") (w.hang_up s).0

  -- Whatever the driver's errors say, an inspection, a listing of the databases and a close that
  -- fail report one of the messages of mongo.go, or the operation and the class of the failure.
  pub source-Reports :
      (s : w.State) → Reports (inspect w s).0 × Reports (databases w s).0 × Reports (close w s).0
  source-Reports s = (inspect-Reports s, databases-Reports s, close-Reports s)

  -- The same holds of a connection that fails while the context has not ended.
  pub new_source-Reports :
      (c : Config) (s : w.State) → w.ctx_err s ≡ none → Reports (new_source w c s).0
  unfolding new_source check_ctx
  new_source-Reports c s live = >>-Reports (check_ctx w) _ s (rw (live, Reports) tt) λ s1.
      >>-Reports (metadata_options w c) _ s1 (metadata_options-Reports c s1)
        λ s2. open_client-Reports c s2

  -- A member of a replica set was asked: what an inspection that succeeds has found.
  pub record IsInspected (s : w.State) (found : Snapshot) : Type 0 where
    pub raw : Bytes
    pub replied : (w.run_command repl_set_get_config s).0 ≡ ok raw
    pub present : is_empty raw ≡ false
    pub canonical : w.ext_json raw ≡ ok found.replica_set
    pub version_named : is_empty found.server_version ≡ false
    pub fcv_named : is_empty found.fcv ≡ false

  encoded-eq-ok :
      (text : Result Bytes) {found : Bytes} → encoded w text ≡ ok found → text ≡ ok found
  unfolding encoded
  encoded-eq-ok (ok text) h = h
  encoded-eq-ok (err e) h = cc

  -- An inspection that succeeds has the answer of replSetGetConfig in canonical Extended JSON, and a version and a
  -- feature compatibility version that are not empty.
  pub inspect-IsInspected :
      (s : w.State) (found : Snapshot) → (inspect w s).0 ≡ ok found → IsInspected s found
  unfolding inspect ask lift
  inspect-IsInspected s found h =
      let (raw, replied, h1) = >>=-eq-ok (ask w repl_set_get_config) _ s h in
      let (present, h2) = >>-eq-ok (lift (fail_if (is_empty raw) no_replica_config)) _ _ h1 in
      let (config, canonical, h3) = >>=-eq-ok (lift (encoded w (w.ext_json raw))) _ _ h2 in
      let (version, _, h4) = >>=-eq-ok (ask w build_info) _ _ h3 in
      let (fcv, _, h5) = >>=-eq-ok (ask w get_fcv) _ _ h4 in
      let (named, h6) =
        >>-eq-ok (lift (fail_if (is_empty version || is_empty fcv) versions_incomplete)) _ _ h5 in
      let both =
        lift-fail_if-eq-ok {S = w.State} (is_empty version || is_empty fcv) versions_incomplete s
          named in
      let made = ok-injective h6 in
      record {
        raw = raw;
        replied = renamed-eq-ok w _ (w.run_command repl_set_get_config s).0 replied;
        present = lift-fail_if-eq-ok {S = w.State} (is_empty raw) no_replica_config s present;
        canonical = encoded-eq-ok (w.ext_json raw) canonical ∙ ap (λ m. ok m.replica_set) made;
        version_named =
            subst (λ m. is_empty m.server_version ≡ false) made
              (or_false (is_empty version) (is_empty fcv) both).0;
        fcv_named =
            subst (λ m. is_empty m.fcv ≡ false) made
              (or_false (is_empty version) (is_empty fcv) both).1;
      }

  or_hang_up-eq-err :
      (answer : Result (Unit {0})) (s : w.State) (e : Error)
      → (or_hang_up w answer s).0 ≡ err e
      → (or_hang_up w answer s).1 ≡ (w.hang_up s).1
  unfolding or_hang_up
  or_hang_up-eq-err (ok u) s e h = cc
  or_hang_up-eq-err (err x) s e h = refl

  -- A server that is reached and refused is left: a connection that fails ends with a Disconnect.
  pub open_client-hang_up :
      (c : Config) (s : w.State) (e : Error)
      → (w.dial c s).0 ≡ ok tt
      → (open_client w c s).0 ≡ err e
      → (t : w.State) × ((open_client w c s).1 ≡ (w.hang_up t).1)
  unfolding open_client renamed
  open_client-hang_up c s e dialed refused =
      let t = (w.dial c s).1 in
      let step : open_client w c s
          ≡ or_hang_up w (check_member_of_set w t).0 (check_member_of_set w t).1 =
        rw (dialed, open_client) refl in
      let left =
        or_hang_up-eq-err (check_member_of_set w t).0 (check_member_of_set w t).1 e
          (ap (λ x. x.0) (sym step) ∙ refused) in
      ((check_member_of_set w t).1, ap (λ x. x.1) step ∙ left)
