-- ===== src/World.antt =====
-- What the program meets outside itself: the clock, the cancellation of its context, the lock file,
-- the MongoDB server and its driver, the external tools, the storage service, files and archives:
-- a record of operations on an unknown state, each of which may fail.
use mongodb_backup_s.Base.{
  ℕ, wrapped, true, false, refl, fail_if, ◌≡◌, inl, inr, Result-cases, Bool, List, Option, none,
  some, Bytes, Error, Result, ok, err,
}
use mongodb_backup_s.Clock.{Instant}
use mongodb_backup_s.Config.{Config}

-- storage.Object; the zero instant stands for a time that is missing.
pub record Object : Type 0 where
  pub key : Bytes
  pub last_modified : Instant

-- mongo.go: Snapshot
pub record Snapshot : Type 0 where
  pub replica_set : Bytes
  pub server_version : Bytes
  pub fcv : Bytes

-- A member of a ZIP archive: its name and its contents, uncompressed.
pub record Member : Type 0 where
  pub name : Bytes
  pub contents : Bytes

-- What an upload reads before the end of its reader: an archive with its footer, one that has been broken off, or
-- what gpg has written.
pub data Content : Type 0 where
  whole : List Member → Content
  broken_off : Content
  ciphertext : Bytes → Content

-- The reader of an upload, which ends in EOF or in an error.
pub record Body : Type 0 where
  pub content : Content
  pub end : Result (Unit {0})

-- A member of an archive that is opened: what its header says, how its own opening ends, and what
-- reading it to the end gives, the contents or an error of its checksum or of the context.
pub record ZipFile : Type 0 where
  pub name : Bytes
  -- a directory, a link or another special file
  pub special : Bool
  pub uncompressed_size : ℕ
  pub opens : Result (Unit {0})
  pub read : Result Bytes

-- The commands that mongo.go sends, and what it decodes of the replies.
pub data Command : Type 0 where
  hello repl_set_get_config build_info get_fcv list_databases : Command

pub record Hello : Type 0 where
  pub set_name : Bytes
  pub msg : Bytes

abbrev pub Reply : Command → Type 0
Reply hello = Hello
Reply list_databases = List Bytes
Reply _ = Bytes

-- What the code reads of a fs.FileInfo. The mode has the bits of fs.FileMode; os.SameFile compares
-- `file`; the attributes are those of the system's own structure, where it has them.
pub record FileInfo : Type 0 where
  pub mode : ℕ
  pub size : ℕ
  pub mod_time : Instant
  pub file : ℕ
  pub attributes : Option ℕ

-- A Read of an open file, behind what `ctx.Err()` says before it: what has been read, and an error
-- other than the end of the file.
pub record ReadCall : Type 0 where
  pub ended : Option Error
  pub chunk : Bytes
  pub failure : Option Error

pub record World : Type 1 where
  pub State : Type 0
  -- `ctx.Err()`
  pub ctx_err : State → Option Error
  -- `a.now()`
  pub now : State → Instant
  -- the lock file: OpenFile, Flock, and the Close that lets the lock go
  pub open_lock : State → Result (Unit {0}) × State
  pub flock : State → Result (Unit {0}) × State
  pub close_lock : State → State
  -- the private files of withRunner: the directory with the URI and the passphrase, and its removal
  pub prepare : State → Result (Unit {0}) × State
  pub clean_up : State → Result (Unit {0}) × State
  -- storage.Store
  pub versioning_enabled : State → Result Bool × State
  pub list : Bytes → State → Result (List Object) × State
  pub delete : Bytes → State → Result (Unit {0}) × State
  pub upload : Bytes → Body → State → Result (Unit {0}) × State
  pub download : Bytes → Bytes → Bytes → State → Result (Unit {0}) × State
  -- the driver of the server: readpref.New for a name of a mode, Validate of the options with a URI and
  -- whether they turn TLS on, AppendCertsFromPEM, Connect with the options of a configuration, Disconnect, a command on
  -- the admin database, and what its errors are
  pub is_read_mode : Bytes → Bool
  pub are_options_valid : Bytes → Bool
  pub uses_tls : Bytes → Bool
  pub has_certificate : Bytes → Bool
  pub dial : Config → State → Result (Unit {0}) × State
  pub hang_up : State → Result (Unit {0}) × State
  pub run_command : (command : Command) → State → Result (Reply command) × State
  pub is_canceled : Error → Bool
  pub is_timeout : Error → Bool
  pub command_code : Error → Option ℕ
  -- bson.MarshalExtJSON, in its canonical form
  pub ext_json : Bytes → Result Bytes
  -- a tool with its arguments: what it writes to its output, and how it ends
  pub run : Bytes → List Bytes → State → (Bytes × Result (Unit {0})) × State
  -- a tool with its arguments and an archive on its input: what it writes to its output, and how it ends
  pub filter : Bytes → List Bytes → Content → State → (Bytes × Result (Unit {0})) × State
  -- the directory of the configuration: os.Lstat, OpenRoot and the Close of the root; its Stat; the
  -- paths that WalkDir visits, each with the error that it hands over; Lstat and Open of a path in
  -- it, and of an open file Stat, its Reads up to the end of the file, and Close
  pub lstat : Bytes → State → Result FileInfo × State
  pub open_root : Bytes → State → Result (Unit {0}) × State
  pub close_root : State → State
  pub root_stat : State → Result FileInfo × State
  pub walk : State → List (Bytes × Option Error) × State
  pub root_lstat : Bytes → State → Result FileInfo × State
  pub root_open : Bytes → State → Result ℕ × State
  pub file_stat : ℕ → State → Result FileInfo × State
  pub file_reads : ℕ → State → List ReadCall × State
  pub close_file : ℕ → State → State
  -- a tool with its arguments and its input
  pub feed : Bytes → List Bytes → Result Bytes → State → Result (Unit {0}) × State
  -- the file system: MkdirTemp in a directory (of the system, if empty), RemoveAll, MkdirAll, a new
  -- file (O_EXCL), what it is filled with and its Close, ReadFile, Rename, Abs, and whether Lstat finds nothing
  pub make_temp : Bytes → State → Result Bytes × State
  pub remove_all : Bytes → State → Result (Unit {0}) × State
  pub make_dirs : Bytes → State → Result (Unit {0}) × State
  pub create : Bytes → State → Result (Unit {0}) × State
  pub fill : Bytes → Result Bytes → State → Result (Unit {0}) × State
  pub read_file : Bytes → State → Result Bytes × State
  pub rename : Bytes → Bytes → State → Result (Unit {0}) × State
  pub absolute : Bytes → State → Result Bytes × State
  pub is_absent : Bytes → State → Bool
  -- zip.OpenReader, and the Close of the archive
  pub open_archive : Bytes → State → Result (List ZipFile) × State
  pub close_archive : State → State

-- A computation that may fail, on a state of any kind.
abbrev pub Action : Type 0 → Type 0 → Type 0
Action S A = S → Result A × S

module _ {S : Type 0} where
  infixl 5 ◌>>=◌ ◌>>◌
  unfoldable pub ◌>>=◌ : {A B : Type 0} → Action S A → (A → Action S B) → Action S B
  ◌>>=◌ m f s = let (r, s') = m s in elim r [ ok a ↦ f a s' | err e ↦ (err e, s') ]

  unfoldable pub ◌>>◌ : {B : Type 0} → Action S (Unit {0}) → Action S B → Action S B
  unfolding ◌>>=◌
  m >> k = m >>= λ _. k

  unfoldable pub lift : {A : Type 0} → Result A → Action S A
  lift r s = (r, s)

module _ {S : Type 0} where
  -- Inversion of a successful chain.
  pub >>=-eq-ok :
      {A B : Type 0} (m : Action S A) (f : A → Action S B) (s : S) {b : B}
      → ((m >>= f) s).0 ≡ ok b
      → (a : A) × ((m s).0 ≡ ok a) × ((f a (m s).1).0 ≡ ok b)
  unfolding ◌>>=◌
  >>=-eq-ok m f s h = elim (Result-cases (m s).0) [
    | inl (a, e) ↦ (a, e, rw (e, ◌>>=◌) at h)
    | inr (_, e) ↦ cc (rw (e, ◌>>=◌) at h)
  ]

  pub >>-eq-ok :
      {B : Type 0} (m : Action S (Unit {0})) (k : Action S B) (s : S) {b : B}
      → ((m >> k) s).0 ≡ ok b
      → ((m s).0 ≡ ok tt) × ((k (m s).1).0 ≡ ok b)
  unfolding ◌>>◌
  >>-eq-ok m k s h = let (_, e, next) = >>=-eq-ok m (λ _. k) s h in (e, next)

  -- A chain goes on from the state that its first step leaves.
  pub >>=-of_ok :
      {A B : Type 0} (m : Action S A) (f : A → Action S B) (s : S) {a : A}
      → (m s).0 ≡ ok a
      → (m >>= f) s ≡ f a (m s).1
  unfolding ◌>>=◌
  >>=-of_ok m f s e = rw (e, ◌>>=◌)

  pub >>-of_ok :
      {B : Type 0} (m : Action S (Unit {0})) (k : Action S B) (s : S)
      → (m s).0 ≡ ok tt
      → (m >> k) s ≡ k (m s).1
  unfolding ◌>>◌
  >>-of_ok m k s e = >>=-of_ok m (λ _. k) s e

  pub lift-fail_if-eq-ok :
      (bad : Bool) (e : Error) (s : S) → (lift (fail_if bad e) s).0 ≡ ok tt → bad ≡ false
  unfolding lift
  lift-fail_if-eq-ok true e s h = cc
  lift-fail_if-eq-ok false e s h = refl

-- `if err := ctx.Err(); err != nil { return err }`
unfoldable pub check_ctx : (w : World) → Action w.State (Unit {0})
check_ctx w s = (elim (w.ctx_err s) [ none ↦ ok tt | some e ↦ err e ], s)

-- commandError: a tool that fails after the context has ended counts as ended by it.
unfoldable pub command_error : (w : World) → Result (Unit {0}) → w.State → Result (Unit {0})
command_error w (ok u) s = ok tt
command_error w (err e) s = elim (w.ctx_err s) [ none ↦ err (wrapped e) | some cause ↦ err cause ]

unfoldable pub run_tool : (w : World) → Bytes → List Bytes → Action w.State Bytes
unfolding command_error
run_tool w name args s =
    let (out, s') = w.run name args s in
    elim (command_error w out.1 s') [ ok _ ↦ (ok out.0, s') | err e ↦ (err e, s') ]

-- runInput with an input: its output stays what it is when the tool fails.
unfoldable pub run_filter :
    (w : World) → Bytes → List Bytes → Content → w.State → (Bytes × Result (Unit {0})) × w.State
unfolding command_error
run_filter w name args input s =
    let (out, s') = w.filter name args input s in ((out.0, command_error w out.1 s'), s')
