-- ===== src/Process.antt =====
-- internal/backup/process.go: the lock, and what a child process is started with.
pub mod Passphrase
pub mod Pipeline
pub mod Account
pub mod Waited
use mongodb_backup_s.Base.{
  ℕ, suc, ◌+◌, Bool, ◌||◌, not, List, [], ◌∷◌, ◌++◌, Option, none, some, Bytes, codes,
  if◌then◌else◌, keep, str_eq, has_prefix, length, wrapped, passphrase_unreadable, lock_unavailable,
  Result, ok, err, ◌==◌,
}
use mongodb_backup_s.Clock.{decimal}
use mongodb_backup_s.Url.{break_at}
use mongodb_backup_s.World.{World, Action, ◌>>=◌, ◌>>◌, lift}

-- The answer to Flock: on an error the file is closed at once.
unfoldable pub after_flock : (w : World) → Result (Unit {0}) → Action w.State (Unit {0})
after_flock w (ok u) s = (ok tt, s)
after_flock w (err e) s = (err lock_unavailable, w.close_lock s)

unfoldable pub acquire_lock : (w : World) → Action w.State (Unit {0})
unfolding after_flock
acquire_lock w s =
    let (opened, s1) = w.open_lock s in
    elim opened [
      | err e ↦ (err (wrapped e), s1)
      | ok _ ↦ let (locked, s2) = w.flock s1 in after_flock w locked s2
    ]

-- What a child inherits behind its standard files.
pub data File : Type 0 where
  lock_file : File
  opened : Bytes → File

pub record Runner : Type 0 where
  pub defaults_file : Bytes
  pub passphrase_file : Bytes
  pub locked : Bool

-- exec.Cmd, as far as `command` sets it up.
pub record Child : Type 0 where
  pub name : Bytes
  pub args : List Bytes
  pub env : List Bytes
  pub extra_files : List File

unfoldable pub is_database_tool : Bytes → Bool
unfolding str_eq
is_database_tool name = str_eq name (codes "mongorestore") || str_eq name (codes "mongodump")

-- The name of an entry of the environment: what stands before its first `=`.
unfoldable pub entry_key : Bytes → Bytes
unfolding break_at
entry_key entry = (break_at (λ c. c == b'=') entry).0

unfoldable pub is_secret_key : Bytes → Bool
unfolding has_prefix str_eq
is_secret_key key = has_prefix key (codes "MONGODB_") || str_eq key (codes "PASSPHRASE")

unfoldable pub child_environment : List Bytes → List Bytes
unfolding entry_key is_secret_key
child_environment environ = keep (λ entry. not (is_secret_key (entry_key entry))) environ

-- `withoutEnv`, which only the tests use.
unfoldable pub without_env : List Bytes → Bytes → List Bytes
unfolding has_prefix
without_env environ name = keep (λ entry. not (has_prefix entry (name ++ codes "="))) environ

unfoldable pub tool_args : Runner → Bytes → List Bytes → List Bytes
unfolding is_database_tool
tool_args r name args =
    if is_database_tool name then (codes "--config=" ++ r.defaults_file) ∷ args else args

unfoldable pub inherited : Runner → List File
inherited r = if r.locked then lock_file ∷ [] else []

-- `command`, given how os.Open of the file with the passphrase ends.
unfoldable pub command : Runner → List Bytes → Result (Unit {0}) → Bytes → List Bytes → Result Child
unfolding child_environment tool_args inherited str_eq decimal
command r environ passphrase name args =
    let plain : Child = record {
      name = name;
      args = tool_args r name args;
      env = child_environment environ;
      extra_files = inherited r;
    } in
    let sealed : Child = record plain {
      args = codes "--passphrase-fd" ∷ decimal (3 + length (inherited r)) ∷ tool_args r name args;
      extra_files = inherited r ++ (opened r.passphrase_file ∷ []);
    } in
    if str_eq name (codes "gpg")
    then elim passphrase [ ok _ ↦ ok sealed | err e ↦ err passphrase_unreadable ]
    else ok plain
