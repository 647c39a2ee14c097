-- ===== src/Tests/Parts.antt =====
-- Examples of the parts: paths of members, the server's answers, child processes, and the log.
use mongodb_backup_s.Base.{
  ℕ, ◌≡◌, ◌⊎◌, refl, inl, inr, true, false, not, List, [], ◌∷◌, ◌++◌, map, Option, none, some,
  Bytes, codes, All, split, Error, Result, ok, err, external, str_eq, has_prefix, arith,
  if◌then◌else◌, metadata, denied,
}
use mongodb_backup_s.Config.{Config}
use mongodb_backup_s.Members.{safe_member, join_path}
use mongodb_backup_s.Members.Normal.{IsNormal, safe_member-IsNormal}
use mongodb_backup_s.Members.Join.{IsDirectory}
use mongodb_backup_s.World.{World, ZipFile, Member, Snapshot}
use mongodb_backup_s.Process.{lock_file, opened, Runner, Child, command}
use mongodb_backup_s.Process.Passphrase.{IsSealed, command-IsSealed}
use mongodb_backup_s.Mongo.{inspect, databases, close, open_client}
use mongodb_backup_s.Mongo.Inventory.{IsInventory, databases-IsInventory}
use mongodb_backup_s.Mongo.Metadata.{Reports, source-Reports}
use mongodb_backup_s.Secrets.{emit, new_secret_writer}
use mongodb_backup_s.Secrets.Hidden.{occurs, emit_hides}
use mongodb_backup_s.Tests.Site.{test_config, test_snapshot, test_world, test_site}

safe : safe_member (codes "config/mongod.conf") ≡ true
unfolding safe_member mongodb_backup_s.Base.cut_prefix
safe = refl

safe_member-IsNormal_example : All IsNormal (split (codes "config/mongod.conf") b'/')
safe_member-IsNormal_example = safe_member-IsNormal (codes "config/mongod.conf") safe

stage-IsDirectory : IsDirectory (codes "/tmp/x")
unfolding has_prefix mongodb_backup_s.Base.cut_prefix mongodb_backup_s.Members.clean
stage-IsDirectory = record { absolute = refl; cleaned = refl; below_root = refl }

abbrev sorted_names : List Bytes
sorted_names = codes "admin" ∷ codes "crm" ∷ codes "shop" ∷ []

inventory : (databases test_world test_site).0 ≡ ok sorted_names
unfolding databases mongodb_backup_s.World.◌>>=◌ mongodb_backup_s.World.lift
inventory = refl

databases-IsInventory_example : IsInventory test_world test_site sorted_names
databases-IsInventory_example = databases-IsInventory test_world test_site sorted_names inventory

inspected : (inspect test_world test_site).0 ≡ ok test_snapshot
unfolding inspect mongodb_backup_s.World.◌>>=◌ mongodb_backup_s.World.◌>>◌
    mongodb_backup_s.World.lift
inspected = refl

-- A server that denies every command and cannot be left without an error, and one that is no member of a set.
abbrev denying_world : World
denying_world = record test_world {
  run_command = λ name s. (err (external 1), s);
  hang_up = λ s. (err (external 2), s);
  command_code = λ e. some 13;
}

source-Reports_example :
    Reports (inspect denying_world test_site).0
    × Reports (databases denying_world test_site).0
    × Reports (close denying_world test_site).0
source-Reports_example = source-Reports denying_world test_site

refused :
    (open_client denying_world test_config test_site).0 ≡ err (metadata (codes "hello") denied)
unfolding open_client mongodb_backup_s.World.◌>>=◌
refused = refl

abbrev gpg_runner : Runner
gpg_runner = record {
  defaults_file = codes "/t/tools.yml";
  passphrase_file = codes "/t/passphrase";
  locked = true;
}

abbrev environment : List Bytes
environment = codes "PATH=/bin" ∷ codes "PASSPHRASE=x" ∷ codes "MONGODB_URI=mongodb://u:p@h" ∷ []

abbrev gpg_child : Child
gpg_child = record {
  name = codes "gpg";
  args = codes "--passphrase-fd" ∷ codes "4" ∷ codes "--batch" ∷ [];
  env = codes "PATH=/bin" ∷ [];
  extra_files = lock_file ∷ opened (codes "/t/passphrase") ∷ [];
}

spawned : command gpg_runner environment (ok tt) (codes "gpg") (codes "--batch" ∷ []) ≡ ok gpg_child
unfolding command mongodb_backup_s.Base.cut_prefix
spawned = refl

command-IsSealed_example : IsSealed gpg_runner environment (codes "--batch" ∷ []) gpg_child
command-IsSealed_example =
    command-IsSealed gpg_runner environment (ok tt) (codes "--batch" ∷ []) gpg_child spawned

abbrev secret_config : Config
secret_config = record test_config {
  uri = codes "mongodb://u:p%2Fw@h";
  passphrase = codes "phrase";
}

-- The password, with the escapes undone, in a message of a tool.
abbrev secret : Bytes
secret = codes "p/w"

abbrev told : Bytes
told = codes "bad password p/w\n"

secrets_found :
    (new_secret_writer secret_config).secrets
    ≡ (secret_config.uri ∷ secret_config.passphrase ∷ [])
      ++ (secret ∷ codes "p%2Fw" ∷ codes "p%2Fw" ∷ [])
unfolding new_secret_writer
secrets_found = refl

emit_hides_example :
    (out : Bytes) × ((emit (new_secret_writer secret_config) told).dst
      ≡ (new_secret_writer secret_config).dst ++ out)
    × (occurs secret out ≡ false)
emit_hides_example =
    emit_hides (new_secret_writer secret_config) told secret
      (secret_config.uri ∷ secret_config.passphrase ∷ []) (codes "p%2Fw" ∷ codes "p%2Fw" ∷ [])
      secrets_found refl (refl, (refl, (refl, tt)))
