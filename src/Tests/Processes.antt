-- ===== src/Tests/Processes.antt =====
-- A pipeline of mongodump and gpg on a system whose processes all end well.
use mongodb_backup_s.Base.{true, ◌≡◌, refl, suc, ◌-◌, [], ◌∷◌, codes, length, ok}
use mongodb_backup_s.World.{Object}
use mongodb_backup_s.Process.{Runner}
use mongodb_backup_s.Process.Pipeline.{PipelineCommand, System, pipeline}
use mongodb_backup_s.Process.Account.{Account, IsAccounted}
use mongodb_backup_s.Process.Waited.{IsWaited, pipeline-IsWaited}
use mongodb_backup_s.Tests.Site.{Store, test_world, test_site}

-- The time of the site counts the processes that run, and its objects count the starts.
abbrev test_system : System test_world
test_system = record {
  environ = codes "HOME=/" ∷ [];
  open_passphrase = λ s. ok tt;
  make_pipe = λ s. (ok tt, s);
  close_pipes = λ s. s;
  start = λ child s. (
    ok tt,
    record s {
      time = suc s.time;
      objects = record { key = child.name; last_modified = 0 } ∷ s.objects;
    },
  );
  wait = λ s. (ok tt, record s { time = s.time - 1 });
  cancel = λ s. s;
}

abbrev account_of : Store → Account
account_of s = record { unwaited = s.time; starts = length s.objects; failures = 0 }

account_of-IsAccounted : IsAccounted test_world test_system account_of
account_of-IsAccounted = record {
  started = λ child s. refl;
  ended = λ s. refl;
  piped = λ s. refl;
  closed = λ s. refl;
  killed = λ s. refl;
}

abbrev test_runner : Runner
test_runner = record {
  defaults_file = codes "/tmp/d";
  passphrase_file = codes "/tmp/p";
  locked = true;
}

abbrev dump : PipelineCommand
dump = record { name = codes "mongodump"; args = codes "--archive" ∷ [] }

abbrev seal : PipelineCommand
seal = record { name = codes "gpg"; args = codes "--symmetric" ∷ [] }

pipeline-IsWaited_example :
    IsWaited test_world test_system test_runner account_of account_of-IsAccounted
      (dump ∷ seal ∷ [])
      test_site
      (pipeline test_world test_system test_runner dump (seal ∷ []) test_site).0
      (pipeline test_world test_system test_runner dump (seal ∷ []) test_site).1
pipeline-IsWaited_example =
    pipeline-IsWaited test_world test_system test_runner account_of account_of-IsAccounted dump
      (seal ∷ []) test_site

runs_well : (pipeline test_world test_system test_runner dump (seal ∷ []) test_site).0 ≡ ok tt
unfolding pipeline mongodb_backup_s.World.◌>>=◌ mongodb_backup_s.World.◌>>◌
    mongodb_backup_s.World.lift
runs_well = refl
