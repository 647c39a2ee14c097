-- ===== src/Tests/Connections.antt =====
-- A connection whose state is the time and its two deadlines, on which each call takes a second.
use mongodb_backup_s.Base.{refl, ℕ, suc, none, codes, length, ok}
use mongodb_backup_s.Clock.{Instant}
use mongodb_backup_s.Storage.Idle.{Connection, arm, IsConnection, Ends, idle-IsGuarded}

pub record Line : Type 0 where
  pub time : ℕ
  pub for_reads : Instant
  pub for_writes : Instant

abbrev line : Connection
line = record {
  State = Line;
  now = λ s. s.time;
  set_deadline = λ t s. (ok tt, record s { for_reads = t; for_writes = t });
  read = λ size s. ((codes "HTTP", none), record s { time = suc s.time });
  write = λ p s. ((length p, none), record s { time = suc s.time });
}

line-IsConnection : IsConnection line
line-IsConnection = record {
  read_deadline = λ s. s.for_reads;
  write_deadline = λ s. s.for_writes;
  set = λ t s h. (refl, refl);
}

abbrev fresh_line : Line
fresh_line = record { time = 100; for_reads = 0; for_writes = 0 }

idle-IsGuarded_example :
    Ends line 60 line-IsConnection 4096 (codes "PUT") fresh_line (arm line 60 fresh_line).0
idle-IsGuarded_example = idle-IsGuarded line 60 line-IsConnection 4096 (codes "PUT") fresh_line
