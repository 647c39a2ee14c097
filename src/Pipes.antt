-- ===== src/Pipes.antt =====
-- internal/backup/app.go: the goroutines and pipes of backupDatabase and produceEncrypted, with gpg
-- between the producer and the upload if there is a passphrase. A state holds what the goroutines have come to, and a move is
-- one of their actions, or one of the outside. Moves of the outside happen at any time: the
-- end of the context, and an error of the producer, of gpg or of the upload. Upload returns without an
-- error only behind the EOF of its reader, and gpg only behind the end of its input.
pub mod Invariant
pub mod Kept
pub mod Outcome
pub mod Finite
pub mod Progress
use mongodb_backup_s.Base.{
  ℕ, ◌+◌, ◌≡◌, Bool, true, false, ◌&&◌, ◌||◌, not, List, [], ◌∷◌, ◌++◌, if◌then◌else◌, Option, none,
  some, Bytes, is_empty, length, ltb, Error, canceled, Result, ok, err,
}
use mongodb_backup_s.Backup.{join}

-- A goroutine or a process, with the error that it has ended in.
pub data Stage : Type 0 where
  running : Stage
  ended : Result (Unit {0}) → Stage

-- backupDatabase itself: in Upload, behind an Upload that failed, waiting for `<-done`, and returned.
pub data Caller : Type 0 where
  uploading : Caller
  failing : Error → Caller
  waiting : Result (Unit {0}) → Caller
  returned : Result (Unit {0}) → Caller

-- A bundle is in chunks. They are with the producer, in the pipe of the system, in gpg, or read by
-- the upload; a chunk behind gpg stands for what gpg makes of it.
pub record State : Type 0 where
  -- there is no passphrase: gpg is skipped, and the producer writes to the upload's pipe
  pub plain : Bool
  pub left : List Bytes
  pub buffer : List Bytes
  pub held : List Bytes
  pub received : List Bytes
  pub producer : Stage
  pub gpg : Stage
  pub caller : Caller
  -- the context of backupDatabase has ended
  pub stopped : Bool
  -- `writer.Close()` on the pipe of the system
  pub write_closed : Bool
  -- what follows runInput: `cancel()`, `reader.Close()` and `writer.Close()`
  pub cleaned : Bool
  -- `writer.CloseWithError(err)` and `done <- err`
  pub out : Option (Result (Unit {0}))
  -- `reader.CloseWithError(err)`
  pub reader_closed : Option Error

pub data Move : Type 0 where
  -- the producer
  write : Move
  write_out : Move
  end_produce : Move
  fail_produce : Error → Move
  -- gpg
  read : Move
  deliver : Move
  end_gpg : Move
  fail_gpg : Error → Move
  -- produceEncrypted behind runInput, and the end of its goroutine
  clean_up : Move
  close_out : Move
  -- backupDatabase
  end_upload : Move
  fail_upload : Error → Move
  close_reader : Move
  receive_done : Move
  -- the context, and the functions that wait for its end
  stop : Move
  after_stop : Move
  after_stop_inner : Move

unfoldable pub is_running : Stage → Bool
is_running running = true
is_running (ended r) = false

unfoldable pub is_uploading : Caller → Bool
is_uploading uploading = true
is_uploading _ = false

unfoldable pub is_failing : Caller → Bool
is_failing (failing e) = true
is_failing _ = false

unfoldable pub is_waiting : Caller → Bool
is_waiting (waiting r) = true
is_waiting _ = false

unfoldable pub is_set {ℓ} : {A : Type ℓ} → Option A → Bool
is_set none = false
is_set (some a) = true

-- The end of the stream: the producer and gpg are done without an error.
unfoldable pub is_eof : Option (Result (Unit {0})) → Bool
is_eof (some (ok u)) = true
is_eof _ = false

-- How many chunks the pipe of the system holds.
abbrev pub capacity : ℕ
capacity = 16

unfoldable pub enabled : Move → State → Bool
unfolding is_running is_uploading is_failing is_waiting is_set is_eof
enabled write s =
    is_running s.producer
    && not (is_empty s.left)
    && not s.write_closed
    && ltb (length s.buffer) capacity
enabled write_out s =
    is_running s.producer
    && not (is_empty s.left)
    && s.plain
    && is_uploading s.caller
    && not (is_set s.reader_closed)
enabled end_produce s = is_running s.producer && is_empty s.left
enabled (fail_produce e) s = is_running s.producer
enabled read s = is_running s.gpg && not (is_empty s.buffer)
enabled deliver s =
    is_running s.gpg
    && not (is_empty s.held)
    && is_uploading s.caller
    && not (is_set s.reader_closed)
enabled end_gpg s = is_running s.gpg && is_empty s.held && is_empty s.buffer && s.write_closed
enabled (fail_gpg e) s = is_running s.gpg
enabled clean_up s = not (is_running s.gpg) && not s.cleaned
enabled close_out s = s.cleaned && not (is_running s.producer) && not (is_set s.out)
enabled end_upload s = is_uploading s.caller && is_eof s.out
enabled (fail_upload e) s = is_uploading s.caller
enabled close_reader s = is_failing s.caller
enabled receive_done s = is_waiting s.caller && is_set s.out
enabled stop s = not s.stopped
enabled after_stop s = s.stopped && not (is_set s.reader_closed)
enabled after_stop_inner s = s.stopped && not s.write_closed

-- The first chunk, and the rest.
unfoldable pub front : List Bytes → List Bytes
front [] = []
front (c ∷ cs) = c ∷ []

unfoldable pub rest : List Bytes → List Bytes
rest [] = []
rest (c ∷ cs) = cs

unfoldable pub end_of : Stage → Result (Unit {0})
end_of running = ok tt
end_of (ended r) = r

-- `errors.Join(err, <-done)` of produceEncrypted
unfoldable pub encrypted : State → Result (Unit {0})
unfolding end_of join
encrypted s = join (end_of s.gpg) (end_of s.producer)

unfoldable pub failure_of : Caller → Error
failure_of (failing e) = e
failure_of _ = canceled

-- `errors.Join(err, <-done)` of backupDatabase
unfoldable pub outcome : Caller → Option (Result (Unit {0})) → Result (Unit {0})
unfolding join
outcome (waiting r) (some done) = join r done
outcome _ _ = ok tt

-- CloseWithError keeps the error of an earlier call.
unfoldable pub or_else {ℓ} : {A : Type ℓ} → Option A → A → Option A
or_else none a = some a
or_else (some b) a = some b

unfoldable pub apply : Move → State → State
unfolding front rest encrypted failure_of outcome or_else
apply write s = record s { left = rest s.left; buffer = s.buffer ++ front s.left }
apply write_out s = record s { left = rest s.left; received = s.received ++ front s.left }
apply end_produce s = record s { producer = ended (ok tt); write_closed = true }
apply (fail_produce e) s = record s { producer = ended (err e); write_closed = true }
apply read s = record s { buffer = rest s.buffer; held = s.held ++ front s.buffer }
apply deliver s = record s { held = rest s.held; received = s.received ++ front s.held }
apply end_gpg s = record s { gpg = ended (ok tt) }
apply (fail_gpg e) s = record s { gpg = ended (err e) }
apply clean_up s = record s { cleaned = true; write_closed = true }
apply close_out s = record s { out = some (encrypted s) }
apply end_upload s = record s { caller = waiting (ok tt) }
apply (fail_upload e) s = record s { caller = failing e }
apply close_reader s = record s {
  caller = waiting (err (failure_of s.caller));
  stopped = true;
  reader_closed = or_else s.reader_closed (failure_of s.caller);
}
apply receive_done s = record s { caller = returned (outcome s.caller s.out) }
apply stop s = record s { stopped = true }
apply after_stop s = record s { reader_closed = some canceled }
apply after_stop_inner s = record s { write_closed = true }

-- All moves but those of the outside. Behind an end of its context a tool is killed, a write to a closed
-- pipe fails, and so does a read of a pipe that is closed with an error.
unfoldable pub is_forced : Move → State → Bool
unfolding is_set is_eof
is_forced (fail_produce e) s =
    s.stopped || (s.cleaned && not s.plain) || (s.plain && is_set s.reader_closed)
is_forced (fail_gpg e) s = s.stopped || is_set s.reader_closed
is_forced (fail_upload e) s = is_set s.reader_closed || (is_set s.out && not (is_eof s.out))
is_forced stop s = false
is_forced _ s = true

-- Without a passphrase, gpg and its pipe count as ended.
abbrev pub initial : Bool → List Bytes → State
initial plain chunks = record {
  plain = plain;
  left = chunks;
  buffer = [];
  held = [];
  received = [];
  producer = running;
  gpg = if plain then ended (ok tt) else running;
  caller = uploading;
  stopped = false;
  write_closed = plain;
  cleaned = plain;
  out = none;
  reader_closed = none;
}

-- A run: the moves that have been made, the last one first.
pub data Reachable (plain : Bool) (chunks : List Bytes) : List Move → State → Type 0 where
  begin : Reachable plain chunks [] (initial plain chunks)
  move :
      (m : Move) (ms : List Move) (s : State)
      → Reachable plain chunks ms s
      → enabled m s ≡ true
      → Reachable plain chunks (m ∷ ms) (apply m s)
