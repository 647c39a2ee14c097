-- ===== src/Process/Pipeline.antt =====
-- internal/backup/process.go: pipeline, over what starts and ends the processes of a system. The end
-- that `<-done` receives is that of any of the processes that run.
use mongodb_backup_s.Base.{
  ℕ, zero, suc, Bool, true, false, List, [], ◌∷◌, reverse, Bytes, if◌then◌else◌, Result, ok, err,
}
use mongodb_backup_s.World.{World, Action, lift, command_error, ◌>>=◌, ◌>>◌}
use mongodb_backup_s.Backup.{join}
use mongodb_backup_s.Process.{Runner, Child, command}

pub record PipelineCommand : Type 0 where
  pub name : Bytes
  pub args : List Bytes

-- The environment, os.Open of the file with the passphrase, os.Pipe, closePipes, Start of a command, the
-- next end of a process that Wait reports, and cancel, which kills the processes.
pub record System (w : World) : Type 0 where
  pub environ : List Bytes
  pub open_passphrase : w.State → Result (Unit {0})
  pub make_pipe : w.State → Result (Unit {0}) × w.State
  pub close_pipes : w.State → w.State
  pub start : Child → w.State → Result (Unit {0}) × w.State
  pub wait : w.State → Result (Unit {0}) × w.State
  pub cancel : w.State → w.State

-- What the loop that starts the commands leaves: how many it has started, and `result`.
pub record Started : Type 0 where
  pub count : ℕ
  pub result : Result (Unit {0})

module _ (w : World) (o : System w) (r : Runner) where
  unfoldable pub command_of : PipelineCommand → Action w.State Child
  unfolding command
  command_of spec s = (command r o.environ (o.open_passphrase s) spec.name spec.args, s)

  -- A pipe in front of each command but the first.
  unfoldable pub pipe_before : Bool → Action w.State (Unit {0})
  pipe_before first = if first then lift (ok tt) else o.make_pipe

  unfoldable pub set_up : Bool → List PipelineCommand → Action w.State (List Child)
  unfolding command_of pipe_before
  set_up first [] = lift (ok [])
  set_up first (spec ∷ specs) = do
    child ← command_of spec
    pipe_before first
    children ← set_up false specs
    lift (ok (child ∷ children))

  -- The consumers first, up to a command that does not start.
  unfoldable pub start_all : List Child → ℕ → w.State → Started × w.State
  unfolding command_error
  start_all [] count s = (record { count = count; result = ok tt }, s)
  start_all (child ∷ children) count s =
      let (end, s1) = o.start child s in
      let more = start_all children (suc count) s1 in
      elim end [
        | ok _ ↦ more
        | err e ↦ (record { count = count; result = command_error w (err e) s1 }, o.cancel s1)
      ]

  -- An end that has been received: an error is joined to the result, and cancels the others.
  unfoldable pub received :
      Result (Unit {0}) → Result (Unit {0}) → w.State → Result (Unit {0}) × w.State
  unfolding join
  received result (ok u) s = (result, s)
  received result (err e) s = (join result (err e), o.cancel s)

  unfoldable pub wait_all : ℕ → Result (Unit {0}) → Action w.State (Unit {0})
  unfolding received command_error
  wait_all zero result s = (result, s)
  wait_all (suc n) result s =
      let (end, s1) = o.wait s in
      let (result', s2) = received result (command_error w end s1) s1 in wait_all n result' s2

  unfoldable pub run_all : List Child → Action w.State (Unit {0})
  unfolding start_all wait_all
  run_all children s =
      let (started, s1) = start_all (reverse children) 0 s in
      wait_all started.count started.result (o.close_pipes s1)

  -- For one command at least: without any the code panics. closePipes is deferred, and so is cancel.
  unfoldable pub pipeline : PipelineCommand → List PipelineCommand → Action w.State (Unit {0})
  unfolding set_up run_all
  pipeline spec specs s =
      let (result, s') = (set_up true (spec ∷ specs) >>= run_all) s in
      (result, o.cancel (o.close_pipes s'))
