-- ===== src/Process/Waited.antt =====
-- internal/backup/process.go: pipeline waits for every process that it starts, and takes none of their errors
-- for a success.
use mongodb_backup_s.Base.{
  ◌≡◌, refl, ◌∙◌, ap, ℕ, zero, suc, length, ◌+◌, ◌-◌, true, List, ◌∷◌, reverse, Result, ok, err,
  Result-cases, inl, inr, arith,
}
use mongodb_backup_s.World.{World, command_error, ◌>>=◌}
use mongodb_backup_s.Backup.Database.{join-eq-ok}
use mongodb_backup_s.Process.{Runner, Child}
use mongodb_backup_s.Process.Pipeline.{
  PipelineCommand, System, set_up, start_all, received, wait_all, run_all, pipeline,
}
use mongodb_backup_s.Process.Account.{
  Account, waited, command_error-eq-ok, IsAccounted, Kept, set_up-Kept, set_up-length,
  start_all-Begun, length-reverse,
}

module _ (w : World) (o : System w) (r : Runner) (account : w.State → Account)
    (a : IsAccounted w o account) where
  received-account :
      (result end : Result (Unit {0})) (s : w.State)
      → (account (received w o r result end s).1 ≡ account s)
        × ((received w o r result end s).0 ≡ ok tt → (result ≡ ok tt) × (end ≡ ok tt))
  unfolding received
  received-account result (ok u) s = (refl, λ h. (h, refl))
  received-account result (err e) s = (a.killed s, λ h. join-eq-ok result (err e) h)

  waited-failures :
      (end : Result (Unit {0})) (x : Account) → end ≡ ok tt → (waited end x).failures ≡ x.failures
  waited-failures (ok u) x h = refl
  waited-failures (err e) x h = cc

  waited-kept :
      (end : Result (Unit {0})) (x : Account)
      → ((waited end x).unwaited ≡ x.unwaited - 1) × ((waited end x).starts ≡ x.starts)
  waited-kept (ok u) x = (refl, refl)
  waited-kept (err e) x = (refl, refl)

  -- The loop that waits.
  record Ended (n : ℕ) (result : Result (Unit {0})) (s : w.State) (last : Result (Unit {0}))
      (s' : w.State) : Type 0 where
    counted : (account s').unwaited ≡ (account s).unwaited - n
    starts : (account s').starts ≡ (account s).starts
    all : last ≡ ok tt → (result ≡ ok tt) × ((account s').failures ≡ (account s).failures)

  wait_all-Ended :
      (n : ℕ) (result : Result (Unit {0})) (s : w.State)
      → Ended n result s (wait_all w o r n result s).0 (wait_all w o r n result s).1
  unfolding wait_all
  wait_all-Ended zero result s = record {
    counted = omega arith;
    starts = refl;
    all = λ h. (h, refl);
  }
  wait_all-Ended (suc n) result s =
      let end = (o.wait s).0 in
      let s1 = (o.wait s).1 in
      let told = command_error w end s1 in
      let (kept, both) = received-account result told s1 in
      let s2 = (received w o r result told s1).1 in
      let rest = wait_all-Ended n (received w o r result told s1).0 s2 in
      let now = kept ∙ a.ended s in
      let (one, same) = waited-kept end (account s) in
      let fewer : (account s2).unwaited ≡ (account s).unwaited - 1 =
        ap (λ (x : Account). x.unwaited) now ∙ one in
      let still : (account s2).starts ≡ (account s).starts =
        ap (λ (x : Account). x.starts) now ∙ same in
      record {
        counted = omega (arith, rest.counted, fewer);
        starts = rest.starts ∙ still;
        all = λ h.
            let (good, kept_on) = rest.all h in
            let (before, end_told) = both good in
            let fine = waited-failures end (account s) (command_error-eq-ok w end s1 end_told) in
            (before, kept_on ∙ ap (λ (x : Account). x.failures) now ∙ fine);
      }

  -- A pipeline that has run.
  pub record IsWaited (specs : List PipelineCommand) (s : w.State) (result : Result (Unit {0}))
      (s' : w.State) : Type 0 where
    pub none_left : (account s').unwaited ≡ (account s).unwaited
    pub all_good :
        result ≡ ok tt
        → ((account s').failures ≡ (account s).failures)
          × ((account s').starts ≡ (account s).starts + length specs)

  run_all-IsWaited :
      (children : List Child) (s : w.State)
      → ((account (run_all w o r children s).1).unwaited ≡ (account s).unwaited)
        × ((run_all w o r children s).0 ≡ ok tt
            → ((account (run_all w o r children s).1).failures ≡ (account s).failures)
              × ((account (run_all w o r children s).1).starts
                  ≡ (account s).starts + length children))
  unfolding run_all
  run_all-IsWaited children s =
      let b = start_all-Begun w o r account a (reverse children) 0 s in
      let st = (start_all w o r (reverse children) 0 s).0 in
      let s1 = (start_all w o r (reverse children) 0 s).1 in
      let closed = a.closed s1 in
      let e = wait_all-Ended st.count st.result (o.close_pipes s1) in
      let unwaited : (account (o.close_pipes s1)).unwaited ≡ (account s1).unwaited =
        ap (λ (x : Account). x.unwaited) closed in
      let starts : (account (o.close_pipes s1)).starts ≡ (account s1).starts =
        ap (λ (x : Account). x.starts) closed in
      (
        omega (arith, b.counted, e.counted, unwaited),
        λ h.
            let (began, fine) = e.all h in
            let (none_failed, all_started) = b.all began in
            (
              fine ∙ ap (λ (x : Account). x.failures) closed ∙ none_failed,
              e.starts
                  ∙ starts
                  ∙ all_started
                  ∙ ap (λ n. (account s).starts + n) (length-reverse children),
            ),
      )

  -- Behind the end, the pipes are closed and the processes are cancelled.
  shut :
      (specs : List PipelineCommand) (s : w.State) (result : Result (Unit {0})) (t : w.State)
      → (account t).unwaited ≡ (account s).unwaited
      → (result ≡ ok tt
          → ((account t).failures ≡ (account s).failures)
            × ((account t).starts ≡ (account s).starts + length specs))
      → IsWaited specs s result (o.cancel (o.close_pipes t))
  shut specs s result t left good =
      let same = a.killed (o.close_pipes t) ∙ a.closed t in
      record {
        none_left = ap (λ (x : Account). x.unwaited) same ∙ left;
        all_good = λ h.
            let (none_failed, all_started) = good h in
            (
              ap (λ (x : Account). x.failures) same ∙ none_failed,
              ap (λ (x : Account). x.starts) same ∙ all_started,
            );
      }

  -- pipeline leaves no process that nobody has waited for, however it ends. If it ends without an error, all of
  -- its commands have been started, and no start and no process has failed. The system keeps account of its
  -- starts and ends.
  pub pipeline-IsWaited :
      (spec : PipelineCommand) (specs : List PipelineCommand) (s : w.State)
      → IsWaited (spec ∷ specs) s (pipeline w o r spec specs s).0 (pipeline w o r spec specs s).1
  unfolding pipeline Kept ◌>>=◌
  pipeline-IsWaited spec specs s =
      let all_specs = spec ∷ specs in
      let s1 = (set_up w o r true all_specs s).1 in
      elim (Result-cases (set_up w o r true all_specs s).0) [
        | inl (children, e) ↦
            let (left, good) = run_all-IsWaited children s1 in
            rw (e, ◌>>=◌)
              (shut all_specs s (run_all w o r children s1).0 (run_all w o r children s1).1
                (left
                  ∙ ap (λ (x : Account). x.unwaited) (set_up-Kept w o r account a true all_specs s))
                (λ h.
                  let (none_failed, all_started) = good h in
                  (
                    none_failed
                        ∙ ap (λ (x : Account). x.failures)
                            (set_up-Kept w o r account a true all_specs s),
                    all_started
                        ∙ ap (λ (x : Account). x.starts + length children)
                            (set_up-Kept w o r account a true all_specs s)
                        ∙ ap (λ n. (account s).starts + n)
                            (set_up-length w o r account a true all_specs s children e),
                  )))
        | inr (x, e) ↦
            rw (e, ◌>>=◌)
              (shut all_specs s (err x) s1
                (ap (λ (x : Account). x.unwaited) (set_up-Kept w o r account a true all_specs s))
                (λ h. cc h))
      ]
