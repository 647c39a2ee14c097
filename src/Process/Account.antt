-- ===== src/Process/Account.antt =====
-- internal/backup/process.go: an account of the processes that pipeline starts, up to the end of its
-- loop of starts.
use mathlib.Core.List.{reverse-cons}
use mongodb_backup_s.Base.{
  ◌≡◌, refl, sym, ◌∙◌, ap, ℕ, suc, length, length-append, ◌+◌, ◌-◌, Bool, true, false, List, [],
  ◌∷◌, reverse, Result, ok, err, Result-cases, inl, inr, arith, ok-injective, Option-cases,
}
use mongodb_backup_s.World.{World, Action, lift, command_error, ◌>>=◌, ◌>>◌, >>=-eq-ok, >>-eq-ok}
use mongodb_backup_s.Process.{Runner, Child}
use mongodb_backup_s.Process.Pipeline.{
  PipelineCommand, System, Started, command_of, pipe_before, set_up, start_all,
}

-- The processes that nobody has waited for yet, the starts, and the starts and ends that failed.
pub record Account : Type 0 where
  pub unwaited : ℕ
  pub starts : ℕ
  pub failures : ℕ

-- A start that fails leaves no process.
abbrev pub begun : Result (Unit {0}) → Account → Account
begun (ok u) a = record a { unwaited = suc a.unwaited; starts = suc a.starts }
begun (err e) a = record a { starts = suc a.starts; failures = suc a.failures }

abbrev pub waited : Result (Unit {0}) → Account → Account
waited (ok u) a = record a { unwaited = a.unwaited - 1 }
waited (err e) a = record a { unwaited = a.unwaited - 1; failures = suc a.failures }

pub command_error-eq-ok :
    (w : World) (r : Result (Unit {0})) (s : w.State) → command_error w r s ≡ ok tt → r ≡ ok tt
unfolding command_error
command_error-eq-ok w (ok u) s h = refl
command_error-eq-ok w (err e) s h = elim (Option-cases (w.ctx_err s)) [
  | inl none_yet ↦ cc (rw (none_yet, command_error) at h)
  | inr (cause, ended) ↦ cc (rw (ended, command_error) at h)
]

pub length-reverse {ℓ} : {A : Type ℓ} (xs : List A) → length (reverse xs) ≡ length xs
length-reverse [] = refl
length-reverse (x ∷ xs) =
    ap length (reverse-cons x xs)
    ∙ length-append (reverse xs) (x ∷ [])
    ∙ omega (arith, length-reverse xs)

module _ (w : World) (o : System w) where
  -- A system that keeps the account.
  pub record IsAccounted (account : w.State → Account) : Type 0 where
    pub started :
        (c : Child) (s : w.State) → account (o.start c s).1 ≡ begun (o.start c s).0 (account s)
    pub ended : (s : w.State) → account (o.wait s).1 ≡ waited (o.wait s).0 (account s)
    pub piped : (s : w.State) → account (o.make_pipe s).1 ≡ account s
    pub closed : (s : w.State) → account (o.close_pipes s) ≡ account s
    pub killed : (s : w.State) → account (o.cancel s) ≡ account s

  module _ (r : Runner) (account : w.State → Account) (a : IsAccounted account) where
    -- Setting up starts nothing.
    unfoldable pub Kept : {A : Type 0} → Action w.State A → w.State → Type 0
    Kept m s = account (m s).1 ≡ account s

    >>=-Kept :
        {A B : Type 0} (m : Action w.State A) (k : A → Action w.State B) (s : w.State)
        → Kept m s
        → ((x : A) (t : w.State) → Kept (k x) t)
        → Kept (m >>= k) s
    unfolding ◌>>=◌ Kept
    >>=-Kept m k s one next = elim (Result-cases (m s).0) [
      | inl (x, e) ↦ rw (e, ◌>>=◌) (next x (m s).1 ∙ one)
      | inr (x, e) ↦ rw (e, ◌>>=◌) one
    ]

    lift-Kept : {A : Type 0} (x : Result A) (s : w.State) → Kept (lift x) s
    unfolding lift Kept
    lift-Kept x s = refl

    command_of-Kept : (spec : PipelineCommand) (s : w.State) → Kept (command_of w o r spec) s
    unfolding command_of Kept
    command_of-Kept spec s = refl

    pipe_before-Kept : (first : Bool) (s : w.State) → Kept (pipe_before w o r first) s
    unfolding pipe_before lift Kept
    pipe_before-Kept true s = refl
    pipe_before-Kept false s = a.piped s

    pub set_up-Kept :
        (first : Bool) (specs : List PipelineCommand) (s : w.State)
        → Kept (set_up w o r first specs) s
    unfolding set_up ◌>>◌
    set_up-Kept first [] s = lift-Kept (ok []) s
    set_up-Kept first (spec ∷ specs) s =
        >>=-Kept (command_of w o r spec) _ s (command_of-Kept spec s) λ child t.
          >>=-Kept (pipe_before w o r first) _ t (pipe_before-Kept first t) λ u t1.
            >>=-Kept (set_up w o r false specs) _ t1 (set_up-Kept false specs t1)
              λ children t2. lift-Kept (ok (child ∷ children)) t2

    pub set_up-length :
        (first : Bool) (specs : List PipelineCommand) (s : w.State) (children : List Child)
        → (set_up w o r first specs s).0 ≡ ok children
        → length children ≡ length specs
    unfolding set_up lift
    set_up-length first [] s children h = ap length (sym (ok-injective h))
    set_up-length first (spec ∷ specs) s children h =
        let (child, _, h1) = >>=-eq-ok (command_of w o r spec) _ s h in
        let s1 = (command_of w o r spec s).1 in
        let (_, h2) = >>-eq-ok (pipe_before w o r first) _ s1 h1 in
        let s2 = (pipe_before w o r first s1).1 in
        let (more, e, h3) = >>=-eq-ok (set_up w o r false specs) _ s2 h2 in
        ap length (sym (ok-injective h3)) ∙ ap suc (set_up-length false specs s2 more e)

    -- What the loop that starts the commands has done.
    pub record Begun (children : List Child) (count : ℕ) (s : w.State) (st : Started) (s' : w.State)
        : Type 0 where
      pub counted : (account s').unwaited + count ≡ (account s).unwaited + st.count
      pub all :
          st.result ≡ ok tt
          → ((account s').failures ≡ (account s).failures)
            × ((account s').starts ≡ (account s).starts + length children)

    pub start_all-Begun :
        (children : List Child) (count : ℕ) (s : w.State)
        → Begun children count s
            (start_all w o r children count s).0
            (start_all w o r children count s).1
    unfolding start_all
    start_all-Begun [] count s = record { counted = refl; all = λ h. (refl, omega arith) }
    start_all-Begun (c ∷ children) count s = elim (Result-cases (o.start c s).0) [
      | inl (u, e) ↦
          let s1 = (o.start c s).1 in
          let now = a.started c s ∙ ap (λ x. begun x (account s)) e in
          let b = start_all-Begun children (suc count) s1 in
          let more : (account s1).unwaited ≡ suc (account s).unwaited =
            ap (λ (x : Account). x.unwaited) now in
          let one : (account s1).starts ≡ suc (account s).starts =
            ap (λ (x : Account). x.starts) now in
          let none_failed : (account s1).failures ≡ (account s).failures =
            ap (λ (x : Account). x.failures) now in
          rw (e, start_all)
            (record {
              counted = omega (arith, b.counted, more);
              all = λ h. ((b.all h).0 ∙ none_failed, omega (arith, (b.all h).1, one));
            })
      | inr (x, e) ↦
          let s1 = (o.start c s).1 in
          let now = a.killed s1 ∙ a.started c s ∙ ap (λ x. begun x (account s)) e in
          let same : (account (o.cancel s1)).unwaited ≡ (account s).unwaited =
            ap (λ (x : Account). x.unwaited) now in
          rw (e, start_all)
            (record {
              counted = omega (arith, same);
              all = λ h. cc (command_error-eq-ok w (err x) s1 h);
            })
    ]
