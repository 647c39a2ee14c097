-- ===== src/Pipes/Invariant.antt =====
-- internal/backup/app.go: what holds of the goroutines of a backup in all their interleavings.
use mongodb_backup_s.Base.{
  ◌≡◌, refl, sym, ◌∙◌, ap, Bool, true, false, List, [], ◌∷◌, ◌++◌, append_assoc, Option, none, some,
  Bytes, is_empty, Error, Result, ok, err,
}
use mongodb_backup_s.Backup.{join}
use mongodb_backup_s.Pipes.{
  Stage, running, ended, Caller, uploading, failing, waiting, returned, State, is_running,
  is_waiting, is_set, is_eof, front, rest, end_of, outcome, or_else,
}

pub is_running→≡ : (p : Stage) → is_running p ≡ true → p ≡ running
unfolding is_running
is_running→≡ running h = refl
is_running→≡ (ended r) h = cc

pub is_empty→≡ : (cs : List Bytes) → is_empty cs ≡ true → cs ≡ []
is_empty→≡ [] h = refl
is_empty→≡ (c ∷ cs) h = cc

pub front-rest : (cs : List Bytes) → front cs ++ rest cs ≡ cs
unfolding front rest
front-rest [] = refl
front-rest (c ∷ cs) = refl

-- Moving the first chunk on.
pub moved : (a b c : List Bytes) → (a ++ front b) ++ (rest b ++ c) ≡ a ++ (b ++ c)
moved a b c =
    append_assoc a (front b) (rest b ++ c)
    ∙ ap (λ x. a ++ x) (sym (append_assoc (front b) (rest b) c) ∙ ap (λ x. x ++ c) (front-rest b))

-- What has ended leaves nothing behind, and closes the pipe.
abbrev pub Produced : Stage → List Bytes → Bool → Type 0
Produced running left closed = Unit
Produced (ended (ok u)) left closed = (left ≡ []) × (closed ≡ true)
Produced (ended (err e)) left closed = closed ≡ true

abbrev pub Sealed : Stage → List Bytes → List Bytes → Bool → Type 0
Sealed (ended (ok u)) held buffer closed = (held ≡ []) × (buffer ≡ []) × (closed ≡ true)
Sealed _ held buffer closed = Unit

abbrev pub Closed : Option (Result (Unit {0})) → Stage → Stage → Bool → Type 0
Closed none producer gpg cleaned = Unit
Closed (some done) producer gpg cleaned =
    (is_running producer ≡ false) × (cleaned ≡ true) × (done ≡ join (end_of gpg) (end_of producer))

-- The outcome is the error of the upload joined with that of the stream, which there is none of behind an
-- upload that succeeded.
abbrev pub Outcome : Option (Result (Unit {0})) → Result (Unit {0}) → Type 0
Outcome out r =
    (up : Result (Unit {0})) × (done : Result (Unit {0})) × (out ≡ some done)
    × (r ≡ join up done)
    × (up ≡ ok tt → done ≡ ok tt)

abbrev pub Calls : Caller → Option (Result (Unit {0})) → Bool → Option Error → Type 0
Calls (waiting (ok u)) out stopped reader = is_eof out ≡ true
Calls (waiting (err e)) out stopped reader = (stopped ≡ true) × (is_set reader ≡ true)
Calls (returned r) out stopped reader = Outcome out r
Calls _ out stopped reader = Unit

pub record Inv (chunks : List Bytes) (s : State) : Type 0 where
  pub direct : s.plain ≡ true → s.gpg ≡ ended (ok tt)
  pub conserved : s.received ++ (s.held ++ (s.buffer ++ s.left)) ≡ chunks
  pub producer : Produced s.producer s.left s.write_closed
  pub gpg : Sealed s.gpg s.held s.buffer s.write_closed
  pub cleaned : s.cleaned ≡ true → is_running s.gpg ≡ false
  pub out : Closed s.out s.producer s.gpg s.cleaned
  pub caller : Calls s.caller s.out s.stopped s.reader_closed

pub Produced-close :
    (p : Stage) (left : List Bytes) (c : Bool) → Produced p left c → Produced p left true
Produced-close running left c h = tt
Produced-close (ended (ok u)) left c (e, _) = (e, refl)
Produced-close (ended (err e)) left c h = refl

pub Sealed-close :
    (g : Stage) (held buffer : List Bytes) (c : Bool)
    → Sealed g held buffer c
    → Sealed g held buffer true
Sealed-close running held buffer c h = tt
Sealed-close (ended (ok u)) held buffer c (e, e', _) = (e, e', refl)
Sealed-close (ended (err e)) held buffer c h = tt

-- While the pipe is open, gpg has not ended well.
pub Sealed-open :
    (g : Stage) (held buffer buffer' : List Bytes) (c : Bool)
    → c ≡ false
    → Sealed g held buffer c
    → Sealed g held buffer' c
Sealed-open running held buffer buffer' c unclosed h = tt
Sealed-open (ended (ok u)) held buffer buffer' c unclosed (_, _, closed) = cc
Sealed-open (ended (err e)) held buffer buffer' c unclosed h = tt

pub Closed-running :
    (o : Option (Result (Unit {0}))) (p p' g : Stage) (c : Bool)
    → is_running p ≡ true
    → Closed o p g c
    → Closed o p' g c
Closed-running none p p' g c h k = tt
Closed-running (some done) p p' g c h (stopped, _, _) = cc

pub Closed-gpg :
    (o : Option (Result (Unit {0}))) (p g g' : Stage) (c : Bool)
    → is_running g ≡ true
    → (c ≡ true → is_running g ≡ false)
    → Closed o p g c
    → Closed o p g' c
Closed-gpg none p g g' c h cleaned k = tt
Closed-gpg (some done) p g g' c h cleaned (_, e, _) = cc (cleaned e)

pub Closed-clean :
    (o : Option (Result (Unit {0}))) (p g : Stage) (c : Bool) → Closed o p g c → Closed o p g true
Closed-clean none p g c k = tt
Closed-clean (some done) p g c (e, _, e') = (e, refl, e')

pub Calls-out :
    (m : Caller) (o : Option (Result (Unit {0}))) (d : Result (Unit {0})) (stopped : Bool)
    (reader : Option Error)
    → is_set o ≡ false
    → Calls m o stopped reader
    → Calls m (some d) stopped reader
unfolding is_set is_eof
Calls-out uploading o d stopped reader h k = tt
Calls-out (failing e) o d stopped reader h k = tt
Calls-out (waiting (ok u)) none d stopped reader h k = cc
Calls-out (waiting (ok u)) (some d') d stopped reader h k = cc
Calls-out (waiting (err e)) o d stopped reader h k = k
Calls-out (returned r) none d stopped reader h (_, _, e, _, _) = cc
Calls-out (returned r) (some d') d stopped reader h k = cc

pub Calls-stop :
    (m : Caller) (o : Option (Result (Unit {0}))) (stopped : Bool) (reader : Option Error)
    → Calls m o stopped reader
    → Calls m o true reader
Calls-stop uploading o stopped reader k = tt
Calls-stop (failing e) o stopped reader k = tt
Calls-stop (waiting (ok u)) o stopped reader k = k
Calls-stop (waiting (err e)) o stopped reader (_, k) = (refl, k)
Calls-stop (returned r) o stopped reader k = k

pub Calls-reader :
    (m : Caller) (o : Option (Result (Unit {0}))) (stopped : Bool) (reader : Option Error)
    (e : Error)
    → Calls m o stopped reader
    → Calls m o stopped (some e)
unfolding is_set
Calls-reader uploading o stopped reader e k = tt
Calls-reader (failing e') o stopped reader e k = tt
Calls-reader (waiting (ok u)) o stopped reader e k = k
Calls-reader (waiting (err e')) o stopped reader e (k, _) = (k, refl)
Calls-reader (returned r) o stopped reader e k = k

pub is_set-or_else : {A : Type 0} (o : Option A) (a : A) → is_set (or_else o a) ≡ true
unfolding is_set or_else
is_set-or_else none a = refl
is_set-or_else (some b) a = refl

pub Calls-done :
    (m : Caller) (o : Option (Result (Unit {0}))) (stopped : Bool) (reader : Option Error)
    → is_waiting m ≡ true
    → is_set o ≡ true
    → Calls m o stopped reader
    → Outcome o (outcome m o)
unfolding is_waiting is_set is_eof outcome
Calls-done uploading o stopped reader w h k = cc
Calls-done (failing e) o stopped reader w h k = cc
Calls-done (returned r) o stopped reader w h k = cc
Calls-done (waiting r) none stopped reader w h k = cc
Calls-done (waiting (ok u)) (some (ok v)) stopped reader w h k =
    (ok tt, ok tt, refl, refl, λ e. refl)
Calls-done (waiting (ok u)) (some (err e)) stopped reader w h k = cc
Calls-done (waiting (err e)) (some d) stopped reader w h k = (err e, d, refl, refl, λ e. cc)
