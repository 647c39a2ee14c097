-- ===== src/Pipes/Outcome.antt =====
-- internal/backup/app.go: what the goroutines of a backup have done when backupDatabase has its result.
use mongodb_backup_s.Base.{
  ◌≡◌, refl, sym, ◌∙◌, ap, Bool, true, false, List, [], ◌++◌, append-nil, Option, none, some, Bytes,
  Result, ok, err,
}
use mongodb_backup_s.Backup.{join}
use mongodb_backup_s.Backup.Database.{join-eq-ok}
use mongodb_backup_s.Pipes.{
  Stage, running, ended, Caller, waiting, returned, State, Move, is_running, is_eof, end_of,
  Reachable,
}
use mongodb_backup_s.Pipes.Invariant.{Produced, Sealed, Closed, Calls, Inv}
use mongodb_backup_s.Pipes.Kept.{Reachable-Inv}

-- The upload has succeeded.
unfoldable pub is_published : Caller → Bool
is_published (waiting (ok u)) = true
is_published (returned (ok u)) = true
is_published _ = false

ended_as : (p : Stage) → is_running p ≡ false → p ≡ ended (end_of p)
unfolding is_running end_of
ended_as running h = cc
ended_as (ended r) h = refl

-- The whole bundle, from its producer through gpg to the upload.
pub record IsWhole (chunks : List Bytes) (s : State) : Type 0 where
  pub received : s.received ≡ chunks
  pub producer : s.producer ≡ ended (ok tt)
  pub gpg : s.gpg ≡ ended (ok tt)

is_eof→≡ : (o : Option (Result (Unit {0}))) → is_eof o ≡ true → o ≡ some (ok tt)
unfolding is_eof
is_eof→≡ none h = cc
is_eof→≡ (some (ok u)) h = refl
is_eof→≡ (some (err e)) h = cc

all_empty :
    (a b c d chunks : List Bytes)
    → b ≡ []
    → c ≡ []
    → d ≡ []
    → a ++ (b ++ (c ++ d)) ≡ chunks
    → a ≡ chunks
all_empty a b c d chunks eb ec ed h = sym (append-nil a) ∙ (rw (eb, ec, ed) at h)

eof-IsWhole :
    (chunks : List Bytes) (s : State) → Inv chunks s → s.out ≡ some (ok tt) → IsWhole chunks s
eof-IsWhole chunks s i e =
    let (stopped, cleaned, joined_as) = rw (e, Closed) at i.out in
    let (good_gpg, good_producer) = join-eq-ok (end_of s.gpg) (end_of s.producer) (sym joined_as) in
    let producer = ended_as s.producer stopped ∙ ap ended good_producer in
    let gpg = ended_as s.gpg (i.cleaned cleaned) ∙ ap ended good_gpg in
    let (no_held, no_buffer, _) = rw (gpg, Sealed) at i.gpg in
    let (none_left, _) = rw (producer, Produced) at i.producer in
    record {
      received =
          all_empty s.received s.held s.buffer s.left chunks no_held no_buffer none_left
            i.conserved;
      producer = producer;
      gpg = gpg;
    }

Calls-eof :
    (m : Caller) (o : Option (Result (Unit {0}))) (s : State)
    → is_published m ≡ true
    → Calls m o s.stopped s.reader_closed
    → o ≡ some (ok tt)
unfolding is_published join
Calls-eof (waiting (ok u)) o s h k = is_eof→≡ o k
Calls-eof (returned (ok u)) o s h (ok v, done, e, r, same) = e ∙ ap some (same refl)
Calls-eof (returned (ok u)) o s h (err x, ok v, e, r, same) = cc
Calls-eof (returned (ok u)) o s h (err x, err y, e, r, same) = cc
Calls-eof _ o s h k = cc

-- In any interleaving of the goroutines, with failures of the outside at any point: an upload that has
-- succeeded has read the whole bundle, and its producer and gpg have ended without an error.
pub published-IsWhole :
    (plain : Bool) (chunks : List Bytes) (ms : List Move) (s : State)
    → Reachable plain chunks ms s
    → is_published s.caller ≡ true
    → IsWhole chunks s
published-IsWhole plain chunks ms s run h =
    let i = Reachable-Inv plain chunks run in
    eof-IsWhole chunks s i (Calls-eof s.caller s.out s h i.caller)

-- What a backup promises, told without goroutines: the producer, gpg and the upload end one after the other,
-- their errors are joined, and an upload that succeeds has the whole bundle.
pub record Spec (chunks received : List Bytes) (bundle sealed up r : Result (Unit {0}))
    : Type 0 where
  pub joined : r ≡ join up (join sealed bundle)
  pub whole : up ≡ ok tt → (received ≡ chunks) × (bundle ≡ ok tt) × (sealed ≡ ok tt)

-- Whatever the interleaving, a backupDatabase that has returned has done what the sequential account says:
-- the producer and gpg have ended, and its result is their errors joined behind that of the upload.
pub returned-Spec :
    (plain : Bool) (chunks : List Bytes) (ms : List Move) (s : State) (r : Result (Unit {0}))
    → Reachable plain chunks ms s
    → s.caller ≡ returned r
    → (bundle : Result (Unit {0})) × (sealed : Result (Unit {0})) × (up : Result (Unit {0}))
      × (s.producer ≡ ended bundle)
      × (s.gpg ≡ ended sealed)
      × Spec chunks s.received bundle sealed up r
unfolding end_of
returned-Spec plain chunks ms s r run e =
    let i = Reachable-Inv plain chunks run in
    let (up, done, out, outcome, same) = rw (e, Calls) at i.caller in
    let (stopped, cleaned, joined_as) = rw (out, Closed) at i.out in
    let whole : up ≡ ok tt → IsWhole chunks s =
      λ u. eof-IsWhole chunks s i (out ∙ ap some (same u)) in
    let producer = ended_as s.producer stopped in
    let gpg = ended_as s.gpg (i.cleaned cleaned) in
    (
      end_of s.producer,
      end_of s.gpg,
      up,
      producer,
      gpg,
      record {
        joined = outcome ∙ ap (join up) joined_as;
        whole = λ u. let w = whole u in (w.received, ap end_of w.producer, ap end_of w.gpg);
      },
    )
