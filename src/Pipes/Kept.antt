-- ===== src/Pipes/Kept.antt =====
-- internal/backup/app.go: each move of the goroutines of a backup keeps what holds of them.
use mongodb_backup_s.Base.{
  [], ◌≡◌, refl, sym, ◌∙◌, ap, subst, Bool, true, false, List, ◌++◌, append_assoc, Option, some,
  Bytes, Error, canceled, Result, ok, err, arith,
}
use mongodb_backup_s.Pipes.{
  Stage, ended, Caller, failing, waiting, returned, State, Move, write, write_out, end_produce,
  fail_produce, read, deliver, end_gpg, fail_gpg, clean_up, close_out, end_upload, fail_upload,
  close_reader, receive_done, stop, after_stop, after_stop_inner, is_running, enabled, front, rest,
  encrypted, failure_of, outcome, or_else, apply, initial, Reachable, begin, move,
}
use mongodb_backup_s.Pipes.Invariant.{
  is_running→≡, is_empty→≡, front-rest, moved, Produced, Sealed, Closed, Calls, Inv, Produced-close,
  Sealed-close, Sealed-open, Closed-running, Closed-gpg, Closed-clean, Calls-out, Calls-stop,
  Calls-reader, is_set-or_else, Calls-done,
}

module _ (chunks : List Bytes) (s : State) (i : Inv chunks s) where
  -- Chunks that have gone a step on.
  with_chunks :
      (left buffer held received : List Bytes)
      → received ++ (held ++ (buffer ++ left)) ≡ s.received ++ (s.held ++ (s.buffer ++ s.left))
      → Produced s.producer left s.write_closed
      → Sealed s.gpg held buffer s.write_closed
      → Inv chunks (record s { left = left; buffer = buffer; held = held; received = received })
  with_chunks left buffer held received same p g = record {
    direct = i.direct;
    conserved = same ∙ i.conserved;
    producer = p;
    gpg = g;
    cleaned = i.cleaned;
    out = i.out;
    caller = i.caller;
  }

  -- The end of the producer.
  with_producer :
      (p : Stage)
      → Produced p s.left true
      → is_running s.producer ≡ true
      → Inv chunks (record s { producer = p; write_closed = true })
  with_producer p h was = record {
    direct = i.direct;
    conserved = i.conserved;
    producer = h;
    gpg = Sealed-close s.gpg s.held s.buffer s.write_closed i.gpg;
    cleaned = i.cleaned;
    out = Closed-running s.out s.producer p s.gpg s.cleaned was i.out;
    caller = i.caller;
  }

  -- The end of gpg.
  with_gpg :
      (r : Result (Unit {0}))
      → Sealed (ended r) s.held s.buffer s.write_closed
      → is_running s.gpg ≡ true
      → Inv chunks (record s { gpg = ended r })
  unfolding is_running
  with_gpg r h was = record {
    direct = λ e. cc (ap is_running (i.direct e), was);
    conserved = i.conserved;
    producer = i.producer;
    gpg = h;
    cleaned = λ e. refl;
    out = Closed-gpg s.out s.producer s.gpg (ended r) s.cleaned was i.cleaned i.out;
    caller = i.caller;
  }

  -- The end of both behind them.
  with_ends :
      (cleaned : Bool) (out : Option (Result (Unit {0})))
      → (cleaned ≡ true → is_running s.gpg ≡ false)
      → Closed out s.producer s.gpg cleaned
      → Calls s.caller out s.stopped s.reader_closed
      → Inv chunks (record s { cleaned = cleaned; out = out })
  with_ends cleaned out c o k = record {
    direct = i.direct;
    conserved = i.conserved;
    producer = i.producer;
    gpg = i.gpg;
    cleaned = c;
    out = o;
    caller = k;
  }

  with_closed : Inv chunks (record s { write_closed = true })
  with_closed = record {
    direct = i.direct;
    conserved = i.conserved;
    producer = Produced-close s.producer s.left s.write_closed i.producer;
    gpg = Sealed-close s.gpg s.held s.buffer s.write_closed i.gpg;
    cleaned = i.cleaned;
    out = i.out;
    caller = i.caller;
  }

  with_caller :
      (m : Caller) (stopped : Bool) (reader : Option Error)
      → Calls m s.out stopped reader
      → Inv chunks (record s { caller = m; stopped = stopped; reader_closed = reader })
  with_caller m stopped reader k = record {
    direct = i.direct;
    conserved = i.conserved;
    producer = i.producer;
    gpg = i.gpg;
    cleaned = i.cleaned;
    out = i.out;
    caller = k;
  }

producer-Inv :
    (chunks : List Bytes) (s : State) (i : Inv chunks s)
    → enabled write s ≡ true
    → Inv chunks (apply write s)
unfolding apply enabled
producer-Inv chunks s i h =
    let producing = is_running→≡ s.producer (ground (arith, h)) in
    let unclosed : s.write_closed ≡ false = ground (arith, h) in
    with_chunks chunks s i (rest s.left) (s.buffer ++ front s.left) s.held s.received
      (ap (λ x. s.received ++ (s.held ++ x))
        (append_assoc s.buffer (front s.left) (rest s.left)
          ∙ ap (λ x. s.buffer ++ x) (front-rest s.left)))
      (subst (λ p. Produced p (rest s.left) s.write_closed) (sym producing) tt)
      (Sealed-open s.gpg s.held s.buffer (s.buffer ++ front s.left) s.write_closed unclosed i.gpg)

direct_out :
    (received held buffer left : List Bytes)
    → held ≡ []
    → buffer ≡ []
    → (received ++ front left) ++ (held ++ (buffer ++ rest left))
      ≡ received ++ (held ++ (buffer ++ left))
direct_out received held buffer left no_held no_buffer =
    rw (no_held, no_buffer)
      (append_assoc received (front left) (rest left) ∙ ap (λ x. received ++ x) (front-rest left))

direct-Inv :
    (chunks : List Bytes) (s : State) (i : Inv chunks s)
    → enabled write_out s ≡ true
    → Inv chunks (apply write_out s)
unfolding apply enabled
direct-Inv chunks s i h =
    let producing = is_running→≡ s.producer (ground (arith, h)) in
    let (no_held, no_buffer, _) = rw (i.direct (ground (arith, h)), Sealed) at i.gpg in
    with_chunks chunks s i (rest s.left) s.buffer s.held (s.received ++ front s.left)
      (direct_out s.received s.held s.buffer s.left no_held no_buffer)
      (subst (λ p. Produced p (rest s.left) s.write_closed) (sym producing) tt) i.gpg

gpg-Inv :
    (chunks : List Bytes) (s : State) (i : Inv chunks s) (buffer held received : List Bytes)
    → received ++ (held ++ (buffer ++ s.left)) ≡ s.received ++ (s.held ++ (s.buffer ++ s.left))
    → is_running s.gpg ≡ true
    → Inv chunks (record s { buffer = buffer; held = held; received = received })
gpg-Inv chunks s i buffer held received same was =
    with_chunks chunks s i s.left buffer held received same i.producer
      (subst (λ g. Sealed g held buffer s.write_closed) (sym (is_running→≡ s.gpg was)) tt)

apply-Inv :
    (chunks : List Bytes) (m : Move) (s : State)
    → Inv chunks s
    → enabled m s ≡ true
    → Inv chunks (apply m s)
unfolding apply enabled
apply-Inv chunks write s i h = producer-Inv chunks s i h
apply-Inv chunks write_out s i h = direct-Inv chunks s i h
apply-Inv chunks end_produce s i h =
    with_producer chunks s i (ended (ok tt)) (is_empty→≡ s.left (ground (arith, h)), refl)
      (ground (arith, h))
apply-Inv chunks (fail_produce e) s i h = with_producer chunks s i (ended (err e)) refl h
apply-Inv chunks read s i h =
    gpg-Inv chunks s i (rest s.buffer) (s.held ++ front s.buffer) s.received
      (ap (λ x. s.received ++ x) (moved s.held s.buffer s.left)) (ground (arith, h))
apply-Inv chunks deliver s i h =
    gpg-Inv chunks s i s.buffer (rest s.held) (s.received ++ front s.held)
      (moved s.received s.held (s.buffer ++ s.left)) (ground (arith, h))
apply-Inv chunks end_gpg s i h =
    with_gpg chunks s i (ok tt)
      (
        is_empty→≡ s.held (ground (arith, h)),
        is_empty→≡ s.buffer (ground (arith, h)),
        ground (arith, h),
      )
      (ground (arith, h))
apply-Inv chunks (fail_gpg e) s i h = with_gpg chunks s i (err e) tt h
apply-Inv chunks clean_up s i h =
    let closed = with_closed chunks s i in
    with_ends chunks (record s { write_closed = true }) closed true s.out (λ e. ground (arith, h))
      (Closed-clean s.out s.producer s.gpg s.cleaned i.out) i.caller
apply-Inv chunks close_out s i h =
    with_ends chunks s i s.cleaned (some (encrypted s)) i.cleaned
      (ground (arith, h), ground (arith, h), refl)
      (Calls-out s.caller s.out (encrypted s) s.stopped s.reader_closed (ground (arith, h))
        i.caller)
apply-Inv chunks end_upload s i h =
    with_caller chunks s i (waiting (ok tt)) s.stopped s.reader_closed (ground (arith, h))
apply-Inv chunks (fail_upload e) s i h =
    with_caller chunks s i (failing e) s.stopped s.reader_closed tt
apply-Inv chunks close_reader s i h =
    let e = failure_of s.caller in
    with_caller chunks s i (waiting (err e)) true (or_else s.reader_closed e)
      (refl, is_set-or_else s.reader_closed e)
apply-Inv chunks receive_done s i h =
    with_caller chunks s i (returned (outcome s.caller s.out)) s.stopped s.reader_closed (
      Calls-done s.caller s.out s.stopped s.reader_closed (ground (arith, h)) (ground (arith, h))
        i.caller)
apply-Inv chunks stop s i h =
    with_caller chunks s i s.caller true s.reader_closed
      (Calls-stop s.caller s.out s.stopped s.reader_closed i.caller)
apply-Inv chunks after_stop s i h =
    with_caller chunks s i s.caller s.stopped (some canceled)
      (Calls-reader s.caller s.out s.stopped s.reader_closed canceled i.caller)
apply-Inv chunks after_stop_inner s i h = with_closed chunks s i

initial-Inv : (plain : Bool) (chunks : List Bytes) → Inv chunks (initial plain chunks)
unfolding is_running
initial-Inv true chunks = record {
  direct = λ e. refl;
  conserved = refl;
  producer = tt;
  gpg = (refl, refl, refl);
  cleaned = λ e. refl;
  out = tt;
  caller = tt;
}
initial-Inv false chunks = record {
  direct = λ e. cc;
  conserved = refl;
  producer = tt;
  gpg = tt;
  cleaned = λ e. cc;
  out = tt;
  caller = tt;
}

pub Reachable-Inv :
    (plain : Bool) (chunks : List Bytes) {ms : List Move} {s : State}
    → Reachable plain chunks ms s
    → Inv chunks s
Reachable-Inv plain chunks begin = initial-Inv plain chunks
Reachable-Inv plain chunks (move m ms s run h) =
    apply-Inv chunks m s (Reachable-Inv plain chunks run) h
