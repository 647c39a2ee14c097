-- ===== src/Pipes/Progress.antt =====
-- internal/backup/app.go: backupDatabase returns. Until it has returned, one of its goroutines can go on
-- without the outside.
use mongodb_backup_s.Base.{
  ◌≡◌, refl, ℕ, ◌≤◌, zero, suc, Bool, true, false, ◌||◌, not, ◌⊎◌, inl, inr, Bool-cases, List, [],
  ◌∷◌, Option, none, some, Bytes, is_empty, length, ltb, canceled, Result, ok, err, arith,
}
use mongodb_backup_s.Pipes.{
  write_out, Stage, running, ended, Caller, uploading, failing, waiting, returned, State, Move,
  write, end_produce, fail_produce, read, deliver, end_gpg, fail_gpg, clean_up, close_out,
  end_upload, fail_upload, close_reader, receive_done, is_running, is_uploading, is_failing,
  is_waiting, is_set, is_eof, enabled, apply, is_forced, Reachable, move,
}
use mongodb_backup_s.Pipes.Invariant.{Produced, Calls}
use mongodb_backup_s.Pipes.Kept.{Reachable-Inv}
use mongodb_backup_s.Pipes.Finite.{measure, apply-measure}

-- A move that is made without the outside.
pub record Forced (s : State) : Type 0 where
  pub next : Move
  pub can : enabled next s ≡ true
  pub must : is_forced next s ≡ true

-- While the upload reads and its pipe is open, the chunks flow.
flowing :
    (s : State)
    → Produced s.producer s.left s.write_closed
    → is_running s.gpg ≡ true
    → is_uploading s.caller ≡ true
    → is_set s.reader_closed ≡ false
    → Forced s
unfolding enabled is_forced is_running
flowing s p g u r = elim (Bool-cases (is_empty s.held)) [
  | inr e ↦ record { next = deliver; can = ground (arith, g, u, r, e); must = refl }
  | inl no_held ↦ elim (Bool-cases (is_empty s.buffer)) [
    | inr e ↦ record { next = read; can = ground (arith, g, e); must = refl }
    | inl no_buffer ↦ elim (Bool-cases s.write_closed) [
      | inl e ↦ record {
        next = end_gpg;
        can = ground (arith, g, no_held, no_buffer, e);
        must = refl;
      }
      | inr e ↦ producing e no_buffer
    ]
  ]
]
  where
    still_producing :
        (q : Stage)
        → s.write_closed ≡ false
        → Produced q s.left s.write_closed
        → is_running q ≡ true
    still_producing running e k = refl
    still_producing (ended (ok u)) e (_, closed) = cc
    still_producing (ended (err x)) e closed = cc

    room : (b : List Bytes) → is_empty b ≡ true → ltb (length b) 16 ≡ true
    room [] e = refl
    room (c ∷ b) e = cc

    producing : s.write_closed ≡ false → is_empty s.buffer ≡ true → Forced s
    producing e no_buffer =
        let running_on = still_producing s.producer e p in
        elim (Bool-cases (is_empty s.left)) [
          | inl none_left ↦ record {
            next = end_produce;
            can = ground (arith, running_on, none_left);
            must = refl;
          }
          | inr some_left ↦ record {
            next = write;
            can = ground (arith, running_on, some_left, e, room s.buffer no_buffer);
            must = refl;
          }
        ]

-- Without gpg the producer writes to the upload.
writing_out :
    (s : State)
    → is_running s.producer ≡ true
    → is_uploading s.caller ≡ true
    → s.plain ≡ true
    → is_set s.reader_closed ≡ false
    → Forced s
unfolding enabled is_forced
writing_out s e u plain r = elim (Bool-cases (is_empty s.left)) [
  | inl none_left ↦ record { next = end_produce; can = ground (arith, e, none_left); must = refl }
  | inr some_left ↦ record {
    next = write_out;
    can = ground (arith, e, some_left, plain, u, r);
    must = refl;
  }
]

-- The stream ends, once nobody reads it or while the upload does.
streaming :
    (s : State)
    → Produced s.producer s.left s.write_closed
    → (s.stopped ≡ true) ⊎ (is_uploading s.caller ≡ true)
    → is_set s.out ≡ false
    → Forced s
unfolding enabled is_forced
streaming s p reader none_yet = elim (Bool-cases s.cleaned) [
  | inl clean ↦ elim (Bool-cases (is_running s.producer)) [
    | inl e ↦ elim (Bool-cases (s.stopped || not s.plain || is_set s.reader_closed)) [
      | inl over ↦ record {
        next = fail_produce canceled;
        can = e;
        must = ground (arith, clean, over);
      }
      | inr on ↦ elim reader [
        | inl stopped ↦ let bad : true ≡ false = ground (arith, stopped, on) in cc bad
        | inr u ↦ writing_out s e u (ground (arith, on)) (ground (arith, on))
      ]
    ]
    | inr e ↦ record { next = close_out; can = ground (arith, clean, e, none_yet); must = refl }
  ]
  | inr unclean ↦ elim (Bool-cases (is_running s.gpg)) [
    | inr e ↦ record { next = clean_up; can = ground (arith, unclean, e); must = refl }
    | inl g ↦ elim (Bool-cases (s.stopped || is_set s.reader_closed)) [
      | inl e ↦ record { next = fail_gpg canceled; can = g; must = e }
      | inr e ↦ elim reader [
        | inl stopped ↦ let bad : true ≡ false = ground (arith, stopped, e) in cc bad
        | inr u ↦ flowing s p g u (ground (arith, e))
      ]
    ]
  ]
]

eof-is_set : (o : Option (Result (Unit {0}))) → is_eof o ≡ true → is_set o ≡ true
unfolding is_eof is_set
eof-is_set none h = cc
eof-is_set (some r) h = refl

abbrev Goes : State → Type 0
Goes s = ((r : Result (Unit {0})) × (s.caller ≡ returned r)) ⊎ Forced s

calling :
    (s : State) (m : Caller)
    → s.caller ≡ m
    → Produced s.producer s.left s.write_closed
    → Calls m s.out s.stopped s.reader_closed
    → Goes s
unfolding enabled is_forced is_uploading is_failing is_waiting
calling s uploading e p k = elim (Bool-cases (is_set s.out)) [
  | inr none_yet ↦ inr (streaming s p (inr (rw e refl)) none_yet)
  | inl done ↦ elim (Bool-cases (is_eof s.out)) [
    | inl eof ↦ inr (record { next = end_upload; can = rw (e, eof) refl; must = refl })
    | inr broken ↦ inr (record {
      next = fail_upload canceled;
      can = rw e refl;
      must = ground (arith, done, broken);
    })
  ]
]
calling s (failing x) e p k = inr (record { next = close_reader; can = rw e refl; must = refl })
calling s (waiting r) e p k = elim (Bool-cases (is_set s.out)) [
  | inl done ↦ inr (record { next = receive_done; can = rw (e, done) refl; must = refl })
  | inr none_yet ↦ inr (streaming s p (inl (unread r k none_yet)) none_yet)
]
  where
    unread :
        (r : Result (Unit {0}))
        → Calls (waiting r) s.out s.stopped s.reader_closed
        → is_set s.out ≡ false
        → s.stopped ≡ true
    unread (ok u) eof none_yet = cc (eof-is_set s.out eof, none_yet)
    unread (err x) (stopped, _) none_yet = stopped
calling s (returned r) e p k = inl (r, e)

-- No deadlock: in every state that a run can come to, backupDatabase has returned, or one of its goroutines
-- can go on without the outside. A producer that blocks on a full pipe, on a gpg that is gone, or
-- behind an upload that has failed, gets on by the closing of its pipe or by the end of its context.
pub progress :
    (plain : Bool) (chunks : List Bytes) (ms : List Move) (s : State)
    → Reachable plain chunks ms s
    → ((r : Result (Unit {0})) × (s.caller ≡ returned r)) ⊎ Forced s
progress plain chunks ms s run =
    let i = Reachable-Inv plain chunks run in calling s s.caller refl i.producer i.caller

-- A run goes on without the outside, its first move first.
pub data Continues : State → List Move → State → Type 0 where
  stay : (s : State) → Continues s [] s
  go :
      {s t : State} (m : Move) (ms : List Move)
      → enabled m s ≡ true
      → is_forced m s ≡ true
      → Continues (apply m s) ms t
      → Continues s (m ∷ ms) t

pub record Returns (s : State) : Type 0 where
  pub moves : List Move
  pub state : State
  pub continued : Continues s moves state
  pub result : Result (Unit {0})
  pub has_returned : state.caller ≡ returned result

at_end : (s : State) (r : Result (Unit {0})) → s.caller ≡ returned r → Returns s
at_end s r e = record { moves = []; state = s; continued = stay s; result = r; has_returned = e }

returning :
    (plain : Bool) (chunks : List Bytes) (fuel : ℕ) (ms : List Move) (s : State)
    → measure s ≤ fuel
    → Reachable plain chunks ms s
    → Returns s
returning plain chunks zero ms s enough run = elim (progress plain chunks ms s run) [
  | inl (r, e) ↦ at_end s r e
  | inr f ↦
      let less = apply-measure f.next s f.can in
      let bad : ⊥ = omega (arith, less, enough) in elim bad [ ]
]
returning plain chunks (suc fuel) ms s enough run = elim (progress plain chunks ms s run) [
  | inl (r, e) ↦ at_end s r e
  | inr f ↦
      let less = apply-measure f.next s f.can in
      let rest_of =
        returning plain chunks fuel (f.next ∷ ms) (apply f.next s) (omega (arith, less, enough))
          (move f.next ms s run f.can) in
      record {
        moves = f.next ∷ rest_of.moves;
        state = rest_of.state;
        continued = go f.next rest_of.moves f.can f.must rest_of.continued;
        result = rest_of.result;
        has_returned = rest_of.has_returned;
      }
]

-- backupDatabase returns: every run can go on to its return without the outside.
pub run-Returns :
    (plain : Bool) (chunks : List Bytes) (ms : List Move) (s : State)
    → Reachable plain chunks ms s
    → Returns s
run-Returns plain chunks ms s run = returning plain chunks (measure s) ms s (omega arith) run
