-- ===== src/Storage/Idle.antt =====
-- internal/storage/http.go: the connection that withIdleTimeout puts around one of the package net. The
-- connection of net and the clock are a record of operations on an unknown state.
use mongodb_backup_s.Base.{
  ◌≡◌, refl, sym, subst, ℕ, ◌+◌, Bool, true, false, List, [], ◌∷◌, Option, some, Bytes, codes,
  length, ltb, if◌then◌else◌, Error, Result, ok, err, Result-cases, inl, inr,
}
use mongodb_backup_s.Clock.{Instant}

pub record Connection : Type 1 where
  pub State : Type 0
  -- time.Now, SetDeadline, and Read and Write of net.Conn
  pub now : State → Instant
  pub set_deadline : Instant → State → Result (Unit {0}) × State
  pub read : ℕ → State → (Bytes × Option Error) × State
  pub write : Bytes → State → (ℕ × Option Error) × State

module _ (c : Connection) (timeout : ℕ) where
  -- `c.SetDeadline(time.Now().Add(c.timeout))`
  unfoldable pub arm : c.State → Result (Unit {0}) × c.State
  arm s = c.set_deadline (c.now s + timeout) s

  -- Behind a call that has moved bytes. The error is not looked at.
  unfoldable pub arm_again : ℕ → c.State → c.State
  unfolding arm
  arm_again n s = if ltb 0 n then (arm s).1 else s

  -- `idleConn.Read`
  unfoldable pub idle_read : ℕ → c.State → (Bytes × Option Error) × c.State
  unfolding arm_again
  idle_read size s =
      let (armed, s1) = arm s in
      let ((bytes, failure), s2) = c.read size s1 in
      elim armed [
        | err e ↦ (([], some e), s1)
        | ok _ ↦ ((bytes, failure), arm_again (length bytes) s2)
      ]

  -- `idleConn.Write`
  unfoldable pub idle_write : Bytes → c.State → (ℕ × Option Error) × c.State
  unfolding arm_again
  idle_write p s =
      let (armed, s1) = arm s in
      let ((n, failure), s2) = c.write p s1 in
      elim armed [ err e ↦ ((0, some e), s1) | ok _ ↦ ((n, failure), arm_again n s2) ]

-- What is known of a net.Conn: SetDeadline sets the deadlines of its reads and of its writes.
pub record IsConnection (c : Connection) : Type 0 where
  pub read_deadline : c.State → Instant
  pub write_deadline : c.State → Instant
  pub set :
      (t : Instant) (s : c.State)
      → (c.set_deadline t s).0 ≡ ok tt
      → (read_deadline (c.set_deadline t s).1 ≡ t) × (write_deadline (c.set_deadline t s).1 ≡ t)

module _ (c : Connection) (timeout : ℕ) (is : IsConnection c) where
  -- Both deadlines are the whole timeout away from a time.
  pub record IsArmed (t : Instant) (s : c.State) : Type 0 where
    pub for_reads : is.read_deadline s ≡ t + timeout
    pub for_writes : is.write_deadline s ≡ t + timeout

  arm-IsArmed : (s : c.State) → (arm c timeout s).0 ≡ ok tt → IsArmed (c.now s) (arm c timeout s).1
  unfolding arm
  arm-IsArmed s h =
      let (r, w) = is.set (c.now s + timeout) s h in record { for_reads = r; for_writes = w }

  -- A call of the connection, with its result and the bytes that it has moved, and how the
  -- call around it ends.
  pub record IsGuarded {A : Type 0} (call : c.State → A × c.State) (moved : A → ℕ) (s : c.State)
      (done : A × c.State) : Type 0 where
    pub before : c.State
    pub armed : IsArmed (c.now s) before
    pub same : done.0 ≡ (call before).0
    pub after :
        ltb 0 (moved done.0) ≡ true
        → (arm c timeout (call before).1).0 ≡ ok tt
        → IsArmed (c.now (call before).1) done.1

  guarded :
      {A : Type 0} (call : c.State → A × c.State) (moved : A → ℕ) (s : c.State)
      → (arm c timeout s).0 ≡ ok tt
      → IsGuarded call moved s (
        (call (arm c timeout s).1).0,
        arm_again c timeout (moved (call (arm c timeout s).1).0) (call (arm c timeout s).1).1,
      )
  unfolding arm_again
  guarded call moved s h = record {
    before = (arm c timeout s).1;
    armed = arm-IsArmed s h;
    same = refl;
    after = λ some_moved good. rw some_moved (arm-IsArmed (call (arm c timeout s).1).1 good);
  }

  read-of_ok :
      (size : ℕ) (s : c.State)
      → (arm c timeout s).0 ≡ ok tt
      → idle_read c timeout size s ≡ (
        (c.read size (arm c timeout s).1).0,
        arm_again c timeout
            (length (c.read size (arm c timeout s).1).0.0)
            (c.read size (arm c timeout s).1).1,
      )
  unfolding idle_read
  read-of_ok size s h = rw (h, idle_read) refl

  write-of_ok :
      (p : Bytes) (s : c.State)
      → (arm c timeout s).0 ≡ ok tt
      → idle_write c timeout p s ≡ (
        (c.write p (arm c timeout s).1).0,
        arm_again c timeout (c.write p (arm c timeout s).1).0.0 (c.write p (arm c timeout s).1).1,
      )
  unfolding idle_write
  write-of_ok p s h = rw (h, idle_write) refl

  -- How a Read and a Write end, by how the deadline has been set.
  abbrev pub Ends : ℕ → Bytes → c.State → Result (Unit {0}) → Type 0
  Ends size p s (ok u) =
      IsGuarded (c.read size) (λ r. length r.0) s (idle_read c timeout size s)
      × IsGuarded (c.write p) (λ r. r.0) s (idle_write c timeout p s)
  Ends size p s (err e) =
      (idle_read c timeout size s ≡ (([], some e), (arm c timeout s).1))
      × (idle_write c timeout p s ≡ ((0, some e), (arm c timeout s).1))

  -- If the deadline can be set, a Read and a Write reach the connection with both deadlines the whole timeout away,
  -- and return what it returns. A call that has moved at least a byte then leaves both deadlines the whole timeout
  -- away from its end, if they can be set, so that the progress of an upload keeps its read of the response
  -- alive. If the deadline cannot be set, they return this error, and nothing is read or written. The connection
  -- sets both deadlines at once.
  pub idle-IsGuarded : (size : ℕ) (p : Bytes) (s : c.State) → Ends size p s (arm c timeout s).0
  unfolding idle_read idle_write
  idle-IsGuarded size p s = elim (Result-cases (arm c timeout s).0) [
    | inl (u, h) ↦ subst (Ends size p s) (sym h) (
      subst (IsGuarded (c.read size) (λ r. length r.0) s) (sym (read-of_ok size s h))
          (guarded (c.read size) (λ r. length r.0) s h),
      subst (IsGuarded (c.write p) (λ r. r.0) s) (sym (write-of_ok p s h))
          (guarded (c.write p) (λ r. r.0) s h),
    )
    | inr (e, h) ↦ subst (Ends size p s) (sym h) (rw (h, idle_read) refl, rw (h, idle_write) refl)
  ]

-- What withIdleTimeout sets of a transport, and the connections that its dialer gives.
pub record Transport : Type 0 where
  pub force_http2 : Bool
  pub next_protocols : List Bytes
  -- the entries of TLSNextProto
  pub upgrades : List Bytes

unfoldable pub one_request : Transport → Transport
one_request tr = record tr {
  force_http2 = false;
  upgrades = [];
  next_protocols = codes "http/1.1" ∷ [];
}
