-- ===== src/Retention/Deletes.antt =====
-- internal/backup/app.go, removeOldBackups: what it may delete.
use mongodb_backup_s.Base.{
  ◌<◌, ◌≡◌, refl, Bool, true, false, List, [], ◌∷◌, Bytes, ltb, ◌==◌, any, keep, All, All-map,
  arith, Bool-cases, inl, inr, modification_time_missing, ok, fail_if, subst, ok-injective,
}
use mongodb_backup_s.Clock.{Instant}
use mongodb_backup_s.Config.{Config}
use mongodb_backup_s.Keys.{timestamp_prefix, is_timestamp_backup}
use mongodb_backup_s.World.{World, Object, lift, check_ctx, >>=-eq-ok, lift-fail_if-eq-ok}
use mongodb_backup_s.Trace.{Event, deleted, delete_failed, Run, silent}
use mongodb_backup_s.Trace.Extends.{Adds, >>=-Adds, >>-Adds, silent-Adds, lift-Adds, delete-Adds}
use mongodb_backup_s.Retention.{timestamp_backups, delete_if, delete_old, remove_old_backups}

-- An object of a list.
pub data Lists (o : Object) : List Object → Type 0 where
  first : {os : List Object} → Lists o (o ∷ os)
  later : {p : Object} {os : List Object} → Lists o os → Lists o (p ∷ os)

pub All-Lists : (P : Object → Type 0) {o : Object} (os : List Object) → All P os → Lists o os → P o
All-Lists P [] h l = elim l [ ]
All-Lists P (o ∷ os) (p, h) first = p
All-Lists P (o ∷ os) (p, h) (later l) = All-Lists P os h l

pub keep-Lists :
    (p : Object → Bool) (os objects : List Object)
    → ((o : Object) → Lists o os → Lists o objects)
    → All (λ o. Lists o objects × (p o ≡ true)) (keep p os)
keep-Lists p [] objects sub = tt
keep-Lists p (o ∷ os) objects sub = elim (Bool-cases (p o)) [
  | inl e ↦ rw e ((sub o first, e), keep-Lists p os objects (λ x l. sub x (later l)))
  | inr e ↦ rw e (keep-Lists p os objects (λ x l. sub x (later l)))
]

module _ (w : World) (c : Config) where
  module _ (P : Event → Type 0) (cutoff : Instant) where
    delete_if-Adds :
        (old : Bool) (key : Bytes) (r : Run w)
        → (old ≡ true → P (deleted key) × P (delete_failed key))
        → Adds w P (delete_if w c old key) r
    unfolding delete_if
    delete_if-Adds true key r h = delete-Adds w P key r (h refl).0 (h refl).1
    delete_if-Adds false key r h = lift-Adds w P (ok tt) r

    pub delete_old-Adds :
        (objects : List Object) (r : Run w)
        → All (λ o. o.last_modified < cutoff → P (deleted o.key) × P (delete_failed o.key)) objects
        → Adds w P (delete_old w c cutoff objects) r
    unfolding delete_old
    delete_old-Adds [] r h = lift-Adds w P (ok tt) r
    delete_old-Adds (o ∷ objects) r (ho, h) =
        >>-Adds w P (silent w (check_ctx w)) _ r (silent-Adds w P (check_ctx w) r) λ _.
          >>-Adds w P (delete_if w c (ltb o.last_modified cutoff) o.key) _ _
            (delete_if-Adds (ltb o.last_modified cutoff) o.key _ (λ e. ho (ground arith)))
            λ _. delete_old-Adds objects _ h

  -- The store has listed an object of this key that is a timestamp backup of the database, with a
  -- modification time before the cutoff.
  abbrev pub Expired : Bytes → Instant → w.State → Bytes → Type 0
  Expired database cutoff env key =
      (o : Object) × (objects : List Object) × ((w.list (timestamp_prefix c database) env).0
        ≡ ok objects)
      × Lists o objects
      × (o.key ≡ key)
      × (is_timestamp_backup c database key ≡ true)
      × (0 < o.last_modified)
      × (o.last_modified < cutoff)

  -- The events of a retention: it deletes, or tries to, what has expired, and does nothing else.
  abbrev pub Retains : Bytes → Instant → w.State → Event → Type 0
  Retains database cutoff env (deleted key) = Expired database cutoff env key
  Retains database cutoff env (delete_failed key) = Expired database cutoff env key
  Retains database cutoff env _ = ⊥

  nonzero :
      (os : List Object)
      → any (λ o. o.last_modified == 0) os ≡ false
      → All (λ o. 0 < o.last_modified) os
  nonzero [] h = tt
  nonzero (o ∷ os) h = (ground arith, nonzero os (ground arith))

  -- What `timestamp_backups` returns.
  timestamp_backups_sound :
      (database : Bytes) (r : Run w) (found : List Object)
      → (timestamp_backups w c database r).0 ≡ ok found
      → (objects : List Object) × ((w.list (timestamp_prefix c database) r.env).0 ≡ ok objects)
        × All (λ o. Lists o objects × (is_timestamp_backup c database o.key ≡ true)) found
  unfolding timestamp_backups silent lift
  timestamp_backups_sound database r found h =
      let (objects, e, kept) = >>=-eq-ok (silent w (w.list (timestamp_prefix c database))) _ r h in
      (objects, e, subst (All _) (ok-injective kept) (keep-Lists _ objects objects (λ _ l. l)))

  timestamp_backups-Adds :
      (P : Event → Type 0) (database : Bytes) (r : Run w)
      → Adds w P (timestamp_backups w c database) r
  unfolding timestamp_backups
  timestamp_backups-Adds P database r =
      >>=-Adds w P (silent w (w.list (timestamp_prefix c database))) _ r
        (silent-Adds w P (w.list (timestamp_prefix c database)) r) λ _ _. lift-Adds w P _ _

  expired :
      (database : Bytes) (cutoff : Instant) (env : w.State) (objects found : List Object)
      → (w.list (timestamp_prefix c database) env).0 ≡ ok objects
      → All (λ o. Lists o objects × (is_timestamp_backup c database o.key ≡ true)) found
      → All (λ o. 0 < o.last_modified) found
      → All (λ o. o.last_modified < cutoff → Expired database cutoff env o.key) found
  expired database cutoff env objects [] e h k = tt
  expired database cutoff env objects (o ∷ found) e ((l, named), h) (dated, k) = (
    λ old. (o, objects, e, l, refl, named, dated, old),
    expired database cutoff env objects found e h k,
  )

  -- Retention deletes, or tries to delete, only objects that the store has just listed as timestamp
  -- backups of this database, with a known modification time before the cutoff; it makes no other
  -- event. This holds whether it succeeds or stops at an error.
  pub remove_old_backups-Retains :
      (database : Bytes) (cutoff : Instant) (r : Run w)
      → Adds w (Retains database cutoff r.env) (remove_old_backups w c database cutoff) r
  unfolding remove_old_backups
  remove_old_backups-Retains database cutoff r =
      >>=-Adds w P (timestamp_backups w c database) _ r (timestamp_backups-Adds P database r)
        λ found h.
          >>-Adds w P
            (lift (fail_if (any (λ o. o.last_modified == 0) found) modification_time_missing)) _ _
            (lift-Adds w P _ _)
            λ dated.
              let (objects, e, named) = timestamp_backups_sound database r found h in
              delete_old-Adds P cutoff found _ (
                All-map _ _ (λ o f old. (f old, f old)) found
                  (expired database cutoff r.env objects found e named
                    (nonzero found (lift-fail_if-eq-ok _ _ _ dated))))
    where
      P : Event → Type 0
      P = Retains database cutoff r.env
