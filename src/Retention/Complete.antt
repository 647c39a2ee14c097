-- ===== src/Retention/Complete.antt =====
-- internal/backup/app.go, removeOldBackups: what is deleted where it returns no error.
use mongodb_backup_s.Base.{
  ◌<◌, ◌≤◌, ◌⊎◌, ◌≡◌, Bool, true, false, List, [], ◌∷◌, Bytes, ltb, ◌==◌, any, keep, All, All-and,
  arith, Bool-cases, inl, inr, modification_time_missing, ok, fail_if, subst, ok-injective, sym,
  ◌∙◌,
}
use mongodb_backup_s.Clock.{Instant}
use mongodb_backup_s.Config.{Config}
use mongodb_backup_s.Keys.{timestamp_prefix, is_timestamp_backup}
use mongodb_backup_s.World.{
  World, Object, Action, lift, check_ctx, >>=-eq-ok, >>=-of_ok, >>-of_ok, >>-eq-ok,
  lift-fail_if-eq-ok,
}
use mongodb_backup_s.Trace.{Event, deleted, Run, In, here, silent, delete}
use mongodb_backup_s.Trace.Extends.{Extends-In}
use mongodb_backup_s.Retention.Deletes.{Lists, All-Lists, delete_old-Adds}
use mongodb_backup_s.Retention.{timestamp_backups, delete_if, delete_old, remove_old_backups}

pub All-keep :
    (p : Object → Bool) (P : Object → Type 0) (os : List Object)
    → All P (keep p os)
    → All (λ o. p o ≡ true → P o) os
All-keep p P [] h = tt
All-keep p P (o ∷ os) h = elim (Bool-cases (p o)) [
  | inl e ↦ let (po, k) = split_first e h in (λ _. po, All-keep p P os k)
  | inr e ↦ (λ t. cc, All-keep p P os (rw e at h))
]
  where
    split_first : p o ≡ true → All P (keep p (o ∷ os)) → P o × All P (keep p os)
    split_first e k = rw e at k

module _ (w : World) (c : Config) where
  delete_if_old :
      (key : Bytes) (r : Run w)
      → (delete_if w c true key r).0 ≡ ok tt
      → In (deleted key) (delete_if w c true key r).1.trace
  unfolding delete_if delete
  delete_if_old key r h = rw h here

  -- What is in the trace stays there while a loop goes on.
  delete_old-In :
      (cutoff : Instant) (objects : List Object) (r : Run w) (e : Event)
      → In e r.trace
      → In e (delete_old w c cutoff objects r).1.trace
  delete_old-In cutoff objects r e h =
      Extends-In (λ _. Unit) _ _
        (delete_old-Adds w c (λ _. Unit) cutoff objects r (anything objects)) h
    where
      anything : (os : List Object) → All (λ o. o.last_modified < cutoff → Unit {0} × Unit {0}) os
      anything [] = tt
      anything (o ∷ os) = (λ _. (tt, tt), anything os)

  delete_old_complete :
      (cutoff : Instant) (objects : List Object) (r : Run w)
      → (delete_old w c cutoff objects r).0 ≡ ok tt
      → All
          (λ o.
            o.last_modified < cutoff → In (deleted o.key) (delete_old w c cutoff objects r).1.trace)
          objects
  unfolding delete_old
  delete_old_complete cutoff [] r h = tt
  delete_old_complete cutoff (o ∷ objects) r h =
      let old = ltb o.last_modified cutoff in
      let s = (silent w (check_ctx w) r).1 in
      let (e1, h1) = >>-eq-ok (silent w (check_ctx w)) _ r h in
      let (e2, h2) = >>-eq-ok (delete_if w c old o.key) _ s h1 in
      let step : delete_old w c cutoff (o ∷ objects) r
          ≡ delete_old w c cutoff objects (delete_if w c old o.key s).1 =
        >>-of_ok (silent w (check_ctx w)) _ r e1 ∙ >>-of_ok (delete_if w c old o.key) _ s e2 in
      subst (λ x. All (λ p. p.last_modified < cutoff → In (deleted p.key) x.1.trace) (o ∷ objects))
        (sym step)
        (
          λ lt.
              delete_old-In cutoff objects (delete_if w c old o.key s).1 (deleted o.key)
                (gone old o.key s (ground arith) e2),
          delete_old_complete cutoff objects (delete_if w c old o.key s).1 h2,
        )
    where
      gone :
          (old : Bool) (key : Bytes) (s : Run w)
          → old ≡ true
          → (delete_if w c old key s).0 ≡ ok tt
          → In (deleted key) (delete_if w c old key s).1.trace
      gone true key s _ e = delete_if_old key s e
      gone false key s h e = cc

  dated :
      (os : List Object)
      → any (λ o. o.last_modified == 0) os ≡ false
      → All (λ o. 0 < o.last_modified) os
  dated [] h = tt
  dated (o ∷ os) h = (ground arith, dated os (ground arith))

  remove_old_backups-All :
      (database : Bytes) (cutoff : Instant) (r : Run w)
      → (remove_old_backups w c database cutoff r).0 ≡ ok tt
      → (objects : List Object) × ((w.list (timestamp_prefix c database) r.env).0 ≡ ok objects)
        × All
            (λ o.
              is_timestamp_backup c database o.key ≡ true
              → (0 < o.last_modified)
                × (o.last_modified < cutoff
                    → In (deleted o.key) (remove_old_backups w c database cutoff r).1.trace))
            objects
  unfolding remove_old_backups timestamp_backups silent lift
  remove_old_backups-All database cutoff r h =
      let p : Object → Bool = λ o. is_timestamp_backup c database o.key in
      let s = (timestamp_backups w c database r).1 in
      let (found, e1, h1) = >>=-eq-ok (timestamp_backups w c database) _ r h in
      let (objects, e0, kept) =
        >>=-eq-ok (silent w (w.list (timestamp_prefix c database))) _ r e1 in
      let check : Action (Run w) (Unit {0}) =
        lift (fail_if (any (λ o. o.last_modified == 0) found) modification_time_missing) in
      let (e2, h2) = >>-eq-ok check _ s h1 in
      let step : remove_old_backups w c database cutoff r ≡ delete_old w c cutoff found s =
        >>=-of_ok (timestamp_backups w c database) _ r e1 ∙ >>-of_ok check _ s e2 in
      let gone =
        subst (λ x. All (λ o. o.last_modified < cutoff → In (deleted o.key) x.1.trace) found)
          (sym step) (delete_old_complete cutoff found s h2) in
      let known = dated found (
        lift-fail_if-eq-ok (any (λ o. o.last_modified == 0) found) modification_time_missing s
          e2) in
      (
        objects,
        e0,
        All-keep p _ objects
            (subst (All _) (sym (ok-injective kept)) (All-and _ _ found known gone)),
      )

  -- When retention succeeds, each object that the store listed for it and that is a timestamp backup
  -- of the database had a modification time, and if that is before the cutoff, has been deleted.
  pub remove_old_backups_complete :
      (database : Bytes) (cutoff : Instant) (r : Run w) (objects : List Object) (o : Object)
      → (w.list (timestamp_prefix c database) r.env).0 ≡ ok objects
      → Lists o objects
      → is_timestamp_backup c database o.key ≡ true
      → (remove_old_backups w c database cutoff r).0 ≡ ok tt
      → (0 < o.last_modified)
        × ((cutoff ≤ o.last_modified)
            ⊎ In (deleted o.key) (remove_old_backups w c database cutoff r).1.trace)
  remove_old_backups_complete database cutoff r objects o e l named h =
      let (listed, e', every) = remove_old_backups-All database cutoff r h in
      let (dated, gone) =
        All-Lists _ objects (subst (All _) (ok-injective (sym e' ∙ e)) every) l named in
      elim (Bool-cases (ltb o.last_modified cutoff)) [
        | inl old ↦ (dated, inr (gone (ground arith)))
        | inr new ↦ (dated, inl (ground arith))
      ]
