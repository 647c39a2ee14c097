-- ===== src/Trace/Extends.antt =====
-- How a trace grows: the events that a computation adds all satisfy a predicate.
use mongodb_backup_s.Base.{
  ◌≡◌, refl, sym, ◌∙◌, ap, List, [], ◌∷◌, ◌++◌, append_assoc, Bytes, All, All-append, Result, ok,
  err, Result-cases, inl, inr,
}
use mongodb_backup_s.World.{World, Body, Action, ◌>>=◌, ◌>>◌, lift}
use mongodb_backup_s.Trace.{
  Event, uploaded, deleted, upload_failed, delete_failed, Run, In, there, silent, note, upload,
  delete, imported, written, write_failed, moved, copy_event, import, write_file, move,
}

abbrev pub Extends : (Event → Type 0) → List Event → List Event → Type 0
Extends P t u = (es : List Event) × (u ≡ es ++ t) × All P es

pub Extends-refl : (P : Event → Type 0) (t : List Event) → Extends P t t
Extends-refl P t = ([], refl, tt)

pub Extends-trans :
    (P : Event → Type 0) (t u v : List Event) → Extends P t u → Extends P u v → Extends P t v
Extends-trans P t u v (es, e, h) (fs, f, k) =
    (fs ++ es, f ∙ ap (λ l. fs ++ l) e ∙ sym (append_assoc fs es t), All-append P fs es k h)

pub In-append : {e : Event} (es t : List Event) → In e t → In e (es ++ t)
In-append [] t h = h
In-append (f ∷ es) t h = there (In-append es t h)

-- What has happened stays in the trace.
pub Extends-In :
    (P : Event → Type 0) (t u : List Event) {e : Event} → Extends P t u → In e t → In e u
Extends-In P t u {e} (es, eq, _) h = rw eq (In-append es t h)

module _ (w : World) (P : Event → Type 0) where
  -- A computation whose new events satisfy the predicate, at one state.
  abbrev pub Adds : {A : Type 0} → Action (Run w) A → Run w → Type 0
  Adds m r = Extends P r.trace (m r).1.trace

  pub silent-Adds : {A : Type 0} (m : Action w.State A) (r : Run w) → Adds (silent w m) r
  unfolding silent
  silent-Adds m r = Extends-refl P r.trace

  pub note-Adds : (e : Event) (r : Run w) → P e → Adds (note w e) r
  unfolding note
  note-Adds e r h = (e ∷ [], refl, (h, tt))

  pub lift-Adds : {A : Type 0} (x : Result A) (r : Run w) → Adds (lift x) r
  unfolding lift
  lift-Adds x r = Extends-refl P r.trace

  pub delete-Adds :
      (key : Bytes) (r : Run w) → P (deleted key) → P (delete_failed key) → Adds (delete w key) r
  unfolding delete
  delete-Adds key r good bad = elim (Result-cases (w.delete key r.env).0) [
    | inl (a, e) ↦ rw e ((_ ∷ [], refl, (good, tt)))
    | inr (e', e) ↦ rw e ((_ ∷ [], refl, (bad, tt)))
  ]

  pub upload-Adds :
      (key : Bytes) (body : Body) (r : Run w)
      → P (uploaded key)
      → P (upload_failed key)
      → Adds (upload w key body) r
  unfolding upload
  upload-Adds key body r good bad = elim (Result-cases (w.upload key body r.env).0) [
    | inl (a, e) ↦ rw e ((_ ∷ [], refl, (good, tt)))
    | inr (e', e) ↦ rw e ((_ ∷ [], refl, (bad, tt)))
  ]

  pub import-Adds :
      (name : Bytes) (args : List Bytes) (input : Result Bytes) (r : Run w)
      → P (imported args input)
      → Adds (import w name args input) r
  unfolding import
  import-Adds name args input r h = (_ ∷ [], refl, (h, tt))

  pub write_file-Adds :
      (path : Bytes) (contents : Result Bytes) (r : Run w)
      → ((whole : Bytes) → contents ≡ ok whole → P (written path whole))
      → P (write_failed path)
      → Adds (write_file w path contents) r
  unfolding write_file copy_event
  write_file-Adds path (err e) r good bad = (_ ∷ [], refl, (bad, tt))
  write_file-Adds path (ok contents) r good bad =
      elim (Result-cases (w.fill path (ok contents) r.env).0) [
        | inl (a, e) ↦ rw (e, copy_event) ((_ ∷ [], refl, (good contents refl, tt)))
        | inr (e', e) ↦ rw (e, copy_event) ((_ ∷ [], refl, (bad, tt)))
      ]

  pub move-Adds : (from to : Bytes) (r : Run w) → P (moved from to) → Adds (move w from to) r
  unfolding move
  move-Adds from to r h = (_ ∷ [], refl, (h, tt))

  pub >>=-Adds :
      {A B : Type 0} (m : Action (Run w) A) (f : A → Action (Run w) B) (r : Run w)
      → Adds m r
      → ((a : A) → (m r).0 ≡ ok a → Adds (f a) (m r).1)
      → Adds (m >>= f) r
  unfolding ◌>>=◌
  >>=-Adds m f r h k = elim (Result-cases (m r).0) [
    | inl (a, e) ↦ rw (e, ◌>>=◌) (Extends-trans P r.trace (m r).1.trace _ h (k a e))
    | inr (_, e) ↦ rw (e, ◌>>=◌) h
  ]

  pub >>-Adds :
      {B : Type 0} (m : Action (Run w) (Unit {0})) (k : Action (Run w) B) (r : Run w)
      → Adds m r
      → ((m r).0 ≡ ok tt → Adds k (m r).1)
      → Adds (m >> k) r
  unfolding ◌>>◌
  >>-Adds m k r h next = >>=-Adds m (λ _. k) r h (λ _ e. next e)
