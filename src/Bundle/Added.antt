-- ===== src/Bundle/Added.antt =====
-- internal/backup/bundle.go: what `add` has done when it ends without an error.
use mongodb_backup_s.Base.{
  ◌≡◌, refl, subst, false, ◌||◌, not, Bytes, str_eq, ok-injective, member_unsupported,
  member_duplicate, ok, fail_if,
}
use mongodb_backup_s.Members.{safe_member, allowed_member, manifest_json}
use mongodb_backup_s.World.{World, Action, lift, check_ctx, >>=-eq-ok, >>-eq-ok, lift-fail_if-eq-ok}
use mongodb_backup_s.Bundle.{Formats}
use mongodb_backup_s.Bundle.Write.{Builder, has_file, put, add_with}

module _ (w : World) (f : Formats) {A : Type 0} (of : A → Bytes) (b : Builder) (name : Bytes)
    (produce : Action w.State A) where
  pub record IsAdded (b' : Builder) (a : A) (from : w.State) : Type 0 where
    pub put_behind : b' ≡ put f b name (of a)
    pub fine :
        (not (safe_member name) || not (allowed_member name) || str_eq name manifest_json) ≡ false
    pub new : has_file b.files name ≡ false
    pub produced : (produce from).0 ≡ ok a

  pub add_with-IsAdded :
      (s : w.State) (b' : Builder) (a : A)
      → (add_with w f of b name produce s).0 ≡ ok (b', a)
      → IsAdded b' a s
  unfolding add_with lift check_ctx
  add_with-IsAdded s b' a h =
      let bad = not (safe_member name) || not (allowed_member name) || str_eq name manifest_json in
      let (_, h1) = >>-eq-ok (check_ctx w) _ s h in
      let s1 = (check_ctx w s).1 in
      let (e1, h2) = >>-eq-ok (lift (fail_if bad member_unsupported)) _ s1 h1 in
      let (e2, h3) = >>-eq-ok (lift (fail_if (has_file b.files name) member_duplicate)) _ s1 h2 in
      let (a', e3, h4) = >>=-eq-ok produce _ s1 h3 in
      subst (λ (p : Builder × A). IsAdded p.0 p.1 s) (ok-injective h4)
        (record {
          put_behind = refl;
          fine = lift-fail_if-eq-ok bad member_unsupported s1 e1;
          new = lift-fail_if-eq-ok (has_file b.files name) member_duplicate s1 e2;
          produced = e3;
        })
