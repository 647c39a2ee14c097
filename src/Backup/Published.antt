-- ===== src/Backup/Published.antt =====
-- internal/backup/app.go, backupDatabase: what a success means for the object in the store.
use mongodb_backup_s.Base.{
  false, codes, ◌⊎◌, inl, inr, Bool-cases, ◌≡◌, refl, sym, ◌∙◌, ap, subst, true, is_empty, List,
  Bytes, Result, ok, err, ok-injective,
}
use mongodb_backup_s.Clock.{Instant}
use mongodb_backup_s.Config.{Config}
use mongodb_backup_s.Keys.{backup_key}
use mongodb_backup_s.World.{
  World, Member, Content, whole, ciphertext, run_filter, Body, Snapshot, >>=-eq-ok, lift,
}
use mongodb_backup_s.Trace.{Run, silent, upload}
use mongodb_backup_s.Bundle.{Formats}
use mongodb_backup_s.Bundle.Write.{write_bundle, now}
use mongodb_backup_s.Backup.{
  attempt, join, encrypt, produce, content_of, plain_body, sealed_body, gpg_encrypt,
  backup_database,
}

join-eq-ok {ℓ} :
    {A : Type ℓ} (a : Result A) (b : Result (Unit {0}))
    → join a b ≡ ok tt
    → ((x : A) × (a ≡ ok x)) × (b ≡ ok tt)
unfolding join
join-eq-ok (ok x) b h = ((x, refl), h)
join-eq-ok (err e) (ok u) h = cc
join-eq-ok (err e) (err e') h = cc

module _ (w : World) (f : Formats) (c : Config) where
  -- What an upload has got carries a bundle: it is the archive itself, or what gpg has written in a
  -- run from this state that was given the archive and has ended without an error.
  unfoldable pub Carries : w.State → Content → List Member → Type 0
  Carries s content members =
      ((is_empty c.passphrase ≡ true) × (content ≡ whole members))
      ⊎ ((is_empty c.passphrase ≡ false)
          × (output : Bytes) × ((run_filter w (codes "gpg") gpg_encrypt (whole members) s).0
              ≡ (output, ok tt))
          × (content ≡ ciphertext output))

  -- What a backup that began in a state has done: its bundle was finished, and the store took the whole of it.
  pub record IsPublished (database : Bytes) (snapshot : Snapshot) (version : Bytes)
      (before : w.State) : Type 0 where
    pub started : Instant
    pub at_start : w.now before ≡ started
    pub members : List Member
    pub finished : (write_bundle w f c database snapshot version started before).0 ≡ ok members
    pub body : Body
    -- gpg ran behind the making of the bundle
    pub carried :
        Carries (write_bundle w f c database snapshot version started before).1 body.content members
    pub ended : body.end ≡ ok tt
    -- and the upload behind both
    pub stored :
        (w.upload
          (backup_key c database started)
          body
          (produce w f c database snapshot version started before).1).0
        ≡ ok tt

  plain_body-eq-ok :
      (bundle : Result (List Member))
      → (plain_body bundle).end ≡ ok tt
      → (members : List Member) × (bundle ≡ ok members)
        × ((plain_body bundle).content ≡ whole members)
  unfolding plain_body content_of join
  plain_body-eq-ok (ok members) h = (members, refl, refl)
  plain_body-eq-ok (err e) h = cc

  sealed_body-eq-ok :
      (output : Bytes) (end : Result (Unit {0})) (bundle : Result (List Member))
      → (sealed_body output end bundle).end ≡ ok tt
      → (members : List Member) × (bundle ≡ ok members) × (end ≡ ok tt)
  unfolding sealed_body join
  sealed_body-eq-ok output (ok u) (ok members) h = (members, refl, refl)
  sealed_body-eq-ok output (err e) (ok members) h = cc
  sealed_body-eq-ok output (ok u) (err e) h = cc
  sealed_body-eq-ok output (err e) (err e') h = cc

  encrypt-Carries :
      (bundle : Result (List Member)) (s : w.State) (body : Body)
      → (encrypt w f c bundle s).0 ≡ ok body
      → body.end ≡ ok tt
      → (members : List Member) × (bundle ≡ ok members) × Carries s body.content members
  unfolding encrypt Carries sealed_body
  encrypt-Carries bundle s body made ended = elim (Bool-cases (is_empty c.passphrase)) [
    | inl e ↦
        let same : plain_body bundle ≡ body = ok-injective (rw e at made) in
        let (members, written, content) =
          plain_body-eq-ok bundle (ap (λ (b : Body). b.end) same ∙ ended) in
        (members, written, inl (e, ap (λ (b : Body). b.content) (sym same) ∙ content))
    | inr e ↦
        let out = (run_filter w (codes "gpg") gpg_encrypt (content_of bundle) s).0 in
        let same : sealed_body out.0 out.1 bundle ≡ body = ok-injective (rw e at made) in
        let (members, written, good) =
          sealed_body-eq-ok out.0 out.1 bundle (ap (λ (b : Body). b.end) same ∙ ended) in
        let sent : content_of bundle ≡ whole members = ap content_of written in
        (
          members,
          written,
          inr (
            e,
            out.0,
            subst (λ x. (run_filter w (codes "gpg") gpg_encrypt x s).0 ≡ (out.0, ok tt)) sent
                (ap (λ x. (out.0, x)) good),
            ap (λ (b : Body). b.content) (sym same),
          ),
        )
  ]

  -- A backup of a database that reports success has finished its bundle, and the store has taken
  -- without an error, under the key of the time when it started, a body that ends without an error
  -- and carries all members of this bundle: the archive with its footer, or, if there is a
  -- passphrase, the output of the gpg that ran behind the making of the bundle, got the archive with
  -- its footer and ended without an error.
  pub backup_database-IsPublished :
      (database : Bytes) (snapshot : Snapshot) (version : Bytes) (r : Run w)
      → (backup_database w f c database snapshot version r).0 ≡ ok tt
      → IsPublished database snapshot version r.env
  unfolding backup_database attempt lift silent upload produce now
  backup_database-IsPublished database snapshot version r h =
      let (started, e1, h1) = >>=-eq-ok (silent w (now w)) _ r h in
      let s1 = (silent w (now w) r).1 in
      let make = silent w (produce w f c database snapshot version started) in
      let (body, e2, h2) = >>=-eq-ok make _ s1 h1 in
      let s2 = (make s1).1 in
      let key = backup_key c database started in
      let (result, e3, h3) = >>=-eq-ok (attempt (upload w key body)) _ s2 h2 in
      let (sent, ended) = join-eq-ok result body.end h3 in
      let writing = write_bundle w f c database snapshot version started in
      let (bundle, e4, h4) = >>=-eq-ok (attempt writing) _ s1.env e2 in
      let s3 = (attempt writing s1.env).1 in
      let (members, complete, carried) = encrypt-Carries bundle s3 body h4 ended in
      record {
        started = started;
        members = members;
        at_start = ok-injective e1;
        finished = ok-injective e4 ∙ complete;
        body = body;
        carried = carried;
        ended = ended;
        stored = ok-injective e3 ∙ sent.1;
      }
