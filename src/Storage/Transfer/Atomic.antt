-- ===== src/Storage/Transfer/Atomic.antt =====
-- internal/storage/s3.go, Download: what is at the path, whether it succeeds or fails.
use mongodb_backup_s.Base.{
  ◌≡◌, ◌≢◌, refl, sym, ◌∙◌, ap, subst, inl, inr, Option, Bytes, Result, Result-cases, ok, err,
  Error,
}
use mongodb_backup_s.World.{Action, ◌>>=◌, ◌>>◌, >>=-eq-ok, >>-eq-ok, >>=-of_ok, >>-of_ok}
use mongodb_backup_s.Extract.{directory}
use mongodb_backup_s.Storage.Transfer.{
  Sdk, explained, explain, check_ctx, version_option, fetch, and_clear, download,
}

-- What the files promise at a path: only a rename to it that succeeds changes it, since a
-- temporary file has another name.
pub record IsFiles (sdk : Sdk) (at : Bytes → sdk.State → Option Bytes) (path : Bytes) : Type 0 where
  pub fresh :
      (dir : Bytes) (s : sdk.State) {name : Bytes}
      → (sdk.create_temp dir s).0 ≡ ok name
      → name ≢ path
  pub created : (dir : Bytes) (s : sdk.State) → at path (sdk.create_temp dir s).1 ≡ at path s
  pub downloaded :
      (key : Bytes) (version : Option Bytes) (name : Bytes) (s : sdk.State)
      → name ≢ path
      → at path (sdk.download_object key version name s).1 ≡ at path s
  pub closed : (file name : Bytes) (s : sdk.State) → at file (sdk.close_file name s).1 ≡ at file s
  pub renamed :
      (name : Bytes) (s : sdk.State)
      → (sdk.rename name path s).0 ≡ ok tt
      → at path (sdk.rename name path s).1 ≡ at name s
  pub removed :
      (name : Bytes) (s : sdk.State) → name ≢ path → at path (sdk.remove name s) ≡ at path s
  pub not_renamed :
      (name : Bytes) (s : sdk.State) {e : Error}
      → (sdk.rename name path s).0 ≡ err e
      → at path (sdk.rename name path s).1 ≡ at path s

explained-eq-err :
    {A : Type 0} (a : Result A) {e : Error} → explained a ≡ err e → (x : Error) × (a ≡ err x)
unfolding explained
explained-eq-err (ok a) h = cc
explained-eq-err (err x) h = (x, refl)

explained-eq-ok : {A : Type 0} (a : Result A) {x : A} → explained a ≡ ok x → a ≡ ok x
unfolding explained
explained-eq-ok (ok a) h = h
explained-eq-ok (err e) h = cc

module _ (sdk : Sdk) (at : Bytes → sdk.State → Option Bytes) (path : Bytes)
    (files : IsFiles sdk at path) where
  -- A step that, if it fails, leaves what is at the path.
  abbrev Leaves : {A : Type 0} → Action sdk.State A → sdk.State → Type 0
  Leaves m s = (e : Error) → (m s).0 ≡ err e → at path (m s).1 ≡ at path s

  -- A step that leaves it in any case, in front of one that does so if it fails.
  >>=-Leaves :
      {A B : Type 0} (m : Action sdk.State A) (k : A → Action sdk.State B) (s : sdk.State)
      → at path (m s).1 ≡ at path s
      → ((a : A) → (m s).0 ≡ ok a → Leaves (k a) (m s).1)
      → Leaves (m >>= k) s
  unfolding ◌>>=◌
  >>=-Leaves m k s same next e h = elim (Result-cases (m s).0) [
    | inl (a, good) ↦ rw (good, ◌>>=◌) (next a good e (rw (good, ◌>>=◌) at h) ∙ same)
    | inr (x, bad) ↦ rw (bad, ◌>>=◌) same
  ]

  >>-Leaves :
      {B : Type 0} (m : Action sdk.State (Unit {0})) (k : Action sdk.State B) (s : sdk.State)
      → at path (m s).1 ≡ at path s
      → Leaves k (m s).1
      → Leaves (m >> k) s
  unfolding ◌>>◌
  >>-Leaves m k s same next = >>=-Leaves m (λ _. k) s same λ _ _. next

  fetch-Leaves :
      (key version name : Bytes) (s : sdk.State)
      → name ≢ path
      → Leaves (fetch sdk key version path name) s
  unfolding fetch explain check_ctx
  fetch-Leaves key version name s other =
      let load : Action sdk.State (Unit {0}) =
        explain (sdk.download_object key (version_option sdk version) name) in
      let s1 : sdk.State = (load s).1 in
      >>-Leaves load _ s (files.downloaded key (version_option sdk version) name s other) (
        >>-Leaves (check_ctx sdk) _ s1 refl (
          >>-Leaves (explain (sdk.close_file name)) _ s1 (files.closed path name s1) λ e h.
            let s2 : sdk.State = (sdk.close_file name s1).1 in
            let (x, failed) = explained-eq-err (sdk.rename name path s2).0 h in
            files.not_renamed name s2 failed))

  and_clear-Leaves :
      (name : Bytes) (m : Action sdk.State (Unit {0})) (s : sdk.State)
      → name ≢ path
      → Leaves m s
      → Leaves (and_clear sdk name m) s
  unfolding and_clear
  and_clear-Leaves name m s other h e bad =
      files.removed name (sdk.close_file name (m s).1).1 other
      ∙ files.closed path name (m s).1
      ∙ h e bad

  -- A download that fails, at whatever step, leaves at its path what was there before, where the
  -- files keep their promises.
  pub download-Leaves :
      (key version : Bytes) (s : sdk.State) → Leaves (download sdk key version path) s
  unfolding download check_ctx explain explained
  download-Leaves key version s = >>-Leaves (check_ctx sdk) _ s refl (
      >>=-Leaves (explain (sdk.create_temp (directory path))) _ s (files.created (directory path) s)
        λ name made.
          let other =
            files.fresh (directory path) s
              (explained-eq-ok (sdk.create_temp (directory path) s).0 made) in
          let s1 : sdk.State = (sdk.create_temp (directory path) s).1 in
          and_clear-Leaves name (fetch sdk key version path name) s1 other
            (fetch-Leaves key version name s1 other))

  -- What a download that succeeds has put at its path: all that the transfer, which succeeded too,
  -- has left in a temporary file.
  pub record IsWhole (key version : Bytes) (end : sdk.State) : Type 0 where
    pub name : Bytes
    pub before : sdk.State
    pub transferred : (sdk.download_object key (version_option sdk version) name before).0 ≡ ok tt
    pub whole :
        at path end ≡ at name (sdk.download_object key (version_option sdk version) name before).1

  fetch-IsWhole :
      (key version name : Bytes) (s : sdk.State)
      → (fetch sdk key version path name s).0 ≡ ok tt
      → IsWhole key version (fetch sdk key version path name s).1
  unfolding fetch explain check_ctx
  fetch-IsWhole key version name s h =
      let load : Action sdk.State (Unit {0}) =
        explain (sdk.download_object key (version_option sdk version) name) in
      let shut : Action sdk.State (Unit {0}) = explain (sdk.close_file name) in
      let s1 : sdk.State = (load s).1 in
      let s2 : sdk.State = (shut s1).1 in
      let (loaded, h1) = >>-eq-ok load _ s h in
      let (live, h2) = >>-eq-ok (check_ctx sdk) _ s1 h1 in
      let (shut_well, h3) = >>-eq-ok shut _ s1 h2 in
      let step =
        >>-of_ok load _ s loaded
        ∙ >>-of_ok (check_ctx sdk) _ s1 live
        ∙ >>-of_ok shut _ s1 shut_well in
      record {
        name = name;
        before = s;
        transferred =
            explained-eq-ok (sdk.download_object key (version_option sdk version) name s).0 loaded;
        whole =
            ap (λ x. at path x.1) step
            ∙ files.renamed name s2 (explained-eq-ok (sdk.rename name path s2).0 h3)
            ∙ files.closed name name s1;
      }

  and_clear-IsWhole :
      (key version name : Bytes) (s : sdk.State)
      → name ≢ path
      → (and_clear sdk name (fetch sdk key version path name) s).0 ≡ ok tt
      → IsWhole key version (and_clear sdk name (fetch sdk key version path name) s).1
  unfolding and_clear
  and_clear-IsWhole key version name s other h =
      let fetched = fetch-IsWhole key version name s h in
      let t : sdk.State = (fetch sdk key version path name s).1 in
      record {
        name = fetched.name;
        before = fetched.before;
        transferred = fetched.transferred;
        whole =
            files.removed name (sdk.close_file name t).1 other
            ∙ files.closed path name t
            ∙ fetched.whole;
      }

  -- A download that succeeds leaves at its path all that a transfer of the object, which reported
  -- success, wrote to a temporary file, where the files keep their promises.
  pub download-IsWhole :
      (key version : Bytes) (s : sdk.State)
      → (download sdk key version path s).0 ≡ ok tt
      → IsWhole key version (download sdk key version path s).1
  unfolding download check_ctx explain explained
  download-IsWhole key version s h =
      let make : Action sdk.State Bytes = explain (sdk.create_temp (directory path)) in
      let (live, h1) = >>-eq-ok (check_ctx sdk) _ s h in
      let (name, made, h2) = >>=-eq-ok make _ s h1 in
      let other =
        files.fresh (directory path) s
          (explained-eq-ok (sdk.create_temp (directory path) s).0 made) in
      let step = >>-of_ok (check_ctx sdk) _ s live ∙ >>=-of_ok make _ s made in
      subst (λ x. IsWhole key version x.1) (sym step)
        (and_clear-IsWhole key version name (make s).1 other h2)
