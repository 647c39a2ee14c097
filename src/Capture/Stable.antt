-- ===== src/Capture/Stable.antt =====
-- internal/backup/capture.go: a directory that captureConfig takes without an error has not changed
-- between its two walks, as far as these look.
use mongodb_backup_s.Base.{
  ℕ, suc, ◌≡◌, refl, sym, ◌∙◌, ap, Bool, true, false, ◌||◌, List, [], ◌∷◌, Option, none, Bytes, All,
  is_empty, length, Error, ok, ok-injective, Bool-cases, inl, inr, arith, contains_byte,
  config_path_unsafe, fail_if,
}
use mongodb_backup_s.World.{World, FileInfo, lift, check_ctx, >>=-eq-ok, >>-eq-ok}
use mongodb_backup_s.Databases.{contains}
use mongodb_backup_s.Databases.Selected.{IsDistinct}
use mongodb_backup_s.Capture.{Consumer, Inventory, nothing, assign, is_dir, is_regular, config_link}
use mongodb_backup_s.Capture.Files.{explained}
use mongodb_backup_s.Capture.Directory.{
  walked, sort_out, visit, visit_all, scan, verify, capture_config,
}
use mongodb_backup_s.Capture.Taken.{hashes_of}
use mongodb_backup_s.Capture.Captured.{Captured, again, walk_state, capture_config-Captured}
use mongodb_backup_s.Capture.Again.{
  AllSeen, AllSeen-fine, visit_all_again-AllSeen, inside, walked-eq-ok,
}
use mongodb_backup_s.Capture.Paths.{paths, contains-assign, contains-IsDistinct}

pub sort_out-entries :
    (name : Bytes) (info : FileInfo) (found found' : Inventory)
    → sort_out name info found ≡ ok found'
    → found'.entries ≡ assign name info found.entries
unfolding sort_out
sort_out-entries name info found found' h = elim (Bool-cases (is_dir info)) [
  | inl e ↦ ap (λ (f : Inventory). f.entries) (sym (ok-injective (rw e at h)))
  | inr e ↦ elim (Bool-cases (is_regular info)) [
    | inl file ↦ ap (λ (f : Inventory). f.entries) (sym (ok-injective (rw (e, file) at h)))
    | inr other ↦ cc (rw (e, other) at h)
  ]
]

module _ (w : World) where
  visit-entries :
      (name : Bytes) (walk_err : Option Error) (found : Inventory) (s : w.State)
      (found' : Inventory)
      → (visit w (name, walk_err) found s).0 ≡ ok found'
      → (info : FileInfo) × (found'.entries ≡ assign name info found.entries)
  unfolding visit lift
  visit-entries name walk_err found s found' h =
      let (_, h1) = >>-eq-ok (check_ctx w) _ s h in
      let s1 = (check_ctx w s).1 in
      let (_, h2) = >>-eq-ok (lift (walked walk_err)) _ s1 h1 in
      let (info, _, h3) = >>=-eq-ok (explained (w.root_lstat name)) _ s1 h2 in
      let s2 = (explained (w.root_lstat name) s1).1 in
      let bad = config_link info || contains_byte name 92 in
      let (_, h4) = >>-eq-ok (lift (fail_if bad config_path_unsafe)) _ s2 h3 in
      (info, sort_out-entries name info found found' h4)

  visit_all-fine :
      (items : List (Bytes × Option Error)) (found : Inventory) (s : w.State) (found' : Inventory)
      → (visit_all w items found s).0 ≡ ok found'
      → All (λ item. item.1 ≡ none) items
  unfolding visit_all visit lift
  visit_all-fine [] found s found' h = tt
  visit_all-fine ((name, walk_err) ∷ items) found s found' h =
      let (found1, e, h1) = >>=-eq-ok (visit w (name, walk_err) found) _ s h in
      let (_, e1) = >>-eq-ok (check_ctx w) _ s e in
      let (fine, _) = >>-eq-ok (lift (walked walk_err)) _ (check_ctx w s).1 e1 in
      (
        walked-eq-ok walk_err fine,
        visit_all-fine items found1 (visit w (name, walk_err) found s).1 found' h1,
      )

  visit_all-entries :
      (items : List (Bytes × Option Error)) (found : Inventory) (s : w.State) (found' : Inventory)
      → (visit_all w items found s).0 ≡ ok found'
      → (p : Bytes)
      → contains (paths found'.entries) p
        ≡ (contains (paths items) p || contains (paths found.entries) p)
  unfolding visit_all contains lift
  visit_all-entries [] found s found' h p =
      ap (λ (f : Inventory). contains (paths f.entries) p) (sym (ok-injective h))
  visit_all-entries ((name, walk_err) ∷ items) found s found' h p =
      let (found1, e, h1) = >>=-eq-ok (visit w (name, walk_err) found) _ s h in
      let (info, entered) = visit-entries name walk_err found s found1 e in
      let rest = visit_all-entries items found1 (visit w (name, walk_err) found s).1 found' h1 p in
      let one =
        ap (λ entries. contains (paths entries) p) entered
        ∙ contains-assign name info found.entries p in
      ground (arith, rest, one)

  pub scan-entries :
      (s : w.State) (found : Inventory)
      → (scan w s).0 ≡ ok found
      → (p : Bytes) → contains (paths found.entries) p ≡ contains (paths (w.walk s).0) p
  unfolding scan contains
  scan-entries s found h p =
      let seen = visit_all-entries (w.walk s).0 nothing (w.walk s).1 found h p in
      ground (arith, seen)

  verify-AllSeen :
      (sha256 : Bytes → Bytes) (found : Inventory) (hashes : List (Bytes × Bytes)) (s : w.State)
      (n : ℕ)
      → (verify w sha256 found hashes s).0 ≡ ok n
      → (n ≡ length (paths (w.walk s).0)) × AllSeen w sha256 found hashes (w.walk s).0 (w.walk s).1
  unfolding verify
  verify-AllSeen sha256 found hashes s n h =
      let (more, all) =
        visit_all_again-AllSeen w sha256 found hashes (w.walk s).0 0 (w.walk s).1 n h in
      (omega (arith, more), all)

  length-paths {ℓ} :
      {A : Type ℓ} (entries : List (Bytes × A)) → length (paths entries) ≡ length entries
  length-paths [] = refl
  length-paths (e ∷ entries) = ap suc (length-paths entries)

  -- What holds of a directory that has been taken.
  pub record IsStable (sha256 : Bytes → Bytes) {X : Type 0} (add : X → Consumer w X)
      (start : w.State) (x end : X) : Type 0 where
    pub run : Captured w sha256 add start x end
    -- both walks came by the same paths
    pub same_paths :
        (p : Bytes)
        → contains (paths (w.walk (again w sha256 add start run.found x)).0) p
          ≡ contains (paths (w.walk start).0) p
    -- and the second walk, going from path to path, found at each what the first had found
    pub all_seen :
        AllSeen w sha256 run.found
          (hashes_of sha256 run.found.files run.readings [])
          (w.walk (again w sha256 add start run.found x)).0
          (w.walk (again w sha256 add start run.found x)).1

  -- A walk that meets no error comes by no path twice. Behind an error, `fs.WalkDir` may come again.
  abbrev pub WalksOnce : Type 0
  WalksOnce =
      (s : w.State) → All (λ item. item.1 ≡ none) (w.walk s).0 → IsDistinct (paths (w.walk s).0)

  pub scan-fine :
      (s : w.State) (found : Inventory)
      → (scan w s).0 ≡ ok found
      → All (λ item. item.1 ≡ none) (w.walk s).0
  unfolding scan
  scan-fine s found h = visit_all-fine (w.walk s).0 nothing (w.walk s).1 found h

  -- A directory that is taken without an error has the same paths in the second walk, which begins
  -- behind the capture of all files, as in the first, if no walk without errors comes by a path twice:
  -- none has gone, and none has come. At each path, in the state in which it came there, the second
  -- walk found the same file with the same mode, size and time, which is no link; and there it opened each
  -- regular file and read it to its end, in the length of its info, with the SHA-256 of what had been taken of it.
  pub capture_config-IsStable :
      (sha256 : Bytes → Bytes) {X : Type 0} (add : X → Consumer w X) (walks_once : WalksOnce)
      (dir : Bytes) (x : X) (s : w.State) (end : X)
      → is_empty dir ≡ false
      → (capture_config w sha256 dir add x s).0 ≡ ok end
      → IsStable sha256 add (walk_state w dir s) x end
  capture_config-IsStable sha256 add walks_once dir x s end set h =
      let c = capture_config-Captured w sha256 add dir x s end set h in
      let s2 = again w sha256 add (walk_state w dir s) c.found x in
      let hashes = hashes_of sha256 c.found.files c.readings [] in
      let (counted, all) =
        verify-AllSeen sha256 c.found hashes s2 (length c.found.entries) c.verified in
      let second = paths (w.walk s2).0 in
      let known = paths c.found.entries in
      let back = inside w sha256 c.found hashes (w.walk s2).0 (w.walk s2).1 all in
      let fine = AllSeen-fine w sha256 c.found hashes (w.walk s2).0 (w.walk s2).1 all in
      let forth =
        contains-IsDistinct second known (walks_once s2 fine) back
          (omega (arith, counted, length-paths c.found.entries)) in
      record {
        run = c;
        same_paths = λ p.
            both (contains second p) (contains known p) (back p) (forth p)
            ∙ scan-entries (walk_state w dir s) c.found c.scanned p;
        all_seen = all;
      }
    where
      both : (a b : Bool) → (a ≡ true → b ≡ true) → (b ≡ true → a ≡ true) → a ≡ b
      both true b f g = sym (f refl)
      both false true f g = g refl
      both false false f g = refl
