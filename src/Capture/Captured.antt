-- ===== src/Capture/Captured.antt =====
-- internal/backup/capture.go: a run of captureConfig that ends without an error, taken apart.
use mongodb_backup_s.Base.{
  ◌==◌, refl, false, ◌||◌, not, List, [], ◌∷◌, Bytes, ◌≡◌, ◌∙◌, ap, subst, is_empty, length,
  config_changed, config_dir_empty, config_not_directory, ok, fail_if, ok-injective,
}
use mongodb_backup_s.World.{
  World, FileInfo, lift, check_ctx, >>=-eq-ok, >>-eq-ok, lift-fail_if-eq-ok,
}
use mongodb_backup_s.Capture.{Consumer, Reading, Inventory, is_dir, config_link}
use mongodb_backup_s.Capture.Files.{tried, explained, closing}
use mongodb_backup_s.Capture.Directory.{
  scan, take_files, verify, capture_contents, same_root, same_file_no_link, capture_root,
  capture_config,
}
use mongodb_backup_s.Capture.Taken.{Takes, take_files-Takes, hashes_of, ==→≡}

-- The state in which the first walk begins.
abbrev pub walk_state : (w : World) → Bytes → w.State → w.State
walk_state w dir s = (w.root_stat (w.open_root dir (w.lstat dir s).1).1).1

check_ctx-1 : (w : World) (s : w.State) → (check_ctx w s).1 ≡ s
unfolding check_ctx
check_ctx-1 w s = refl

module _ (w : World) (sha256 : Bytes → Bytes) {X : Type 0} (add : X → Consumer w X) where
  -- The state in which the second walk begins.
  abbrev pub again : w.State → Inventory → X → w.State
  again start found x = (take_files w sha256 add found.files x [] (scan w start).1).1

  -- What the two walks found, and what was taken between them.
  pub record Captured (start : w.State) (x end : X) : Type 0 where
    pub found : Inventory
    pub scanned : (scan w start).0 ≡ ok found
    pub has_files : is_empty found.files ≡ false
    pub readings : List Reading
    pub takes : Takes w add found.files readings x end (scan w start).1
    pub verified :
        (verify w sha256 found (hashes_of sha256 found.files readings []) (again start found x)).0
        ≡ ok (length found.entries)

  capture_contents-Captured :
      (x : X) (s : w.State) (end : X)
      → (capture_contents w sha256 add x s).0 ≡ ok end
      → Captured s x end
  unfolding capture_contents lift
  capture_contents-Captured x s end h =
      let (found, e1, h1) = >>=-eq-ok (scan w) _ s h in
      let s1 = (scan w s).1 in
      let (e2, h2) = >>-eq-ok (lift (fail_if (is_empty found.files) config_dir_empty)) _ s1 h1 in
      let taking = take_files w sha256 add found.files x [] in
      let ((x', hashes), e3, h3) = >>=-eq-ok taking _ s1 h2 in
      let (readings, takes, known) =
        take_files-Takes w sha256 add found.files x [] s1 (x', hashes) e3 in
      let s2 = (taking s1).1 in
      let (seen, e4, h4) = >>=-eq-ok (verify w sha256 found hashes) _ s2 h3 in
      let s3 = (verify w sha256 found hashes s2).1 in
      let (e5, h5) =
        >>-eq-ok (lift (fail_if (not (seen == length found.entries)) config_changed)) _ s3 h4 in
      let counted : seen ≡ length found.entries =
        ==→≡ _ _ (lift-fail_if-eq-ok (not (seen == length found.entries)) config_changed s3 e5) in
      record {
        found = found;
        scanned = e1;
        has_files = lift-fail_if-eq-ok (is_empty found.files) config_dir_empty s1 e2;
        readings = readings;
        takes = subst (λ e. Takes w add found.files readings x e s1) (ok-injective h5) takes;
        verified =
            subst (λ known. (verify w sha256 found known s2).0 ≡ ok (length found.entries)) known
              (e4 ∙ ap ok counted);
      }

  capture_root-Captured :
      (dir : Bytes) (info : FileInfo) (x : X) (s : w.State) (end : X)
      → (capture_root w sha256 dir info add x s).0 ≡ ok end
      → Captured (w.root_stat s).1 x end
  unfolding capture_root tried lift
  capture_root-Captured dir info x s end h =
      let (found, _, h1) = >>=-eq-ok (tried w.root_stat) _ s h in
      let s1 = (w.root_stat s).1 in
      let (root, _, h2) = >>=-eq-ok (lift (same_root info found)) _ s1 h1 in
      let (x', e, h3) = >>=-eq-ok (capture_contents w sha256 add x) _ s1 h2 in
      let s2 = (capture_contents w sha256 add x s1).1 in
      let (current, _, h4) = >>=-eq-ok (tried (w.lstat dir)) _ s2 h3 in
      let s3 = (w.lstat dir s2).1 in
      let (_, h5) =
        >>-eq-ok (lift (fail_if (not (same_file_no_link root current)) config_changed)) _ s3 h4 in
      let (_, h6) = >>-eq-ok (check_ctx w) _ s3 h5 in
      subst (Captured s1 x) (ok-injective h6) (capture_contents-Captured x s1 x' e)

  pub capture_config-Captured :
      (dir : Bytes) (x : X) (s : w.State) (end : X)
      → is_empty dir ≡ false
      → (capture_config w sha256 dir add x s).0 ≡ ok end
      → Captured (walk_state w dir s) x end
  unfolding capture_config lift explained closing
  capture_config-Captured [] x s end set h = cc
  capture_config-Captured (d ∷ dir) x s end set h =
      let (_, h1) = >>-eq-ok (check_ctx w) _ s h in
      let s1 = (check_ctx w s).1 in
      let (info, _, h2) = >>=-eq-ok (explained (w.lstat (d ∷ dir))) _ s1 h1 in
      let s2 = (w.lstat (d ∷ dir) s1).1 in
      let bad = not (is_dir info) || config_link info in
      let (_, h3) = >>-eq-ok (lift (fail_if bad config_not_directory)) _ s2 h2 in
      let opening = explained (w.open_root (d ∷ dir)) in
      let (_, h4) = >>-eq-ok opening _ s2 h3 in
      subst
        (λ s0. Captured (w.root_stat (w.open_root (d ∷ dir) (w.lstat (d ∷ dir) s0).1).1).1 x end)
        (check_ctx-1 w s) (capture_root-Captured (d ∷ dir) info x (opening s2).1 end h4)
