-- ===== src/Capture/Taken.antt =====
-- internal/backup/capture.go: what captureConfig has done when it ends without an error. A callback
-- returns the reading that it was given, which the callbacks of the program do.
use mongodb_backup_s.Base.{
  ℕ, ◌+◌, false, not, ◌==◌, List, [], ◌∷◌, ◌++◌, Bytes, ◌≡◌, refl, sym, ◌∙◌, ap, subst, inl, inr,
  Result-cases, Option-cases, config_changed, ok, ok-injective, fail_if, length, length-append,
  arith,
}
use mongodb_backup_s.Members.{config_directory}
use mongodb_backup_s.World.{
  World, FileInfo, ReadCall, Action, lift, check_ctx, >>=-eq-ok, >>-eq-ok, lift-fail_if-eq-ok,
}
use mongodb_backup_s.Capture.{
  Consumer, ConfigReader, Reading, new_reader, read_call, copy, assign, still, still_no_link,
}
use mongodb_backup_s.Capture.Files.{
  tried, explained, closing, check_reader, read_all, opened, capture_file,
}
use mongodb_backup_s.Capture.Directory.{take_files}

pub explained-eq-ok :
    {S A : Type 0} (m : Action S A) (s : S) {a : A} → (explained m s).0 ≡ ok a → (m s).0 ≡ ok a
unfolding explained
explained-eq-ok m s h = elim (Result-cases (m s).0) [
  | inl (a, e) ↦ e ∙ rw e at h
  | inr (x, e) ↦ cc (rw e at h)
]

pub closing-0 :
    {S A : Type 0} (close : S → S) (m : Action S A) (s : S) → (closing close m s).0 ≡ (m s).0
unfolding closing
closing-0 close m s = refl

pub ==→≡ : (m n : ℕ) → not (m == n) ≡ false → m ≡ n
==→≡ m n h = ground (arith, h)

read_call-count :
    (r : ConfigReader) (call : ReadCall) (n : ℕ)
    → n ≡ r.count
    → n + length (read_call r call).0.0 ≡ (read_call r call).1.count
unfolding read_call
read_call-count r call n same = elim (Option-cases call.ended) [
  | inl ended ↦ rw ended (ap (λ m. m + length call.chunk) same)
  | inr (e, ended) ↦ rw ended (omega (arith, same))
]

-- The count of a reader is the length of what it has read.
pub copy-count :
    (contents : Bytes) (r : ConfigReader) (calls : List ReadCall) (done : Reading)
    → length contents ≡ r.count
    → copy contents r calls ≡ ok done
    → length done.contents ≡ done.reader.count
unfolding copy read_call
copy-count contents r [] done same h =
    subst (λ x. length x.contents ≡ x.reader.count) (ok-injective h) same
copy-count contents r (call ∷ calls) done same h = elim (Option-cases (read_call r call).0.1) [
  | inl fine ↦
      copy-count (contents ++ (read_call r call).0.0) (read_call r call).1 calls done
        (length-append contents (read_call r call).0.0
          ∙ read_call-count r call (length contents) same)
        (rw (fine, copy) at h)
  | inr (e, bad) ↦ cc (rw (bad, copy) at h)
]

-- The hashes after the readings of files have been entered.
unfoldable pub hashes_of :
    (Bytes → Bytes)
    → List (Bytes × FileInfo)
    → List Reading
    → List (Bytes × Bytes)
    → List (Bytes × Bytes)
unfolding assign
hashes_of sha256 ((name, info) ∷ files) (r ∷ readings) hashes =
    hashes_of sha256 files readings (assign name (sha256 r.contents) hashes)
hashes_of sha256 _ _ hashes = hashes

-- The state in which a file that is captured has been opened and looked at.
abbrev pub opened_state : (w : World) → Bytes → ℕ → w.State → w.State
opened_state w name file s = (w.file_stat file (w.root_open name (w.root_lstat name s).1).1).1

module _ (w : World) {X : Type 0} where
  -- The reading that is returned is one of the reader.
  pub record IsFaithful (add : Consumer w X) : Type 0 where
    pub has_read :
        (name : Bytes) (read : Action w.State Reading) (s : w.State) (x : X) (r : Reading)
        → (add name read s).0 ≡ ok (x, r)
        → (read s).0 ≡ ok r

  -- A file that has been taken from a state on: the callback got its reader, which had its size.
  pub record Took (add : Consumer w X) (name : Bytes) (before : FileInfo) (x : X) (r : Reading)
      (s : w.State) : Type 0 where
    pub file : ℕ
    pub found : (w.root_open name (w.root_lstat name s).1).0 ≡ ok file
    pub added :
        (add (config_directory ++ name) (read_all w file) (opened_state w name file s)).0
        ≡ ok (x, r)
    pub counted : r.reader.count ≡ before.size

  opened-Took :
      (name : Bytes) (before : FileInfo) (add : Consumer w X) (file : ℕ) (s0 : w.State) (x : X)
      (r : Reading)
      → (w.root_open name (w.root_lstat name s0).1).0 ≡ ok file
      → (opened w name before add file (w.root_open name (w.root_lstat name s0).1).1).0 ≡ ok (x, r)
      → Took add name before x r s0
  unfolding opened tried lift check_ctx
  opened-Took name before add file s0 x r opening h =
      let s = (w.root_open name (w.root_lstat name s0).1).1 in
      let (found, _, h1) = >>=-eq-ok (tried (w.file_stat file)) _ s h in
      let s1 = (w.file_stat file s).1 in
      let (_, h2) = >>-eq-ok (lift (fail_if (not (still before found)) config_changed)) _ s1 h1 in
      let adding = explained (add (config_directory ++ name) (read_all w file)) in
      let ((x', r'), e, h3) = >>=-eq-ok adding _ s1 h2 in
      let (_, h4) = >>-eq-ok (check_ctx w) _ (adding s1).1 h3 in
      let s2 = (check_ctx w (adding s1).1).1 in
      let (_, h5) = >>-eq-ok (lift (check_reader r'.reader)) _ s2 h4 in
      let (good, h6) =
        >>-eq-ok (lift (fail_if (not (r'.reader.count == before.size)) config_changed)) _ s2 h5 in
      let (after, _, h7) = >>=-eq-ok (tried (w.file_stat file)) _ s2 h6 in
      let s3 = (w.file_stat file s2).1 in
      let (_, h8) = >>-eq-ok (lift (fail_if (not (still before after)) config_changed)) _ s3 h7 in
      let (current, _, h9) = >>=-eq-ok (tried (w.root_lstat name)) _ s3 h8 in
      let s4 = (w.root_lstat name s3).1 in
      let (_, h10) =
        >>-eq-ok (lift (fail_if (not (still_no_link before current)) config_changed)) _ s4 h9 in
      let counted =
        ==→≡ _ _
          (lift-fail_if-eq-ok (not (r'.reader.count == before.size)) config_changed s2 good) in
      subst (λ (p : X × Reading). Took add name before p.0 p.1 s0) (ok-injective h10)
        (record {
          file = file;
          found = opening;
          added = explained-eq-ok (add (config_directory ++ name) (read_all w file)) s1 e;
          counted = counted;
        })

  pub capture_file-Took :
      (name : Bytes) (before : FileInfo) (add : Consumer w X) (s : w.State) (x : X) (r : Reading)
      → (capture_file w name before add s).0 ≡ ok (x, r)
      → Took add name before x r s
  unfolding capture_file tried lift closing
  capture_file-Took name before add s x r h =
      let (current, _, h1) = >>=-eq-ok (tried (w.root_lstat name)) _ s h in
      let s1 = (w.root_lstat name s).1 in
      let (_, h2) =
        >>-eq-ok (lift (fail_if (not (still_no_link before current)) config_changed)) _ s1 h1 in
      let (file, e3, h3) = >>=-eq-ok (explained (w.root_open name)) _ s1 h2 in
      opened-Took name before add file s x r (explained-eq-ok (w.root_open name) s1 e3) h3

  -- What a file gave has the size that its info says.
  pub Took-size :
      (add : Consumer w X) (name : Bytes) (before : FileInfo) (x : X) (r : Reading) (s : w.State)
      → IsFaithful add
      → Took add name before x r s
      → length r.contents ≡ before.size
  unfolding read_all
  Took-size add name before x r s faithful t =
      let s' = opened_state w name t.file s in
      let e = faithful.has_read (config_directory ++ name) (read_all w t.file) s' x r t.added in
      copy-count [] new_reader (w.file_reads t.file s').0 r refl e ∙ t.counted

  -- The files in their order, each with its reading, the value that comes of them, and the state
  -- in which the first is captured.
  unfoldable pub Takes :
      (X → Consumer w X) → List (Bytes × FileInfo) → List Reading → X → X → w.State → Type 0
  unfolding capture_file
  Takes add [] [] x end s = x ≡ end
  Takes add [] (_ ∷ _) x end s = ⊥
  Takes add (_ ∷ _) [] x end s = ⊥
  Takes add ((name, info) ∷ files) (r ∷ readings) x end s =
      (x' : X) × Took (add x) name info x' r s
      × Takes add files readings x' end (capture_file w name info (add x) s).1

  pub take_files-Takes :
      (sha256 : Bytes → Bytes) (add : X → Consumer w X) (files : List (Bytes × FileInfo)) (x : X)
      (hashes : List (Bytes × Bytes)) (s : w.State) (end : X × List (Bytes × Bytes))
      → (take_files w sha256 add files x hashes s).0 ≡ ok end
      → (readings : List Reading) × Takes add files readings x end.0 s
        × (end.1 ≡ hashes_of sha256 files readings hashes)
  unfolding take_files Takes lift hashes_of check_ctx
  take_files-Takes sha256 add [] x hashes s end h = (
    [],
    ap (λ (e : X × List (Bytes × Bytes)). e.0) (ok-injective h),
    sym (ap (λ (e : X × List (Bytes × Bytes)). e.1) (ok-injective h)),
  )
  take_files-Takes sha256 add ((name, info) ∷ files) x hashes s end h =
      let (_, h1) = >>-eq-ok (check_ctx w) _ s h in
      let s1 = (check_ctx w s).1 in
      let ((x', r), e, h2) = >>=-eq-ok (capture_file w name info (add x)) _ s1 h1 in
      let took = capture_file-Took name info (add x) s1 x' r e in
      let (readings, rest, known) =
        take_files-Takes sha256 add files x' (assign name (sha256 r.contents) hashes)
          (capture_file w name info (add x) s1).1 end h2 in
      (r ∷ readings, (x', took, rest), known)
