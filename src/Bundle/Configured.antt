-- ===== src/Bundle/Configured.antt =====
-- internal/backup/bundle.go and capture.go: the files of the configuration that writeBundle puts into a bundle.
use mongodb_backup_s.Base.{
  ◌≡◌, refl, sym, ◌∙◌, ap, subst, true, false, List, [], ◌∷◌, ◌++◌, append_assoc, append-nil, some,
  Option, Error, Bytes, All, is_empty, str_eq→eq, length, ok,
}
use mongodb_backup_s.Members.{config_directory}
use mongodb_backup_s.World.{World, FileInfo, Member}
use mongodb_backup_s.Databases.{contains}
use mongodb_backup_s.Databases.Selected.{IsDistinct}
use mongodb_backup_s.Capture.{Reading, Inventory, nothing, assign, value_of, is_regular}
use mongodb_backup_s.Capture.Files.{read_all}
use mongodb_backup_s.Capture.Directory.{scan, same_hash, capture_config}
use mongodb_backup_s.Capture.Taken.{IsFaithful, Took, Took-size, Takes, hashes_of, opened_state}
use mongodb_backup_s.Capture.Captured.{Captured, again, walk_state}
use mongodb_backup_s.Capture.Again.{SeenAgain, ReadAgain, Reaches, AllSeen-Reaches}
use mongodb_backup_s.Capture.Paths.{paths, value_of-contains}
use mongodb_backup_s.Capture.Stable.{WalksOnce, scan-fine, scan-entries, capture_config-IsStable}
use mongodb_backup_s.Capture.Taking.{
  Entered, IsEntered, visit_all-IsEntered, hashes_of-other, value_of-assign,
}
use mongodb_backup_s.Bundle.{Formats}
use mongodb_backup_s.Bundle.Write.{Builder, put, add_reading}
use mongodb_backup_s.Bundle.Added.{add_with-IsAdded}

-- The members for files and what was read of them.
pub config_members : List (Bytes × FileInfo) → List Reading → List Member
config_members ((name, info) ∷ files) (r ∷ readings) =
    record { name = config_directory ++ name; contents = r.contents }
    ∷ config_members files readings
config_members _ _ = []

module _ (w : World) (f : Formats) where
  -- A regular file that has been taken in the size of its info; and the walk of these items from the state
  -- comes to its path, opens and reads it there again, and finds the same SHA-256.
  pub record IsConfirmed (found : Inventory) (hashes : List (Bytes × Bytes))
      (items : List (Bytes × Option Error)) (from : w.State) (name : Bytes) (info : FileInfo)
      (r : Reading) : Type 0 where
    pub size : length r.contents ≡ info.size
    pub regular : is_regular info ≡ true
    pub at : w.State
    pub reached : Reaches w f.sha256 found hashes items from name at
    pub again : ReadAgain w f.sha256 hashes name info (w.root_lstat name at).1
    pub same : f.sha256 r.contents ≡ f.sha256 again.reading.contents

  abbrev pub Confirmed :
      Inventory
      → List (Bytes × Bytes)
      → List (Bytes × Option Error)
      → w.State
      → List (Bytes × FileInfo)
      → List Reading
      → Type 0
  Confirmed found hashes items from [] [] = Unit
  Confirmed found hashes items from [] (_ ∷ _) = ⊥
  Confirmed found hashes items from (_ ∷ _) [] = ⊥
  Confirmed found hashes items from ((name, info) ∷ files) (r ∷ readings) =
      IsConfirmed found hashes items from name info r
      × Confirmed found hashes items from files readings

  add_reading-IsFaithful : (b : Builder) → IsFaithful w (add_reading w f b)
  unfolding add_reading
  add_reading-IsFaithful b = record {
    has_read = λ name read s x r h.
        let added = add_with-IsAdded w f (λ (r : Reading). r.contents) b name read s x r h in
        added.produced;
  }

  Took-members :
      (b : Builder) (name : Bytes) (info : FileInfo) (b' : Builder) (r : Reading) (s : w.State)
      → Took w (add_reading w f b) name info b' r s
      → b'.members
        ≡ b.members ++ (record { name = config_directory ++ name; contents = r.contents } ∷ [])
  unfolding add_reading put
  Took-members b name info b' r s t =
      let added =
        add_with-IsAdded w f (λ (r : Reading). r.contents) b (config_directory ++ name)
          (read_all w t.file) (opened_state w name t.file s) b' r t.added in
      ap (λ (x : Builder). x.members) added.put_behind

  Takes-members :
      (files : List (Bytes × FileInfo)) (readings : List Reading) (b b' : Builder) (s : w.State)
      → Takes w (add_reading w f) files readings b b' s
      → b'.members ≡ b.members ++ config_members files readings
  unfolding Takes config_members
  Takes-members [] [] b b' s e =
      ap (λ (x : Builder). x.members) (sym e) ∙ sym (append-nil b.members)
  Takes-members [] (_ ∷ _) b b' s t = elim t [ ]
  Takes-members (_ ∷ _) [] b b' s t = elim t [ ]
  Takes-members ((n, i) ∷ files) (r ∷ readings) b b' s (b1, took, t) =
      Takes-members files readings b1 b' _ t
      ∙ ap (λ ms. ms ++ config_members files readings) (Took-members b n i b1 r s took)
      ∙ append_assoc b.members _ (config_members files readings)

  module _ (found : Inventory) (hashes : List (Bytes × Bytes)) (items : List (Bytes × Option Error))
      (from : w.State)
      (seen : (p : Bytes)
        → contains (paths found.entries) p ≡ true
        → (at : w.State) × Reaches w f.sha256 found hashes items from p at
          × SeenAgain w f.sha256 found hashes p at) where
    confirmed :
        (b b' : Builder) (name : Bytes) (info : FileInfo) (r : Reading) (s : w.State)
        → Took w (add_reading w f b) name info b' r s
        → Entered found.entries (name, info)
        → value_of name hashes ≡ some (f.sha256 r.contents)
        → IsConfirmed found hashes items from name info r
    unfolding same_hash
    confirmed b b' name info r s took (regular, known) hash =
        let (at, reached, twice) = seen name (value_of-contains name found.entries info known) in
        let same_info : twice.before ≡ info = cc (twice.known, known) in
        let again : ReadAgain w f.sha256 hashes name info (w.root_lstat name at).1 =
          subst (λ i. ReadAgain w f.sha256 hashes name i (w.root_lstat name at).1) same_info
            (twice.contents (ap is_regular same_info ∙ regular)) in
        record {
          size = Took-size w (add_reading w f b) name info b' r s (add_reading-IsFaithful b) took;
          regular = regular;
          at = at;
          reached = reached;
          again = again;
          same =
              str_eq→eq (f.sha256 r.contents) (f.sha256 again.reading.contents)
                (rw hash at again.same);
        }

    Takes-Confirmed :
        (files : List (Bytes × FileInfo)) (readings : List Reading) (b b' : Builder)
        (before : List (Bytes × Bytes)) (s : w.State)
        → Takes w (add_reading w f) files readings b b' s
        → IsDistinct (paths files)
        → All (Entered found.entries) files
        → hashes ≡ hashes_of f.sha256 files readings before
        → Confirmed found hashes items from files readings
    unfolding Takes hashes_of
    Takes-Confirmed [] [] b b' before s t d all e = tt
    Takes-Confirmed [] (_ ∷ _) b b' before s t d all e = elim t [ ]
    Takes-Confirmed (_ ∷ _) [] b b' before s t d all e = elim t [ ]
    Takes-Confirmed ((n, i) ∷ files) (r ∷ readings) b b' before s (b1, took, t) (new, d) (one, all)
          e =
        let now = assign n (f.sha256 r.contents) before in
        (
          confirmed b b1 n i r s took one (
              ap (value_of n) e
              ∙ hashes_of-other f.sha256 files readings now n new
              ∙ value_of-assign n (f.sha256 r.contents) before),
          Takes-Confirmed files readings b1 b' now _ t d all e,
        )

  scan-IsEntered :
      (s : w.State) (found : Inventory)
      → IsDistinct (paths (w.walk s).0)
      → (scan w s).0 ≡ ok found
      → IsEntered found
  unfolding scan contains
  scan-IsEntered s found d h =
      visit_all-IsEntered w (w.walk s).0 nothing (w.walk s).1 found d (λ p known. refl)
        (record { distinct = tt; entered = tt }) h

  -- What a bundle has got of the directory of the configuration.
  pub record IsConfigured (start : w.State) (b b' : Builder) : Type 0 where
    pub run : Captured w f.sha256 (add_reading w f) start b b'
    pub members : b'.members ≡ b.members ++ config_members run.found.files run.readings
    -- the second walk, which begins when all files have been captured
    pub confirmed :
        Confirmed run.found
          (hashes_of f.sha256 run.found.files run.readings [])
          (w.walk (again w f.sha256 (add_reading w f) start run.found b)).0
          (w.walk (again w f.sha256 (add_reading w f) start run.found b)).1
          run.found.files
          run.readings

  -- If the configuration has been captured for a bundle without an error, and no walk without errors comes
  -- by a path twice, the bundle has got one member under `config/` for each file that the first walk found, in
  -- their order, and nothing else. Each is a regular file in the size that its info says; and the second
  -- walk, which begins in the state behind the capture of all of them, comes to its path in a state in which
  -- the file is opened and read to its end, with the same SHA-256.
  pub capture_config-IsConfigured :
      (walks_once : WalksOnce w) (dir : Bytes) (b : Builder) (s : w.State) (b' : Builder)
      → is_empty dir ≡ false
      → (capture_config w f.sha256 dir (add_reading w f) b s).0 ≡ ok b'
      → IsConfigured (walk_state w dir s) b b'
  capture_config-IsConfigured walks_once dir b s b' set h =
      let stable =
        capture_config-IsStable w f.sha256 (add_reading w f) walks_once dir b s b' set h in
      let c = stable.run in
      let start = walk_state w dir s in
      let second = w.walk (again w f.sha256 (add_reading w f) start c.found b) in
      let hashes = hashes_of f.sha256 c.found.files c.readings [] in
      let once = walks_once start (scan-fine w start c.found c.scanned) in
      let i = scan-IsEntered start c.found once c.scanned in
      record {
        run = c;
        members = Takes-members c.found.files c.readings b b' _ c.takes;
        confirmed =
            Takes-Confirmed c.found hashes second.0 second.1
              (λ p known.
                AllSeen-Reaches w f.sha256 c.found hashes second.0 second.1 stable.all_seen p
                  (stable.same_paths p ∙ sym (scan-entries w start c.found c.scanned p) ∙ known))
              c.found.files c.readings b b' [] _ c.takes i.distinct i.entered refl;
      }
