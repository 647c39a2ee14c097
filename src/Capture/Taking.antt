-- ===== src/Capture/Taking.antt =====
-- internal/backup/capture.go: the files of the first walk, their entries and their hashes, each under a
-- path of its own.
use mongodb_backup_s.Base.{
  ◌≡◌, refl, sym, ◌∙◌, ap, subst, true, false, ◌||◌, List, [], ◌∷◌, ◌++◌, Option, some, Bytes, All,
  All-append, str_eq, str_eq→eq, str_eq_refl, Bool-cases, inl, inr, arith, ok-injective, ok, Error,
  contains_byte, config_path_unsafe, fail_if,
}
use mongodb_backup_s.World.{World, FileInfo, lift, check_ctx, >>=-eq-ok, >>-eq-ok}
use mongodb_backup_s.Databases.{contains}
use mongodb_backup_s.Databases.Selected.{IsDistinct}
use mongodb_backup_s.Capture.{Reading, Inventory, assign, value_of, is_dir, is_regular, config_link}
use mongodb_backup_s.Capture.Files.{explained}
use mongodb_backup_s.Capture.Directory.{walked, sort_out, visit, visit_all}
use mongodb_backup_s.Capture.Taken.{hashes_of}
use mongodb_backup_s.Capture.Stable.{sort_out-entries}
use mongodb_backup_s.Capture.Paths.{paths, contains-assign, value_of-contains, str_eq_sym}

pub value_of-assign {ℓ} :
    {A : Type ℓ} (key : Bytes) (value : A) (entries : List (Bytes × A))
    → value_of key (assign key value entries) ≡ some value
unfolding value_of assign
value_of-assign key value [] = rw (str_eq_refl key, value_of) refl
value_of-assign key value ((other, old) ∷ entries) = elim (Bool-cases (str_eq other key)) [
  | inl e ↦ rw (e, assign, str_eq_refl key) refl
  | inr e ↦ rw (e, assign, e) (value_of-assign key value entries)
]

pub value_of-other {ℓ} :
    {A : Type ℓ} (key k : Bytes) (value : A) (entries : List (Bytes × A))
    → str_eq key k ≡ false
    → value_of k (assign key value entries) ≡ value_of k entries
unfolding value_of assign
value_of-other key k value [] other = rw other refl
value_of-other key k value ((n, old) ∷ entries) other = elim (Bool-cases (str_eq n key)) [
  | inl e ↦ rw (e, assign, str_eq→eq n key e, other) refl
  | inr e ↦ elim (Bool-cases (str_eq n k)) [
    | inl same ↦ rw (e, assign, same) refl
    | inr apart ↦ rw (e, assign, apart) (value_of-other key k value entries other)
  ]
]

contains-append :
    (xs ys : List Bytes) (p : Bytes) → contains (xs ++ ys) p ≡ (contains xs p || contains ys p)
unfolding contains
contains-append [] ys p = refl
contains-append (x ∷ xs) ys p = ground (arith, contains-append xs ys p)

IsDistinct-append_one :
    (xs : List Bytes) (y : Bytes)
    → IsDistinct xs
    → contains xs y ≡ false
    → IsDistinct (xs ++ (y ∷ []))
unfolding contains
IsDistinct-append_one [] y d fresh = (refl, tt)
IsDistinct-append_one (x ∷ xs) y (new, d) fresh = (
  contains-append xs (y ∷ []) x ∙ ground (arith, new, fresh, str_eq_sym x y),
  IsDistinct-append_one xs y d (ground (arith, fresh)),
)

paths-append_one :
    (files : List (Bytes × FileInfo)) (name : Bytes) (info : FileInfo)
    → paths (files ++ ((name, info) ∷ [])) ≡ paths files ++ (name ∷ [])
paths-append_one [] name info = refl
paths-append_one (f ∷ files) name info = ap (λ xs. f.0 ∷ xs) (paths-append_one files name info)

-- A file that is entered under its path.
abbrev pub Entered : List (Bytes × FileInfo) → Bytes × FileInfo → Type 0
Entered entries file = (is_regular file.1 ≡ true) × (value_of file.0 entries ≡ some file.1)

pub record IsEntered (found : Inventory) : Type 0 where
  pub distinct : IsDistinct (paths found.files)
  pub entered : All (Entered found.entries) found.files

-- A path that the walk comes by for the first time.
abbrev Fresh : List (Bytes × FileInfo) → Bytes → Type 0
Fresh entries name = contains (paths entries) name ≡ false

assign-Entered :
    (name : Bytes) (info : FileInfo) (entries : List (Bytes × FileInfo))
    (files : List (Bytes × FileInfo))
    → Fresh entries name
    → All (Entered entries) files
    → All (Entered (assign name info entries)) files × (contains (paths files) name ≡ false)
unfolding contains
assign-Entered name info entries [] fresh all = (tt, refl)
assign-Entered name info entries ((n, i) ∷ files) fresh ((regular, known), all) =
    let (rest, apart) = assign-Entered name info entries files fresh all in
    elim (Bool-cases (str_eq name n)) [
      | inl e ↦ cc (
        subst (λ m. contains (paths entries) m ≡ true) (sym (str_eq→eq name n e))
            (value_of-contains n entries i known),
        fresh,
      )
      | inr e ↦ (((regular, value_of-other name n info entries e ∙ known), rest), rw e apart)
    ]

sort_out-IsEntered :
    (name : Bytes) (info : FileInfo) (found found' : Inventory)
    → Fresh found.entries name
    → IsEntered found
    → sort_out name info found ≡ ok found'
    → IsEntered found'
unfolding sort_out
sort_out-IsEntered name info found found' fresh i h =
    let (all, apart) = assign-Entered name info found.entries found.files fresh i.entered in
    elim (Bool-cases (is_dir info)) [
      | inl e ↦
          subst IsEntered (ok-injective (rw e at h))
            (record { distinct = i.distinct; entered = all })
      | inr e ↦ elim (Bool-cases (is_regular info)) [
        | inl file ↦ subst IsEntered (ok-injective (rw (e, file) at h)) (record {
          distinct =
              subst IsDistinct (sym (paths-append_one found.files name info))
                (IsDistinct-append_one (paths found.files) name i.distinct apart);
          entered =
              All-append (Entered (assign name info found.entries)) found.files ((name, info) ∷ [])
                all ((file, value_of-assign name info found.entries), tt);
        })
        | inr other ↦ cc (rw (e, other) at h)
      ]
    ]

module _ (w : World) where
  visit-IsEntered :
      (name : Bytes) (walk_err : Option Error) (found : Inventory) (s : w.State)
      (found' : Inventory)
      → Fresh found.entries name
      → IsEntered found
      → (visit w (name, walk_err) found s).0 ≡ ok found'
      → IsEntered found'
        × ((p : Bytes)
            → contains (paths found'.entries) p
              ≡ (str_eq p name || contains (paths found.entries) p))
  unfolding visit lift
  visit-IsEntered name walk_err found s found' fresh i h =
      let (_, h1) = >>-eq-ok (check_ctx w) _ s h in
      let s1 = (check_ctx w s).1 in
      let (_, h2) = >>-eq-ok (lift (walked walk_err)) _ s1 h1 in
      let (info, _, h3) = >>=-eq-ok (explained (w.root_lstat name)) _ s1 h2 in
      let s2 = (explained (w.root_lstat name) s1).1 in
      let bad = config_link info || contains_byte name 92 in
      let (_, h4) = >>-eq-ok (lift (fail_if bad config_path_unsafe)) _ s2 h3 in
      (
        sort_out-IsEntered name info found found' fresh i h4,
        λ p.
            ap (λ entries. contains (paths entries) p) (sort_out-entries name info found found' h4)
            ∙ contains-assign name info found.entries p,
      )

  -- A walk that comes by each path once enters each file once.
  pub visit_all-IsEntered :
      (items : List (Bytes × Option Error)) (found : Inventory) (s : w.State) (found' : Inventory)
      → IsDistinct (paths items)
      → ((p : Bytes) → contains (paths items) p ≡ true → Fresh found.entries p)
      → IsEntered found
      → (visit_all w items found s).0 ≡ ok found'
      → IsEntered found'
  unfolding visit_all contains lift
  visit_all-IsEntered [] found s found' d fresh i h = subst IsEntered (ok-injective h) i
  visit_all-IsEntered ((name, walk_err) ∷ items) found s found' (new, d) fresh i h =
      let (found1, e, h1) = >>=-eq-ok (visit w (name, walk_err) found) _ s h in
      let (i1, known) =
        visit-IsEntered name walk_err found s found1 (fresh name (rw (str_eq_refl name) refl)) i
          e in
      visit_all-IsEntered items found1 (visit w (name, walk_err) found s).1 found' d
        (still_fresh found1 known) i1 h1
    where
      still_fresh :
          (found1 : Inventory)
          → ((p : Bytes)
              → contains (paths found1.entries) p
                ≡ (str_eq p name || contains (paths found.entries) p))
          → (p : Bytes) → contains (paths items) p ≡ true
          → Fresh found1.entries p
      still_fresh found1 known p later = elim (Bool-cases (str_eq p name)) [
        | inl e ↦ cc (subst (λ n. contains (paths items) n ≡ true) (str_eq→eq p name e) later, new)
        | inr e ↦ known p ∙ rw e (fresh p (rw e later))
      ]

-- The hash of what a file gave, under its path.
pub hashes_of-other :
    (sha256 : Bytes → Bytes) (files : List (Bytes × FileInfo)) (readings : List Reading)
    (hashes : List (Bytes × Bytes)) (k : Bytes)
    → contains (paths files) k ≡ false
    → value_of k (hashes_of sha256 files readings hashes) ≡ value_of k hashes
unfolding hashes_of contains
hashes_of-other sha256 [] readings hashes k apart = refl
hashes_of-other sha256 (f ∷ files) [] hashes k apart = refl
hashes_of-other sha256 ((n, i) ∷ files) (r ∷ readings) hashes k apart =
    hashes_of-other sha256 files readings (assign n (sha256 r.contents) hashes) k
      (ground (arith, apart))
    ∙ value_of-other n k (sha256 r.contents) hashes (str_eq_sym n k ∙ ground (arith, apart))
