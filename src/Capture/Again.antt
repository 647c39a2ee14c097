-- ===== src/Capture/Again.antt =====
-- internal/backup/capture.go: the second walk of captureConfig.
use mongodb_backup_s.Base.{
  ℕ, ◌+◌, suc, ◌≡◌, ◌⊎◌, refl, sym, ◌∙◌, ap, subst, true, not, List, [], ◌∷◌, ◌++◌, Option, none,
  some, Bytes, All, str_eq, str_eq→eq, length, Error, Result, ok, ok-injective, Bool-cases, inl,
  inr, arith, config_changed,
}
use mongodb_backup_s.Members.{config_directory}
use mongodb_backup_s.World.{
  World, FileInfo, lift, check_ctx, >>=-eq-ok, >>-eq-ok, lift-fail_if-eq-ok,
}
use mongodb_backup_s.Databases.{contains}
use mongodb_backup_s.Capture.{Reading, Inventory, value_of, is_regular, still_no_link}
use mongodb_backup_s.Capture.Files.{tried, read_all, capture_file}
use mongodb_backup_s.Capture.Directory.{
  walked, compared, same_hash, only_read, same_contents, read_again, visit_again, visit_all_again,
}
use mongodb_backup_s.Capture.Taken.{IsFaithful, Took-size, opened_state, capture_file-Took}
use mongodb_backup_s.Capture.Paths.{paths, value_of-contains}

compared-eq-ok :
    (before : Option FileInfo) (after : Result FileInfo) (info : FileInfo)
    → compared before after ≡ ok info
    → (before ≡ some info) × (still_no_link info after ≡ true)
unfolding compared
compared-eq-ok none after info h = cc
compared-eq-ok (some before) after info h = elim (Bool-cases (still_no_link before after)) [
  | inl e ↦
      let same = ok-injective (rw e at h) in
      (ap some same, subst (λ i. still_no_link i after ≡ true) same e)
  | inr e ↦ cc (rw e at h)
]

pub walked-eq-ok : (e : Option Error) → walked e ≡ ok tt → e ≡ none
unfolding walked
walked-eq-ok none h = refl
walked-eq-ok (some e) h = cc

module _ (w : World) where
  -- A file that has been opened again after its look from a state on, and read to its end.
  pub record ReadAgain (sha256 : Bytes → Bytes) (hashes : List (Bytes × Bytes)) (name : Bytes)
      (before : FileInfo) (s : w.State) : Type 0 where
    pub file : ℕ
    pub found : (w.root_open name (w.root_lstat name s).1).0 ≡ ok file
    pub reading : Reading
    pub read : (read_all w file (opened_state w name file s)).0 ≡ ok reading
    pub size : length reading.contents ≡ before.size
    pub same : same_hash (value_of name hashes) (sha256 reading.contents) ≡ true

  -- What the second walk found at a path when it came there in a state: a link or a file that the first
  -- walk did not see there, or one of another info, would have ended it.
  pub record SeenAgain (sha256 : Bytes → Bytes) (found : Inventory) (hashes : List (Bytes × Bytes))
      (name : Bytes) (at : w.State) : Type 0 where
    pub before : FileInfo
    pub known : value_of name found.entries ≡ some before
    pub unchanged : still_no_link before (w.root_lstat name at).0 ≡ true
    -- a regular file has been read to its end, and the hash is that of what was taken
    pub contents :
        is_regular before ≡ true → ReadAgain sha256 hashes name before (w.root_lstat name at).1

  only_read-IsFaithful : IsFaithful w (only_read w)
  unfolding only_read lift
  only_read-IsFaithful = record {
    has_read = λ name read s x r h.
        let (r', e, h1) = >>=-eq-ok read _ s h in
        e ∙ ap ok (ap (λ (p : Unit {0} × Reading). p.1) (ok-injective h1));
  }

  module _ (sha256 : Bytes → Bytes) (found : Inventory) (hashes : List (Bytes × Bytes)) where
    same_contents-ReadAgain :
        (name : Bytes) (before : FileInfo) (s : w.State)
        → (same_contents w sha256 name before hashes s).0 ≡ ok tt
        → ReadAgain sha256 hashes name before s
    unfolding same_contents lift
    same_contents-ReadAgain name before s h =
        let ((u, r), e, h1) = >>=-eq-ok (capture_file w name before (only_read w)) _ s h in
        let s1 = (capture_file w name before (only_read w) s).1 in
        let took = capture_file-Took w name before (only_read w) s u r e in
        let known = same_hash (value_of name hashes) (sha256 r.contents) in
        let fine = lift-fail_if-eq-ok (not known) config_changed s1 h1 in
        record {
          file = took.file;
          found = took.found;
          reading = r;
          read =
              only_read-IsFaithful.has_read (config_directory ++ name) (read_all w took.file)
                (opened_state w name took.file s) u r took.added;
          size = Took-size w (only_read w) name before u r s only_read-IsFaithful took;
          same = ground (arith, fine);
        }

    visit_again-SeenAgain :
        (name : Bytes) (walk_err : Option Error) (s : w.State)
        → (visit_again w sha256 found hashes (name, walk_err) s).0 ≡ ok tt
        → (walk_err ≡ none) × SeenAgain sha256 found hashes name s
    unfolding visit_again lift tried check_ctx
    visit_again-SeenAgain name walk_err s h =
        let (_, h1) = >>-eq-ok (check_ctx w) _ s h in
        let (e2, h2) = >>-eq-ok (lift (walked walk_err)) _ s h1 in
        let (after, e3, h3) = >>=-eq-ok (tried (w.root_lstat name)) _ s h2 in
        let s2 = (w.root_lstat name s).1 in
        let (before, e4, h4) =
          >>=-eq-ok (lift (compared (value_of name found.entries) after)) _ s2 h3 in
        let (known, unchanged) = compared-eq-ok (value_of name found.entries) after before e4 in
        (
          walked-eq-ok walk_err e2,
          record {
            before = before;
            known = known;
            unchanged = ap (still_no_link before) (ok-injective e3) ∙ unchanged;
            contents =
                λ regular. same_contents-ReadAgain name before s2 (rw (regular, read_again) at h4);
          },
        )

    -- What the second walk found at its paths, one behind the other, from a state on. It has no errors.
    unfoldable pub AllSeen : List (Bytes × Option Error) → w.State → Type 0
    unfolding visit_again
    AllSeen [] s = Unit
    AllSeen ((name, walk_err) ∷ items) s =
        (walk_err ≡ none)
        × SeenAgain sha256 found hashes name s
        × AllSeen items (visit_again w sha256 found hashes (name, walk_err) s).1

    -- The second walk comes to a path in a state.
    unfoldable pub Reaches : List (Bytes × Option Error) → w.State → Bytes → w.State → Type 0
    unfolding visit_again
    Reaches [] s p at = ⊥
    Reaches ((name, walk_err) ∷ items) s p at =
        ((name ≡ p) × (s ≡ at))
        ⊎ Reaches items (visit_again w sha256 found hashes (name, walk_err) s).1 p at

    pub AllSeen-Reaches :
        (items : List (Bytes × Option Error)) (s : w.State)
        → AllSeen items s
        → (p : Bytes) → contains (paths items) p ≡ true
        → (at : w.State) × Reaches items s p at × SeenAgain sha256 found hashes p at
    unfolding contains AllSeen Reaches
    AllSeen-Reaches [] s all p h = cc
    AllSeen-Reaches ((name, walk_err) ∷ items) s (fine, one, all) p h =
        elim (Bool-cases (str_eq p name)) [
          | inl e ↦
              let same = sym (str_eq→eq p name e) in
              (s, inl (same, refl), subst (λ n. SeenAgain sha256 found hashes n s) same one)
          | inr e ↦
              let (at, reached, seen) =
                AllSeen-Reaches items (visit_again w sha256 found hashes (name, walk_err) s).1 all p
                  (rw e at h) in
              (at, inr reached, seen)
        ]

    pub AllSeen-fine :
        (items : List (Bytes × Option Error)) (s : w.State)
        → AllSeen items s
        → All (λ item. item.1 ≡ none) items
    unfolding AllSeen
    AllSeen-fine [] s all = tt
    AllSeen-fine ((name, walk_err) ∷ items) s (fine, one, all) = (fine, AllSeen-fine items _ all)

    pub visit_all_again-AllSeen :
        (items : List (Bytes × Option Error)) (seen : ℕ) (s : w.State) (n : ℕ)
        → (visit_all_again w sha256 found hashes items seen s).0 ≡ ok n
        → (n ≡ seen + length (paths items)) × AllSeen items s
    unfolding visit_all_again AllSeen lift
    visit_all_again-AllSeen [] seen s n h = (omega (arith, ok-injective h), tt)
    visit_all_again-AllSeen ((name, walk_err) ∷ items) seen s n h =
        let (e, h1) = >>-eq-ok (visit_again w sha256 found hashes (name, walk_err)) _ s h in
        let s1 = (visit_again w sha256 found hashes (name, walk_err) s).1 in
        let (more, rest) = visit_all_again-AllSeen items (suc seen) s1 n h1 in
        let (fine, one) = visit_again-SeenAgain name walk_err s e in
        (omega (arith, more), (fine, one, rest))

    pub inside :
        (items : List (Bytes × Option Error)) (s : w.State)
        → AllSeen items s
        → (p : Bytes) → contains (paths items) p ≡ true
        → contains (paths found.entries) p ≡ true
    inside items s all p h =
        let (at, reached, one) = AllSeen-Reaches items s all p h in
        value_of-contains p found.entries one.before one.known
