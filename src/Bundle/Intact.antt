-- ===== src/Bundle/Intact.antt =====
-- internal/backup/bundle.go, validateBundle: the members of an accepted bundle.
use mongodb_backup_s.Base.{
  ◌≡◌, refl, ◌∙◌, ap, subst, Bool, true, false, ◌||◌, not, List, [], ◌∷◌, Option, none, some, Bytes,
  ◌==◌, if◌then◌else◌, str_eq, str_eq→eq, length, arith, Bool-cases, inl, inr, Result, ok, err,
  fail_if, fail_if-eq-ok, >>-eq-ok, >>=-eq-ok, ok-injective, checksum_mismatch,
}
use mongodb_backup_s.Config.{Config}
use mongodb_backup_s.Members.{manifest_json}
use mongodb_backup_s.World.{ZipFile}
use mongodb_backup_s.Bundle.{FileRecord, Manifest, Formats, find_record}
use mongodb_backup_s.Bundle.Validate.{
  find_file, check_members, read_manifest, check_manifest, check_contents, read_member,
  check_member, check_files, validate_bundle,
}

-- A member is whole: it is read to its end without an error, and what it holds has the size and
-- the SHA-256 that the manifest records under its name.
pub record IsIntact (f : Formats) (m : Manifest) (name : Bytes) (z : ZipFile) : Type 0 where
  pub recorded : FileRecord
  pub known : find_record name m.files ≡ some recorded
  pub contents : Bytes
  pub opened : z.opens ≡ ok tt
  pub read : z.read ≡ ok contents
  pub size : length contents ≡ recorded.size
  pub hash : f.sha256_hex contents ≡ recorded.sha256

read_member-eq-ok :
    (read : Result Bytes) (contents : Bytes) → read_member read ≡ ok contents → read ≡ ok contents
unfolding read_member
read_member-eq-ok (ok text) contents h = h
read_member-eq-ok (err e) contents h = cc

check_member-IsIntact :
    (f : Formats) (m : Manifest) (name : Bytes) (z : ZipFile) (entry : Option FileRecord)
    → find_record name m.files ≡ entry
    → check_member f entry z ≡ ok tt
    → IsIntact f m name z
unfolding check_member check_contents
check_member-IsIntact f m name z none e h = cc
check_member-IsIntact f m name z (some r) e h =
    let (_, h1) = fail_if-eq-ok (not (r.size == z.uncompressed_size)) _ _ h in
    let (opens, h2) = >>-eq-ok z.opens _ h1 in
    let (contents, read, h3) = >>=-eq-ok (read_member z.read) _ h2 in
    let bad = not (length contents == r.size) || not (str_eq (f.sha256_hex contents) r.sha256) in
    let fine = check_passes bad h3 in
    record {
      recorded = r;
      known = e;
      contents = contents;
      opened = opens;
      read = read_member-eq-ok z.read contents read;
      size = ground (arith, fine);
      hash = str_eq→eq (f.sha256_hex contents) r.sha256 (ground (arith, fine));
    }
  where
    check_passes : (bad : Bool) → fail_if bad checksum_mismatch ≡ ok tt → bad ≡ false
    check_passes true k = cc
    check_passes false k = refl

check_files_find :
    (f : Formats) (m : Manifest) (name : Bytes) (zs : List ZipFile) (z : ZipFile)
    → check_files f m zs ≡ ok tt
    → find_file name zs ≡ some z
    → str_eq name manifest_json ≡ false
    → check_member f (find_record name m.files) z ≡ ok tt
unfolding check_files find_file
check_files_find f m name [] z h found part = cc
check_files_find f m name (y ∷ zs) z h found part =
    let (own, rest) =
      >>-eq-ok
        (if str_eq y.name manifest_json
          then ok tt
          else check_member f (find_record y.name m.files) y)
        _ h in
    elim (Bool-cases (str_eq y.name name)) [
      | inr e ↦ check_files_find f m name zs z rest (rw e at found) part
      | inl e ↦
          let same_name = str_eq→eq y.name name e in
          let same_file : y ≡ z = cc (rw e at found) in
          subst (λ (x : ZipFile). check_member f (find_record name m.files) x ≡ ok tt) same_file
            (subst (λ n. check_member f (find_record n m.files) y ≡ ok tt) same_name
              (rw (ap (λ n. str_eq n manifest_json) same_name ∙ part) at own))
    ]

-- In a bundle that validateBundle accepts, every member but the manifest opens and is read without
-- an error, and it has the size and the SHA-256 that the returned manifest records for its name.
pub validate_bundle-IsIntact :
    (f : Formats) (c : Config) (zs : List ZipFile) (m : Manifest) (name : Bytes) (z : ZipFile)
    → validate_bundle f c zs ≡ ok m
    → find_file name zs ≡ some z
    → str_eq name manifest_json ≡ false
    → IsIntact f m name z
unfolding validate_bundle
validate_bundle-IsIntact f c zs m name z h found part =
    let (_, h1) = >>-eq-ok (check_members [] zs) _ h in
    let (m', _, h2) = >>=-eq-ok (read_manifest f (find_file manifest_json zs)) _ h1 in
    let (_, h3) = >>-eq-ok (check_manifest c zs m') _ h2 in
    let (files, h4) = >>-eq-ok (check_files f m' zs) _ h3 in
    let (_, h5) = fail_if-eq-ok _ _ _ h4 in
    subst (λ x. IsIntact f x name z) (ok-injective h5)
      (check_member-IsIntact f m' name z (find_record name m'.files) refl
        (check_files_find f m' name zs z files found part))
