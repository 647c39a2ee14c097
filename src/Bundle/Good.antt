-- ===== src/Bundle/Good.antt =====
-- internal/backup/bundle.go: what holds of the parts of a bundle while `add` of writeBundle collects them.
use mongodb_backup_s.Base.{
  ◌≡◌, refl, sym, ◌∙◌, ap, true, false, ◌||◌, List, [], ◌∷◌, ◌++◌, map, none, some, Bytes,
  if◌then◌else◌, str_eq, str_eq_refl, str_eq→eq, utf8_valid, length, length-append, All, All-append,
  All-map, arith, ok,
}
use mongodb_backup_s.Members.{safe_member, allowed_member, manifest_json}
use mongodb_backup_s.World.{ZipFile, Member}
use mongodb_backup_s.Bundle.{FileRecord, Formats, find_record, IsDistinctFiles}
use mongodb_backup_s.Bundle.Write.{Builder, has_file, record_of, put}
use mongodb_backup_s.Bundle.Validate.{has_member, check_members}

-- A member as it is read back from an archive that is intact.
abbrev pub stored : Member → ZipFile
stored m = record {
  name = m.name;
  special = false;
  uncompressed_size = length m.contents;
  opens = ok tt;
  read = ok m.contents;
}

pub has_member-append :
    (zs ys : List ZipFile) (name : Bytes)
    → has_member (zs ++ ys) name ≡ (has_member zs name || has_member ys name)
unfolding has_member
has_member-append [] ys name = refl
has_member-append (z ∷ zs) ys name = ground (arith, has_member-append zs ys name)

pub has_member-cons :
    (z : ZipFile) (zs : List ZipFile) (name : Bytes)
    → has_member (z ∷ zs) name ≡ (str_eq z.name name || has_member zs name)
unfolding has_member
has_member-cons z zs name = ground arith

pub has_member-nil : (name : Bytes) → has_member [] name ≡ false
unfolding has_member
has_member-nil name = refl

-- A member that can be added behind others.
pub check_members-append :
    (seen zs : List ZipFile) (z : ZipFile)
    → check_members seen zs ≡ ok tt
    → safe_member z.name ≡ true
    → allowed_member z.name ≡ true
    → z.special ≡ false
    → has_member zs z.name ≡ false
    → has_member seen z.name ≡ false
    → check_members seen (zs ++ (z ∷ [])) ≡ ok tt
unfolding check_members
check_members-append seen [] z h safe allowed plain new1 new2 = ground arith
check_members-append seen (y ∷ zs) z h safe allowed plain new1 new2 = ground (
  arith,
  has_member-cons y zs z.name,
  has_member-cons y seen z.name,
  check_members-append (y ∷ seen) zs z,
)

-- The two maps of names agree, and the archive so far passes the checks of a reader.
pub record IsGood (f : Formats) (b : Builder) : Type 0 where
  pub checked : check_members [] (map stored b.members) ≡ ok tt
  pub agree : (name : Bytes) → has_member (map stored b.members) name ≡ has_file b.files name
  pub records : All (λ m. find_record m.name b.files ≡ some (record_of f m.contents)) b.members
  pub counted : length b.files ≡ length b.members
  pub proper : All (λ m. str_eq m.name manifest_json ≡ false) b.members
  pub names : All (λ e. utf8_valid e.0 ≡ true) b.files
  pub sums : All (λ e. (contents : Bytes) × (e.1 ≡ record_of f contents)) b.files
  pub distinct : IsDistinctFiles b.files

find_record-append :
    (name other : Bytes) (r : FileRecord) (files : List (Bytes × FileRecord))
    → find_record name (files ++ ((other, r) ∷ [])) ≡ (
        if has_file files name
        then find_record name files
        else if str_eq other name
        then some r
        else none)
unfolding find_record has_file
find_record-append name other r [] = refl
find_record-append name other r ((k, s) ∷ files) =
    ground (arith, find_record-append name other r files)

has_file-append :
    (name other : Bytes) (r : FileRecord) (files : List (Bytes × FileRecord))
    → has_file (files ++ ((other, r) ∷ [])) name ≡ (has_file files name || str_eq other name)
unfolding has_file
has_file-append name other r [] = unfold find_record in ground arith
has_file-append name other r ((k, s) ∷ files) =
    unfold find_record in ground (arith, has_file-append name other r files)

has_file-none :
    (name : Bytes) (files : List (Bytes × FileRecord))
    → find_record name files ≡ none
    → has_file files name ≡ false
unfolding has_file
has_file-none name files h = rw (h, has_file)

has_file-some :
    (name : Bytes) (files : List (Bytes × FileRecord)) {r : FileRecord}
    → find_record name files ≡ some r
    → has_file files name ≡ true
unfolding has_file
has_file-some name files h = rw (h, has_file)

-- A name that is not among the files, behind them.
distinct-append :
    (files : List (Bytes × FileRecord)) (name : Bytes) (r : FileRecord)
    → IsDistinctFiles files
    → has_file files name ≡ false
    → IsDistinctFiles (files ++ ((name, r) ∷ []))
unfolding IsDistinctFiles has_file find_record
distinct-append [] name r distinct new = (refl, tt)
distinct-append ((k, s) ∷ files) name r (alone, distinct) new = (
  ground (
    arith,
    find_record-append k name r files,
    has_file-none k files,
    str_eq→eq name k,
    str_eq_refl k,
  ),
  distinct-append files name r distinct (ground arith),
)

pub map-append_one :
    (ms : List Member) (m : Member) → map stored (ms ++ (m ∷ [])) ≡ map stored ms ++ (stored m ∷ [])
map-append_one [] m = refl
map-append_one (n ∷ ms) m = ap (λ l. stored n ∷ l) (map-append_one ms m)

pub has_member-put :
    (f : Formats) (b : Builder) (name contents other : Bytes)
    → has_member (map stored (put f b name contents).members) other
      ≡ (has_member (map stored b.members) other || str_eq name other)
unfolding put
has_member-put f b name contents other =
    rw (map-append_one b.members _, has_member-append)
      (ground (
        arith,
        has_member-cons (stored (record { name = name; contents = contents })) [] other,
        has_member-nil other,
      ))

module _ (f : Formats) (b : Builder) (name contents : Bytes) (good : IsGood f b) where
  put-record :
      (m : Member)
      → find_record m.name b.files ≡ some (record_of f m.contents)
      → find_record m.name (put f b name contents).files ≡ some (record_of f m.contents)
  unfolding put
  put-record m e =
      rw
        (
          find_record-append m.name name (record_of f contents) b.files,
          has_file-some m.name b.files e,
        )
        e

  added-record :
      has_file b.files name ≡ false
      → find_record name (put f b name contents).files ≡ some (record_of f contents)
  unfolding put
  added-record new =
      rw (find_record-append name name (record_of f contents) b.files, new, str_eq_refl name) refl

  pub put-IsGood :
      safe_member name ≡ true
      → allowed_member name ≡ true
      → str_eq name manifest_json ≡ false
      → has_file b.files name ≡ false
      → IsGood f (put f b name contents)
  unfolding put safe_member
  put-IsGood safe allowed other new = record {
    checked = rw (map-append_one b.members (record { name = name; contents = contents })) (
        check_members-append [] (map stored b.members) _ good.checked safe allowed refl
          (good.agree name ∙ new) (has_member-nil name));
    agree = λ n.
        has_member-put f b name contents n
        ∙ ap (λ x. x || str_eq name n) (good.agree n)
        ∙ sym (has_file-append n name (record_of f contents) b.files);
    records =
        All-append _ b.members _ (All-map _ _ (λ m e. put-record m e) b.members good.records)
          (added-record new, tt);
    counted = omega (
      arith,
      length-append b.files ((name, record_of f contents) ∷ []),
      length-append b.members (record { name = name; contents = contents } ∷ []),
      good.counted,
    );
    proper = All-append _ b.members _ good.proper (other, tt);
    names = All-append _ b.files _ good.names (ground arith, tt);
    sums = All-append _ b.files _ good.sums ((contents, refl), tt);
    distinct = distinct-append b.files name _ good.distinct new;
  }
