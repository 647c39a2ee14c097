-- ===== src/Tests/Json.antt =====
-- A format for manifests that is read back, in the place of encoding/json in the tests.
use mongodb_backup_s.Base.{
  ℕ, suc, zero, ◌≡◌, refl, Bool, true, false, List, [], ◌∷◌, Option, some, none, Bytes,
  if◌then◌else◌, ◌==◌, ◌*◌, ◌+◌, ◌%◌, length, ok, ok-injective, subst, utf8_valid-ascii, arith,
}
use mongodb_backup_s.Bundle.{FileRecord, Manifest, Formats, IsLawful}

-- A text in front of others: each byte behind a one, and a zero.
put_text : Bytes → Bytes → Bytes
put_text [] rest = 0 ∷ rest
put_text (c ∷ s) rest = 1 ∷ c ∷ put_text s rest

get_text : Bytes → Bytes × Bytes
get_text [] = ([], [])
get_text (zero ∷ rest) = ([], rest)
get_text (suc n ∷ []) = ([], [])
get_text (suc n ∷ c ∷ rest) = let (s, t) = get_text rest in (c ∷ s, t)

get-put_text : (s rest : Bytes) → get_text (put_text s rest) ≡ (s, rest)
unfolding get_text put_text
get-put_text [] rest = refl
get-put_text (c ∷ s) rest = rw (get-put_text s rest)

put_files : List (Bytes × FileRecord) → Bytes
unfolding put_text
put_files [] = []
put_files ((name, r) ∷ files) = r.size ∷ put_text name (put_text r.sha256 (put_files files))

get_files : ℕ → Bytes → List (Bytes × FileRecord)
unfolding get_text
get_files zero s = []
get_files (suc n) [] = []
get_files (suc n) (size ∷ s) =
    let (name, s1) = get_text s in
    let (sum, s2) = get_text s1 in (name, record { size = size; sha256 = sum }) ∷ get_files n s2

get-put_files :
    (files : List (Bytes × FileRecord)) → get_files (length files) (put_files files) ≡ files
unfolding get_files put_files
get-put_files [] = refl
get-put_files ((name, r) ∷ files) =
    rw (get-put_text name _, get-put_text r.sha256 _, get-put_files files)

bit : Bool → ℕ
bit b = if b then 1 else 0

bit-eq_one : (b : Bool) → (bit b == 1) ≡ b
unfolding bit
bit-eq_one true = refl
bit-eq_one false = refl

unfoldable pub write_json : Manifest → Bytes
unfolding bit put_text put_files
write_json m =
    m.format_version
    ∷ bit m.oplog
    ∷ m.started_at
    ∷ m.completed_at
    ∷ bit m.config_included
    ∷ length m.files
    ∷ put_text m.mode (
        put_text m.database (
          put_text m.server_version
            (put_text m.fcv (put_text m.tools_version (put_files m.files)))))

unfoldable pub read_json : Bytes → Option Manifest
unfolding get_text get_files
read_json (version ∷ oplog ∷ started ∷ completed ∷ config ∷ count ∷ s) =
    let (mode, s1) = get_text s in
    let (database, s2) = get_text s1 in
    let (server, s3) = get_text s2 in
    let (fcv, s4) = get_text s3 in
    let (tools, s5) = get_text s4 in
    some (record {
      format_version = version;
      mode = mode;
      database = database;
      oplog = oplog == 1;
      started_at = started;
      completed_at = completed;
      server_version = server;
      fcv = fcv;
      tools_version = tools;
      config_included = config == 1;
      files = get_files count s5;
    })
read_json _ = none

-- The sum of the bytes, in eight digits.
unfoldable pub checksum : Bytes → ℕ
checksum [] = 0
checksum (c ∷ s) = c + 3 * checksum s

abbrev pub test_formats : Formats
test_formats = record {
  sha256 = λ s. checksum s ∷ [];
  sha256_hex = λ s. checksum s % 128 ∷ [];
  to_json = λ m. ok (write_json m);
  from_json = read_json;
  replaced = λ s. s;
}

read-write_json : (m : Manifest) → read_json (write_json m) ≡ some m
unfolding read_json write_json
read-write_json m = rw (
  get-put_text m.mode _,
  get-put_text m.database _,
  get-put_text m.server_version _,
  get-put_text m.fcv _,
  get-put_text m.tools_version _,
  get-put_files m.files,
  bit-eq_one m.oplog,
  bit-eq_one m.config_included,
)

pub test_formats-IsLawful : IsLawful test_formats
test_formats-IsLawful = record {
  valid = λ s h. refl;
  replaced_empty = λ s. refl;
  hex_valid = λ s. utf8_valid-ascii (checksum s % 128) (omega arith);
  from_json-to_json = λ m text plain h. (
    m.files,
    record { counted = refl; found = λ name. refl },
    subst (λ t. read_json t ≡ some m) (ok-injective h) (read-write_json m),
  );
}
