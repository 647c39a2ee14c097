-- ===== src/Config/Databases.antt =====
-- internal/backup/config.go: parseDatabaseList, systemDatabase and validateDatabases.
use mathlib.Core.List.{cons-ne-nil}
use mongodb_backup_s.Base.{
  fail_if-eq-ok, refl, ◌↔◌, ℕ, ◌<◌, ◌≡◌, ◌≢◌, Bool, true, false, ◌||◌, not, List, [], ◌∷◌, map,
  Bytes, codes, ltb, leb, ◌==◌, is_empty, any, contains_any, split, str_eq, trim_space, utf8_valid,
  length, All, arith, databases_empty, database_name_invalid, database_internal, Result, ok, ◌>>◌,
  fail_if,
}

unfoldable pub parse_database_list : Bytes → List Bytes
unfolding split trim_space
parse_database_list value = map trim_space (split value b',')

unfoldable pub system_database : Bytes → Bool
unfolding str_eq
system_database name =
    str_eq name (codes "admin") || str_eq name (codes "local") || str_eq name (codes "config")

-- `"/\\.\"$*<>:|? "`
abbrev pub forbidden_bytes : Bytes
forbidden_bytes = codes "/\\.\"$*<>:|? "

abbrev pub is_control : ℕ → Bool
is_control c = ltb c 32 || c == 127

-- The first test of the loop. The search for control characters goes over runes, which are control
-- characters just where a byte is.
unfoldable pub is_invalid_name : Bytes → Bool
unfolding utf8_valid
is_invalid_name name =
    is_empty name
    || leb 64 (length name)
    || not (utf8_valid name)
    || contains_any name forbidden_bytes
    || any is_control name

check_names : List Bytes → Result (Unit {0})
unfolding is_invalid_name system_database
check_names [] = ok tt
check_names (name ∷ names) = do
  fail_if (is_invalid_name name) database_name_invalid
  fail_if (system_database name) database_internal
  check_names names

unfoldable pub validate_databases : List Bytes → Result (Unit {0})
unfolding check_names
validate_databases names = do fail_if (is_empty names) databases_empty; check_names names

-- What a name must be to be backed up on its own.
pub record IsDatabase (name : Bytes) : Type 0 where
  pub nonempty : name ≢ []
  pub short : length name < 64
  pub utf8 : utf8_valid name ≡ true
  pub plain : contains_any name forbidden_bytes ≡ false
  pub printable : any is_control name ≡ false
  pub own : system_database name ≡ false

is_empty-eq_false {ℓ} : {A : Type ℓ} (s : List A) → is_empty s ≡ false → s ≢ []
is_empty-eq_false [] h = cc
is_empty-eq_false (c ∷ s) h = cons-ne-nil c s

valid_name :
    (name : Bytes) → is_invalid_name name ≡ false → system_database name ≡ false → IsDatabase name
unfolding is_invalid_name
valid_name name h own = record {
  nonempty = is_empty-eq_false name (ground arith);
  short = ground arith;
  utf8 = ground arith;
  plain = ground arith;
  printable = ground arith;
  own = own;
}

valid_name_complete : (name : Bytes) → IsDatabase name → is_invalid_name name ≡ false
unfolding is_invalid_name
valid_name_complete [] d = absurd (d.nonempty refl)
valid_name_complete (c ∷ s) d = ground arith

check_names_sound : (names : List Bytes) → check_names names ≡ ok tt → All IsDatabase names
unfolding check_names
check_names_sound [] h = tt
check_names_sound (name ∷ names) h =
    let (valid, rest) = fail_if-eq-ok (is_invalid_name name) _ _ h in
    let (own, others) = fail_if-eq-ok (system_database name) _ _ rest in
    (valid_name name valid own, check_names_sound names others)

check_names_complete : (names : List Bytes) → All IsDatabase names → check_names names ≡ ok tt
unfolding check_names
check_names_complete [] h = refl
check_names_complete (name ∷ names) (d, h) =
    rw (valid_name_complete name d, d.own) (check_names_complete names h)

-- The check passes exactly the lists of at least one name in which every name may be backed up.
pub validate_databases_iff :
    (names : List Bytes)
    → (validate_databases names ≡ ok tt) ↔ ((names ≢ []) × All IsDatabase names)
unfolding validate_databases
validate_databases_iff [] = (λ h. cc, λ h. absurd (h.0 refl))
validate_databases_iff (name ∷ names) = (
  λ h. (cons-ne-nil name names, check_names_sound (name ∷ names) h),
  λ h. check_names_complete (name ∷ names) h.1,
)
