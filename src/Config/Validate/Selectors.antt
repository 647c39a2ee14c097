-- ===== src/Config/Validate/Selectors.antt =====
-- internal/backup/config.go: the selectors that validateBackup lets through.
use mongodb_backup_s.Base.{
  ℕ, ◌≡◌, ◌⊎◌, inl, inr, refl, true, false, ◌&&◌, ◌||◌, not, List, [], ◌∷◌, Bytes, is_empty, str_eq,
  str_eq→eq, All, arith, Bool-cases, ok, fail_if-eq-ok, >>-eq-ok,
}
use mongodb_backup_s.Config.{Config, full, per_database}
use mongodb_backup_s.Config.Databases.{
  parse_database_list, validate_databases, IsDatabase, validate_databases_iff,
}
use mongodb_backup_s.Config.Validate.{
  validate_backup, check_selectors, check_full, check_single, check_named, check_excluded,
  all_databases,
}
use mongodb_backup_s.Config.Uri.{require_connection}

eq-nil {ℓ} : {A : Type ℓ} (s : List A) → is_empty s ≡ true → s ≡ []
eq-nil [] h = refl
eq-nil (c ∷ s) h = cc

-- No selector at all.
pub record IsWhole (c : Config) : Type 0 where
  pub mode : c.backup_mode ≡ full
  pub database : c.database ≡ []
  pub databases : c.databases ≡ []
  pub exclude : c.exclude ≡ []
  pub named : all_databases c ≡ false

-- All databases but those of a list that is empty or valid.
pub record IsAll (c : Config) : Type 0 where
  pub mode : c.backup_mode ≡ per_database
  pub database : c.database ≡ []
  pub databases : c.databases ≡ []
  pub all : all_databases c ≡ true
  pub exclude : (c.exclude ≡ []) ⊎ All IsDatabase (parse_database_list c.exclude)

-- A list of valid names, which wins over the single name, or a valid single name.
pub record IsNamed (c : Config) : Type 0 where
  pub mode : c.backup_mode ≡ per_database
  pub named : all_databases c ≡ false
  pub exclude : c.exclude ≡ []
  pub valid :
      All IsDatabase (parse_database_list c.databases)
      ⊎ ((c.databases ≡ []) × IsDatabase c.database)

check_full_sound : (c : Config) → c.backup_mode ≡ full → check_full c ≡ ok tt → IsWhole c
unfolding check_full
check_full_sound c mode h = record {
  mode = mode;
  database = eq-nil c.database (ground arith);
  databases = eq-nil c.databases (ground arith);
  exclude = eq-nil c.exclude (ground arith);
  named = ground arith;
}

valid_names : (names : List Bytes) → validate_databases names ≡ ok tt → All IsDatabase names
valid_names names h = ((validate_databases_iff names).0 h).1

check_excluded_sound :
    (c : Config)
    → check_excluded c ≡ ok tt
    → (c.exclude ≡ []) ⊎ All IsDatabase (parse_database_list c.exclude)
unfolding check_excluded
check_excluded_sound c h = elim (Bool-cases (is_empty c.exclude)) [
  | inl e ↦ inl (eq-nil c.exclude e)
  | inr e ↦ inr (valid_names _ (rw e at h))
]

check_named_sound :
    (c : Config)
    → (is_empty c.database && is_empty c.databases) ≡ false
    → check_named c ≡ ok tt
    → All IsDatabase (parse_database_list c.databases)
      ⊎ ((c.databases ≡ []) × IsDatabase c.database)
unfolding check_named
check_named_sound c given h = elim (Bool-cases (is_empty c.databases)) [
  | inr e ↦ inl (valid_names _ (rw e at h))
  | inl e ↦
      let f : is_empty c.database ≡ false = ground arith in
      inr (eq-nil c.databases e, (valid_names (c.database ∷ []) (rw (e, f) at h)).0)
]

check_single-eq-ok :
    (c : Config)
    → check_single c ≡ ok tt
    → ((all_databases c && (not (is_empty c.database) || not (is_empty c.databases))) ≡ false)
      × ((not (all_databases c) && is_empty c.database && is_empty c.databases) ≡ false)
      × ((not (is_empty c.exclude) && not (all_databases c)) ≡ false)
      × (check_named c ≡ ok tt)
      × (check_excluded c ≡ ok tt)
unfolding check_single
check_single-eq-ok c h =
    let (alone, h1) = fail_if-eq-ok _ _ _ h in
    let (given, h2) = fail_if-eq-ok _ _ _ h1 in
    let (except, h3) = fail_if-eq-ok _ _ _ h2 in
    let (names, excluded) = >>-eq-ok (check_named c) _ h3 in (alone, given, except, names, excluded)

check_single_sound :
    (c : Config) → c.backup_mode ≡ per_database → check_single c ≡ ok tt → IsAll c ⊎ IsNamed c
check_single_sound c mode h =
    let (alone, given, except, names, excluded) = check_single-eq-ok c h in
    elim (Bool-cases (all_databases c)) [
      | inl e ↦ inl (record {
        mode = mode;
        database = eq-nil c.database (ground arith);
        databases = eq-nil c.databases (ground arith);
        all = e;
        exclude = check_excluded_sound c excluded;
      })
      | inr e ↦ inr (record {
        mode = mode;
        named = e;
        exclude = eq-nil c.exclude (ground arith);
        valid = check_named_sound c (ground arith) names;
      })
    ]

-- A configuration that passes selects everything, all databases, or valid names, in the mode that
-- goes with it.
pub validate_backup_selectors :
    (c : Config) (days : ℕ) → validate_backup c ≡ ok days → IsWhole c ⊎ IsAll c ⊎ IsNamed c
unfolding validate_backup check_selectors
validate_backup_selectors c days h =
    let (_, rest) = >>-eq-ok (require_connection c) _ h in
    let (fits, _) = >>-eq-ok (check_selectors c) _ rest in
    elim (Bool-cases (str_eq c.backup_mode full)) [
      | inl e ↦ inl (check_full_sound c (str_eq→eq _ _ e) (rw e at fits))
      | inr e ↦ elim (Bool-cases (str_eq c.backup_mode per_database)) [
        | inl f ↦ inr (check_single_sound c (str_eq→eq _ _ f) (rw (e, f) at fits))
        | inr f ↦ ground arith
      ]
    ]
