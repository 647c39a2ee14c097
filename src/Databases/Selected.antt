-- ===== src/Databases/Selected.antt =====
-- internal/backup/app.go: what `databases` selects.
use mongodb_backup_s.Base.{
  ◌≡◌, refl, true, false, ◌&&◌, ◌||◌, not, List, [], ◌∷◌, Bytes, is_empty, All, str_eq, str_eq→eq,
  str_eq_refl, arith, Bool-cases, inl, inr, subst, ok-injective, ok, fail_if-eq-ok, >>-eq-ok,
}
use mongodb_backup_s.Config.{Config}
use mongodb_backup_s.Config.Databases.{validate_databases, validate_databases_iff, IsDatabase}
use mongodb_backup_s.Databases.{
  contains, candidates, excluded, check_exist, select, select_databases,
}

contains-cons :
    (n : Bytes) (names : List Bytes) (name : Bytes)
    → contains (n ∷ names) name ≡ (str_eq name n || contains names name)
unfolding contains
contains-cons n names name = refl

contains-nil : (name : Bytes) → contains [] name ≡ false
unfolding contains
contains-nil name = refl

-- A name is selected just where it is a candidate, is not excluded and was not seen before.
contains-select :
    (out seen names : List Bytes) (name : Bytes)
    → contains (select out seen names) name
      ≡ (contains names name && not (contains out name) && not (contains seen name))
unfolding select
contains-select out seen [] name = ground (arith, contains-nil name)
contains-select out seen (n ∷ names) name = ground (
  arith,
  contains-cons n names name,
  contains-cons n (select out (n ∷ seen) names) name,
  contains-cons n seen name,
  contains-select out seen names name,
  contains-select out (n ∷ seen) names name,
  str_eq→eq name n,
)

-- No name is listed twice.
abbrev pub IsDistinct : List Bytes → Type 0
IsDistinct [] = Unit
IsDistinct (name ∷ names) = (contains names name ≡ false) × IsDistinct names

select-IsDistinct : (out seen names : List Bytes) → IsDistinct (select out seen names)
unfolding select
select-IsDistinct out seen [] = tt
select-IsDistinct out seen (n ∷ names) =
    elim (Bool-cases (not (contains out n) && not (contains seen n))) [
      | inr e ↦ rw e (select-IsDistinct out seen names)
      | inl e ↦ rw e (
        ground
            (arith, contains-select out (n ∷ seen) names n, contains-cons n seen n, str_eq_refl n),
        select-IsDistinct out (n ∷ seen) names,
      )
    ]

check_exist_sound :
    (existing names : List Bytes) (name : Bytes)
    → check_exist existing names ≡ ok tt
    → contains names name ≡ true
    → contains existing name ≡ true
unfolding check_exist
check_exist_sound existing [] name h m = absurd (ground (arith, contains-nil name))
check_exist_sound existing (n ∷ names) name h m =
    let (found, rest) = fail_if-eq-ok (not (contains existing n)) _ _ h in
    ground (
      arith,
      contains-cons n names name,
      str_eq→eq name n,
      check_exist_sound existing names name rest,
    )

-- A good selection from the inventory of the server.
pub record IsSelection (c : Config) (existing selected : List Bytes) : Type 0 where
  pub nonempty : is_empty selected ≡ false
  pub distinct : IsDistinct selected
  pub members :
      (name : Bytes)
      → contains selected name
        ≡ (contains (candidates c existing) name && not (contains (excluded c) name))
  pub exist : (name : Bytes) → (contains selected name && not (contains existing name)) ≡ false
  pub valid : All IsDatabase (candidates c existing)

-- A selection of databases that succeeds is not empty and lists no name twice; its names are just the
-- candidates that are not excluded, the server has all of them, and every candidate is valid.
pub select_databases-IsSelection :
    (c : Config) (existing selected : List Bytes)
    → select_databases c existing ≡ ok selected
    → IsSelection c existing selected
unfolding select_databases
select_databases-IsSelection c existing selected h =
    let (valid, h1) = >>-eq-ok (validate_databases (candidates c existing)) _ h in
    let (exist, h2) = >>-eq-ok (check_exist existing (candidates c existing)) _ h1 in
    let (nonempty, h3) =
      fail_if-eq-ok (is_empty (select (excluded c) [] (candidates c existing))) _ _ h2 in
    subst (IsSelection c existing) (ok-injective h3) (record {
      nonempty = nonempty;
      distinct = select-IsDistinct (excluded c) [] (candidates c existing);
      members = members;
      exist = λ name. exists name exist;
      valid = ((validate_databases_iff (candidates c existing)).0 valid).1;
    })
  where
    members :
        (name : Bytes)
        → contains (select (excluded c) [] (candidates c existing)) name
          ≡ (contains (candidates c existing) name && not (contains (excluded c) name))
    members name =
        ground
          (arith, contains-select (excluded c) [] (candidates c existing) name, contains-nil name)

    exists :
        (name : Bytes)
        → check_exist existing (candidates c existing) ≡ ok tt
        → (contains (select (excluded c) [] (candidates c existing)) name
            && not (contains existing name))
          ≡ false
    exists name exist =
        ground (arith, members name, check_exist_sound existing (candidates c existing) name exist)
