-- ===== src/Capture/Paths.antt =====
-- The paths of a directory, for internal/backup/capture.go: the keys of its map of entries, and lists
-- of paths that hold each other.
use mongodb_backup_s.Base.{
  suc, ◌≤◌, ◌≡◌, refl, sym, ◌∙◌, ap, subst, Bool, true, false, ◌||◌, List, [], ◌∷◌, map, some,
  Bytes, if◌then◌else◌, str_eq, str_eq→eq, str_eq_refl, length, arith, Bool-cases, inl, inr,
}
use mongodb_backup_s.Databases.{contains}
use mongodb_backup_s.Databases.Selected.{IsDistinct}
use mongodb_backup_s.Capture.{assign, value_of}

pub str_eq_sym : (a b : Bytes) → str_eq a b ≡ str_eq b a
str_eq_sym a b = elim (Bool-cases (str_eq a b)) [
  | inl e ↦ rw (str_eq→eq a b e) refl
  | inr e ↦ elim (Bool-cases (str_eq b a)) [
    | inl back ↦ rw (str_eq→eq b a back) refl
    | inr back ↦ e ∙ sym back
  ]
]

-- A list without the first element that is a name.
unfoldable without : Bytes → List Bytes → List Bytes
unfolding str_eq
without name [] = []
without name (n ∷ names) =
    let rest = without name names in if str_eq name n then names else n ∷ rest

length-without :
    (name : Bytes) (names : List Bytes)
    → contains names name ≡ true
    → suc (length (without name names)) ≡ length names
unfolding contains without
length-without name [] h = cc
length-without name (n ∷ names) h = elim (Bool-cases (str_eq name n)) [
  | inl e ↦ rw (e, without) refl
  | inr e ↦ rw (e, without) (ap suc (length-without name names (rw e at h)))
]

contains-without :
    (name : Bytes) (names : List Bytes) (p : Bytes)
    → str_eq p name ≡ false
    → contains (without name names) p ≡ contains names p
unfolding contains without
contains-without name [] p other = refl
contains-without name (n ∷ names) p other = elim (Bool-cases (str_eq name n)) [
  | inl e ↦ rw (e, without, sym (str_eq→eq name n e), other) refl
  | inr e ↦
      rw (e, without) (ap (λ found. str_eq p n || found) (contains-without name names p other))
]

-- Distinct names that all stand in a list which is not longer are all of its names.
pub contains-IsDistinct :
    (xs ys : List Bytes)
    → IsDistinct xs
    → ((p : Bytes) → contains xs p ≡ true → contains ys p ≡ true)
    → length ys ≤ length xs
    → (p : Bytes) → contains ys p ≡ true
    → contains xs p ≡ true
unfolding contains
contains-IsDistinct [] [] distinct inside short p h = cc
contains-IsDistinct [] (y ∷ ys) distinct inside short p h = ground arith
contains-IsDistinct (x ∷ xs) ys (fresh, distinct) inside short p h =
    elim (Bool-cases (str_eq p x)) [
      | inl e ↦ rw e refl
      | inr e ↦
          let shorter = length-without x ys (inside x (rw (str_eq_refl x) refl)) in
          rw e (
            contains-IsDistinct xs (without x ys) distinct inside_rest
              (omega (arith, short, shorter)) p (contains-without x ys p e ∙ h))
    ]
  where
    inside_rest : (q : Bytes) → contains xs q ≡ true → contains (without x ys) q ≡ true
    inside_rest q found = elim (Bool-cases (str_eq q x)) [
      | inl e ↦ cc (subst (λ n. contains xs n ≡ true) (str_eq→eq q x e) found, fresh)
      | inr e ↦ contains-without x ys q e ∙ inside q (ground (arith, found))
    ]

abbrev pub paths {ℓ} : {A : Type ℓ} → List (Bytes × A) → List Bytes
paths entries = map (λ e. e.0) entries

pub contains-assign {ℓ} :
    {A : Type ℓ} (key : Bytes) (value : A) (entries : List (Bytes × A)) (p : Bytes)
    → contains (paths (assign key value entries)) p ≡ (str_eq p key || contains (paths entries) p)
unfolding assign contains
contains-assign key value [] p = refl
contains-assign key value ((other, old) ∷ entries) p = elim (Bool-cases (str_eq other key)) [
  | inl e ↦ rw (e, str_eq→eq other key e) (or_twice (str_eq p key) (contains (paths entries) p))
  | inr e ↦
      rw (e, contains-assign key value entries p)
        (or_swap (str_eq p other) (str_eq p key) (contains (paths entries) p))
]
  where
    or_twice : (a b : Bool) → (a || b) ≡ (a || (a || b))
    or_twice a b = ground arith

    or_swap : (a b c : Bool) → (a || (b || c)) ≡ (b || (a || c))
    or_swap a b c = ground arith

pub value_of-contains {ℓ} :
    {A : Type ℓ} (key : Bytes) (entries : List (Bytes × A)) (value : A)
    → value_of key entries ≡ some value
    → contains (paths entries) key ≡ true
unfolding value_of contains
value_of-contains key [] value h = cc
value_of-contains key ((other, old) ∷ entries) value h = elim (Bool-cases (str_eq other key)) [
  | inl e ↦ rw (str_eq_sym key other, e) refl
  | inr e ↦
      rw (str_eq_sym key other, e) (value_of-contains key entries value (rw (e, value_of) at h))
]
