-- ===== src/Members/Normal.antt =====
-- internal/backup/bundle.go, safeMember: the path of a name that passes.
use mathlib.Core.List.{reverse-append, reverse-cons}
use mongodb_backup_s.Base.{
  ◌≡◌, ◌⊎◌, refl, sym, ◌∙◌, ap, subst, inl, inr, Bool, true, false, ◌&&◌, ◌||◌, not, List, [], ◌∷◌,
  ◌++◌, Bytes, codes, if◌then◌else◌, is_empty, All, All-append, arith, Bool-cases, split,
  split-join_with, split_pieces, join_with, join_with-split, IsPiece, str_eq, str_eq→eq,
  str_eq_refl, has_prefix, cut_prefix, reverse,
}
use mongodb_backup_s.Members.{dot, dots, slash, step_up, clean_elements, or_dot, clean, safe_member}

-- An element of a path that names something in its directory.
abbrev pub is_normal : Bytes → Bool
is_normal e = not (is_empty e) && not (str_eq e dot) && not (str_eq e dots)

abbrev pub IsNormal : Bytes → Type 0
IsNormal e = is_normal e ≡ true

-- What Clean keeps of a path that does not begin with a slash: normal elements, or the path leads up.
abbrev LeadsUp : List Bytes → Type 0
LeadsUp kept = (below : List Bytes) × (kept ≡ below ++ (dots ∷ []))

abbrev IsKept : List Bytes → Type 0
IsKept kept = All IsNormal kept ⊎ LeadsUp kept

step_up-IsKept : (kept : List Bytes) → IsKept kept → IsKept (step_up false kept)
unfolding step_up
step_up-IsKept [] h = inr ([], refl)
step_up-IsKept (e ∷ kept) h = elim (Bool-cases (str_eq e dots)) [
  | inl up ↦ elim h [
    | inl (normal, _) ↦ absurd (ground (arith, normal, up))
    | inr (below, eq) ↦ rw up (inr (dots ∷ below, ap (λ l. dots ∷ l) eq))
  ]
  | inr down ↦ elim h [
    | inl (_, others) ↦ rw down (inl others)
    | inr (below, eq) ↦ rw down (inr (taken below eq down))
  ]
]
  where
    taken :
        (below : List Bytes)
        → (e ∷ kept) ≡ below ++ (dots ∷ [])
        → str_eq e dots ≡ false
        → LeadsUp kept
    taken [] eq down =
        let same : e ≡ dots = cc in
        cc (sym (ap (λ x. str_eq x dots) same ∙ str_eq_refl dots) ∙ down)
    taken (b ∷ below) eq down = (below, cc)

abbrev IsPart : Bytes → Type 0
IsPart = IsPiece b'/'

step_up-IsPart :
    (rooted : Bool) (kept : List Bytes) → All IsPart kept → All IsPart (step_up rooted kept)
unfolding step_up
step_up-IsPart true [] h = tt
step_up-IsPart false [] h = (refl, tt)
step_up-IsPart rooted (e ∷ kept) (he, h) = elim (Bool-cases (str_eq e dots)) [
  | inl up ↦ rw up (refl, (he, h))
  | inr down ↦ rw down h
]

-- One round of Clean's loop.
abbrev pub next_kept : Bool → List Bytes → Bytes → List Bytes
next_kept rooted kept e =
    if is_empty e || str_eq e dot
    then kept
    else if str_eq e dots
    then step_up rooted kept
    else e ∷ kept

next_kept-IsKept : (kept : List Bytes) (e : Bytes) → IsKept kept → IsKept (next_kept false kept e)
next_kept-IsKept kept e h = elim (Bool-cases (is_empty e || str_eq e dot)) [
  | inl skip ↦ rw skip h
  | inr part ↦ elim (Bool-cases (str_eq e dots)) [
    | inl up ↦ rw (part, up) (step_up-IsKept kept h)
    | inr down ↦
        rw (part, down)
          (elim h [
            | inl normal ↦ inl (ground (arith, part, down), normal)
            | inr (below, eq) ↦ inr (e ∷ below, ap (λ l. e ∷ l) eq)
          ])
  ]
]

next_kept-IsPart :
    (rooted : Bool) (kept : List Bytes) (e : Bytes)
    → IsPart e
    → All IsPart kept
    → All IsPart (next_kept rooted kept e)
next_kept-IsPart rooted kept e he h = elim (Bool-cases (is_empty e || str_eq e dot)) [
  | inl skip ↦ rw skip h
  | inr part ↦ elim (Bool-cases (str_eq e dots)) [
    | inl up ↦ rw (part, up) (step_up-IsPart rooted kept h)
    | inr down ↦ rw (part, down) (he, h)
  ]
]

clean_elements-IsKept : (kept es : List Bytes) → IsKept kept → IsKept (clean_elements false kept es)
unfolding clean_elements
clean_elements-IsKept kept [] h = h
clean_elements-IsKept kept (e ∷ es) h =
    clean_elements-IsKept (next_kept false kept e) es (next_kept-IsKept kept e h)

clean_elements-IsPart :
    (rooted : Bool) (kept es : List Bytes)
    → All IsPart kept
    → All IsPart es
    → All IsPart (clean_elements rooted kept es)
unfolding clean_elements
clean_elements-IsPart rooted kept [] h k = h
clean_elements-IsPart rooted kept (e ∷ es) h (he, k) =
    clean_elements-IsPart rooted (next_kept rooted kept e) es (next_kept-IsPart rooted kept e he h)
      k

All-reverse : (P : Bytes → Type 0) (xs : List Bytes) → All P xs → All P (reverse xs)
All-reverse P [] h = tt
All-reverse P (x ∷ xs) (hx, h) =
    subst (All P) (sym (reverse-cons x xs))
      (All-append P (reverse xs) (x ∷ []) (All-reverse P xs h) (hx, tt))

-- The parts of a name that Clean leaves as it is, and that is not `.`, are what Clean keeps.
split-clean :
    (name : Bytes) (kept : List Bytes)
    → All IsPart kept
    → or_dot (join_with b'/' kept) ≡ name
    → str_eq name dot ≡ false
    → split name b'/' ≡ kept
unfolding or_dot
split-clean name [] h e other = cc (sym (str_eq_refl dot) ∙ ap (λ s. str_eq s dot) e ∙ other)
split-clean name (p ∷ ps) h e other = elim (Bool-cases (is_empty (join_with b'/' (p ∷ ps)))) [
  | inl none_left ↦ cc (sym (str_eq_refl dot) ∙ ap (λ s. str_eq s dot) (rw none_left at e) ∙ other)
  | inr some_left ↦ ap (λ s. split s b'/') (sym (rw some_left at e)) ∙ split-join_with b'/' p ps h
]

-- A path that leads up begins with `..`.
leading_dots :
    (ps : List Bytes)
    → (str_eq (join_with b'/' (dots ∷ ps)) dots ≡ true)
      ⊎ (has_prefix (join_with b'/' (dots ∷ ps)) (codes "../") ≡ true)
unfolding has_prefix cut_prefix
leading_dots [] = inl (str_eq_refl dots)
leading_dots (p ∷ ps) = inr refl

safe_facts :
    (name : Bytes)
    → safe_member name ≡ true
    → (has_prefix name slash ≡ false)
      × (str_eq (clean name) name ≡ true)
      × (str_eq name dot ≡ false)
      × (str_eq name dots ≡ false)
      × (has_prefix name (codes "../") ≡ false)
unfolding safe_member
safe_facts name h = (ground arith, ground arith, ground arith, ground arith, ground arith)

clean_relative :
    (name : Bytes)
    → has_prefix name slash ≡ false
    → clean name ≡ or_dot (join_with b'/' (reverse (clean_elements false [] (split name b'/'))))
unfolding clean
clean_relative name h = rw h

starts_up :
    (name : Bytes) (kept : List Bytes)
    → LeadsUp kept
    → split name b'/' ≡ reverse kept
    → (str_eq name dots ≡ true) ⊎ (has_prefix name (codes "../") ≡ true)
starts_up name kept (below, e) h =
    let parts : split name b'/' ≡ dots ∷ reverse below =
      h ∙ ap reverse e ∙ reverse-append below (dots ∷ []) in
    let text : join_with b'/' (dots ∷ reverse below) ≡ name =
      ap (join_with b'/') (sym parts) ∙ join_with-split b'/' name in
    subst (λ n. (str_eq n dots ≡ true) ⊎ (has_prefix n (codes "../") ≡ true)) text
      (leading_dots (reverse below))

-- A name that safeMember accepts has no empty element, no `.` and no `..` among those that its
-- slashes separate: as a path it stays below the directory that it is joined to.
pub safe_member-IsNormal : (name : Bytes) → safe_member name ≡ true → All IsNormal (split name b'/')
safe_member-IsNormal name h =
    let kept = clean_elements false [] (split name b'/') in
    let parts = clean_elements-IsPart false [] (split name b'/') tt (split_pieces b'/' name) in
    let (relative, same_name, no_dot, no_dots, not_up) = safe_facts name h in
    let e : split name b'/' ≡ reverse kept =
      split-clean name (reverse kept) (All-reverse IsPart kept parts)
        (sym (clean_relative name relative) ∙ str_eq→eq (clean name) name same_name) no_dot in
    elim (clean_elements-IsKept [] (split name b'/') (inl tt)) [
      | inl normal ↦ subst (All IsNormal) (sym e) (All-reverse IsNormal kept normal)
      | inr up ↦ elim (starts_up name kept up e) [ inl f ↦ cc | inr f ↦ cc ]
    ]
