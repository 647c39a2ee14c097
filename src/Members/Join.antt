-- ===== src/Members/Join.antt =====
-- internal/backup/bundle.go, extractConfiguration: the path of a member below a directory.
use mathlib.Core.List.{reverse-append, reverse-reverse, reverse-cons}
use mongodb_backup_s.Base.{
  ◌≡◌, refl, sym, ◌∙◌, ap, Bool, true, false, List, [], ◌∷◌, ◌++◌, append_assoc, Bytes, reverse,
  All, arith, split, split_first, split-append, join_with, join_with-split, join_with-append,
  str_eq, str_eq_refl, has_prefix, cut_prefix,
}
use mongodb_backup_s.Members.{slash, clean_elements, clean, safe_member, join_path}
use mongodb_backup_s.Members.Normal.{IsNormal, next_kept, safe_member-IsNormal}

-- A clean absolute path of a directory that is not the root.
pub record IsDirectory (dir : Bytes) : Type 0 where
  pub absolute : has_prefix dir slash ≡ true
  pub cleaned : clean dir ≡ dir
  pub below_root : str_eq dir slash ≡ false

clean_elements-append :
    (rooted : Bool) (xs ys kept : List Bytes)
    → clean_elements rooted kept (xs ++ ys)
      ≡ clean_elements rooted (clean_elements rooted kept xs) ys
unfolding clean_elements
clean_elements-append rooted [] ys kept = refl
clean_elements-append rooted (x ∷ xs) ys kept =
    clean_elements-append rooted xs ys (next_kept rooted kept x)

next_kept_normal :
    (rooted : Bool) (kept : List Bytes) (e : Bytes)
    → IsNormal e
    → next_kept rooted kept e ≡ e ∷ kept
next_kept_normal rooted kept e h = ground arith

clean_elements_normal :
    (rooted : Bool) (es kept : List Bytes)
    → All IsNormal es
    → clean_elements rooted kept es ≡ reverse es ++ kept
unfolding clean_elements
clean_elements_normal rooted [] kept h = refl
clean_elements_normal rooted (e ∷ es) kept (he, h) =
    ap (λ k. clean_elements rooted k es) (next_kept_normal rooted kept e he)
    ∙ clean_elements_normal rooted es (e ∷ kept) h
    ∙ sym (append_assoc (reverse es) (e ∷ []) kept)
    ∙ ap (λ l. l ++ kept) (sym (reverse-cons e es))

-- The elements that Clean keeps of an absolute path.
kept_of : Bytes → List Bytes
kept_of path = reverse (clean_elements true [] (split path b'/'))

clean_absolute :
    (path : Bytes)
    → has_prefix path slash ≡ true
    → clean path ≡ slash ++ join_with b'/' (kept_of path)
unfolding clean kept_of
clean_absolute path h = rw h

kept_of_joined :
    (dir name : Bytes)
    → All IsNormal (split name b'/')
    → kept_of (dir ++ (b'/' ∷ name)) ≡ kept_of dir ++ split name b'/'
unfolding kept_of
kept_of_joined dir name h =
    ap (λ es. reverse (clean_elements true [] es)) (split-append b'/' dir name)
    ∙ ap reverse (clean_elements-append true (split dir b'/') (split name b'/') [])
    ∙ ap reverse
        (clean_elements_normal true (split name b'/') (clean_elements true [] (split dir b'/')) h)
    ∙ reverse-append (reverse (split name b'/')) (clean_elements true [] (split dir b'/'))
    ∙ ap (λ l. reverse (clean_elements true [] (split dir b'/')) ++ l)
        (reverse-reverse (split name b'/'))

prefix-append : (dir s : Bytes) → has_prefix dir slash ≡ true → has_prefix (dir ++ s) slash ≡ true
unfolding has_prefix cut_prefix
prefix-append [] s h = cc
prefix-append (c ∷ dir) s h = ground arith

joined :
    (ps : List Bytes) (q : Bytes) (qs : List Bytes) (dir : Bytes)
    → slash ++ join_with b'/' ps ≡ dir
    → str_eq dir slash ≡ false
    → slash ++ join_with b'/' (ps ++ (q ∷ qs)) ≡ dir ++ (b'/' ∷ join_with b'/' (q ∷ qs))
joined [] q qs dir e h = cc (sym (str_eq_refl slash) ∙ ap (λ s. str_eq s slash) e ∙ h)
joined (p ∷ ps) q qs dir e h =
    ap (λ s. slash ++ s) (join_with-append b'/' p ps q qs)
    ∙ ap (λ s. s ++ (b'/' ∷ join_with b'/' (q ∷ qs))) e

-- Joining a clean absolute directory, not the root, with a name that safeMember accepts puts the name
-- behind the directory unchanged.
pub join_path-append :
    (dir name : Bytes)
    → IsDirectory dir
    → safe_member name ≡ true
    → join_path dir name ≡ dir ++ (b'/' ∷ name)
unfolding join_path
join_path-append dir name d h =
    let (q, qs, e) = split_first b'/' name in
    let text : join_with b'/' (q ∷ qs) ≡ name =
      ap (join_with b'/') (sym e) ∙ join_with-split b'/' name in
    clean_absolute (dir ++ (b'/' ∷ name)) (prefix-append dir (b'/' ∷ name) d.absolute)
    ∙ ap (λ l. slash ++ join_with b'/' l)
        (kept_of_joined dir name (safe_member-IsNormal name h) ∙ ap (λ l. kept_of dir ++ l) e)
    ∙ joined (kept_of dir) q qs dir (sym (clean_absolute dir d.absolute) ∙ d.cleaned) d.below_root
    ∙ ap (λ s. dir ++ (b'/' ∷ s)) text
