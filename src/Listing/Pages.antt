-- ===== src/Listing/Pages.antt =====
-- internal/storage/s3.go: what List returns against the pages that it was sent.
use mathlib.Core.List.{map-append}
use mongodb_backup_s.Base.{
  ◌≡◌, refl, sym, ◌∙◌, ap, true, false, ◌||◌, List, [], ◌∷◌, ◌++◌, map, Option, none, some, Bytes,
  is_empty, arith, Bool-cases, inl, inr, Result, ok, err, subst, ok-injective,
}
use mongodb_backup_s.Clock.{Instant}
use mongodb_backup_s.World.{Object}
use mongodb_backup_s.Databases.{contains}
use mongodb_backup_s.Listing.{Entry, Page, with_object, read_page, in_front, list_pages}

-- The entry that makes an object.
abbrev pub entry_of : Object → Entry
entry_of o = record { key = some o.key; last_modified = some o.last_modified }

abbrev pub entries : List Page → List Entry
entries [] = []
entries (page ∷ pages) = page.contents ++ entries pages

-- Whole listings: every page but the last says that there is more, with a token of its own.
abbrev pub IsWhole : List Bytes → List Page → Type 0
IsWhole tokens [] = ⊥
IsWhole tokens (page ∷ []) = page.is_truncated ≡ false
IsWhole tokens (page ∷ pages) =
    (page.is_truncated ≡ true)
    × (is_empty page.next_token ≡ false)
    × (contains tokens page.next_token ≡ false)
    × IsWhole (page.next_token ∷ tokens) pages

with_object-eq-ok :
    (key : Option Bytes) (at : Option Instant) (rest : Result (List Object)) (objects : List Object)
    → with_object key at rest ≡ ok objects
    → (others : List Object) × (rest ≡ ok others)
      × (map entry_of objects ≡ record { key = key; last_modified = at } ∷ map entry_of others)
unfolding with_object
with_object-eq-ok (some key) (some at) (ok others) objects h =
    (others, refl, ap (map entry_of) (sym (ok-injective h)))
with_object-eq-ok (some key) (some at) (err e) objects h = cc
with_object-eq-ok (some key) none rest objects h = cc
with_object-eq-ok none at rest objects h = cc

map-read_page :
    (es : List Entry) (objects : List Object)
    → read_page es ≡ ok objects
    → map entry_of objects ≡ es
unfolding read_page
map-read_page [] objects h = ap (map entry_of) (sym (ok-injective h))
map-read_page (e ∷ es) objects h =
    let (others, rest, front) = with_object-eq-ok e.key e.last_modified (read_page es) objects h in
    front ∙ ap (λ t. e ∷ t) (map-read_page es others rest)

in_front-eq-ok :
    (front : Result (List Object)) (later : Option (Result (List Object))) (objects : List Object)
    → in_front front later ≡ some (ok objects)
    → (own : List Object) × (others : List Object) × (front ≡ ok own)
      × (later ≡ some (ok others))
      × (objects ≡ own ++ others)
unfolding in_front
in_front-eq-ok (err e) later objects h = cc
in_front-eq-ok (ok own) none objects h = cc
in_front-eq-ok (ok own) (some (err e)) objects h = cc
in_front-eq-ok (ok own) (some (ok others)) objects h = (own, others, refl, refl, cc)

-- The pages at the front of the answers that make up a listing.
pub record IsListing (tokens : List Bytes) (answers : List (Result Page)) (objects : List Object)
    : Type 0 where
  pub pages : List Page
  pub unread : List (Result Page)
  pub sent : answers ≡ map ok pages ++ unread
  pub whole : IsWhole tokens pages
  pub kept : map entry_of objects ≡ entries pages

map-join :
    (own others : List Object) (es fs : List Entry)
    → map entry_of own ≡ es
    → map entry_of others ≡ fs
    → map entry_of (own ++ others) ≡ es ++ fs
map-join own others es fs e f =
    map-append entry_of own others ∙ ap (λ t. t ++ map entry_of others) e ∙ ap (λ t. es ++ t) f

one_page :
    (tokens : List Bytes) (page : Page) (answers : List (Result Page)) (own others : List Object)
    → page.is_truncated ≡ false
    → map entry_of own ≡ page.contents
    → [] ≡ others
    → IsListing tokens (ok page ∷ answers) (own ++ others)
one_page tokens page answers own others last read none_left = record {
  pages = page ∷ [];
  unread = answers;
  sent = refl;
  whole = last;
  kept = map-join own others page.contents [] read (ap (map entry_of) (sym none_left));
}

more_pages :
    (tokens : List Bytes) (page : Page) (answers : List (Result Page)) (own others : List Object)
    → page.is_truncated ≡ true
    → is_empty page.next_token ≡ false
    → contains tokens page.next_token ≡ false
    → map entry_of own ≡ page.contents
    → IsListing (page.next_token ∷ tokens) answers others
    → IsListing tokens (ok page ∷ answers) (own ++ others)
more_pages tokens page answers own others more nonempty new read rest = record {
  pages = page ∷ rest.pages;
  unread = rest.unread;
  sent = ap (λ t. ok page ∷ t) rest.sent;
  whole = whole_cons rest.pages rest.whole;
  kept = map-join own others page.contents (entries rest.pages) read rest.kept;
}
  where
    whole_cons :
        (pages : List Page)
        → IsWhole (page.next_token ∷ tokens) pages
        → IsWhole tokens (page ∷ pages)
    whole_cons [] h = elim h [ ]
    whole_cons (p ∷ pages) h = (more, nonempty, new, h)

IsListing-from :
    (tokens : List Bytes) (answers : List (Result Page)) (objects : List Object)
    → list_pages tokens answers ≡ some (ok objects)
    → IsListing tokens answers objects
unfolding list_pages
IsListing-from tokens [] objects h = cc
IsListing-from tokens (err e ∷ answers) objects h = cc
IsListing-from tokens (ok page ∷ answers) objects h =
    let (own, others, read, later, eq) = in_front-eq-ok (read_page page.contents) _ objects h in
    let kept = map-read_page page.contents own read in
    subst (IsListing tokens (ok page ∷ answers)) (sym eq) (elim (Bool-cases page.is_truncated) [
      | inr last ↦ one_page tokens page answers own others last kept (cc (rw last at later))
      | inl more ↦ elim (Bool-cases (is_empty page.next_token || contains tokens page.next_token)) [
        | inl bad ↦ cc (rw (more, bad) at later)
        | inr fine ↦
            more_pages tokens page answers own others more (ground arith) (ground arith) kept
              (IsListing-from (page.next_token ∷ tokens) answers others (rw (more, fine) at later))
      ]
    ])

-- A listing that List returns holds an object for every entry of the pages that were sent, in their
-- order and nothing else. The pages are whole: each but the last promises more, by a token that is
-- not empty and was not met before, and the last does not.
pub list_pages-IsListing :
    (answers : List (Result Page)) (objects : List Object)
    → list_pages [] answers ≡ some (ok objects)
    → IsListing [] answers objects
list_pages-IsListing = IsListing-from []
