-- ===== src/Listing.antt =====
-- internal/storage/s3.go: List. The pages are the answers that the paginator of the SDK gets, in
-- order; an answer is an error or a page. Which page is asked for is the paginator's work.
pub mod Pages
use mongodb_backup_s.Base.{
  Bool, ◌||◌, List, [], ◌∷◌, ◌++◌, Option, none, some, Bytes, if◌then◌else◌, is_empty, wrapped,
  list_entry_invalid, list_token_invalid, Result, ok, err,
}
use mongodb_backup_s.Clock.{Instant}
use mongodb_backup_s.World.{Object}
use mongodb_backup_s.Databases.{contains}

-- What the code reads of types.Object and of ListObjectsV2Output.
pub record Entry : Type 0 where
  pub key : Option Bytes
  pub last_modified : Option Instant

pub record Page : Type 0 where
  pub contents : List Entry
  pub is_truncated : Bool
  -- empty where it is missing
  pub next_token : Bytes

unfoldable pub with_object :
    Option Bytes → Option Instant → Result (List Object) → Result (List Object)
with_object (some key) (some at) (ok objects) =
    ok (record { key = key; last_modified = at } ∷ objects)
with_object (some key) (some at) (err e) = err e
with_object _ _ objects = err list_entry_invalid

-- The inner loop.
unfoldable pub read_page : List Entry → Result (List Object)
unfolding with_object
read_page [] = ok []
read_page (e ∷ entries) = with_object e.key e.last_modified (read_page entries)

-- The objects so far, in front of those of the pages to come.
unfoldable pub in_front :
    Result (List Object) → Option (Result (List Object)) → Option (Result (List Object))
in_front (err e) later = some (err e)
in_front (ok objects) none = none
in_front (ok objects) (some (err e)) = some (err e)
in_front (ok objects) (some (ok others)) = some (ok (objects ++ others))

-- The loop over the pages, `none` while it waits for the next answer; `tokens` have been met.
unfoldable pub list_pages : List Bytes → List (Result Page) → Option (Result (List Object))
unfolding read_page in_front contains
list_pages tokens [] = none
list_pages tokens (err e ∷ answers) = some (err (wrapped e))
list_pages tokens (ok page ∷ answers) =
    let more = list_pages (page.next_token ∷ tokens) answers in
    let next =
      if page.is_truncated
      then if is_empty page.next_token || contains tokens page.next_token
        then some (err list_token_invalid)
        else more
      else some (ok []) in
    in_front (read_page page.contents) next
