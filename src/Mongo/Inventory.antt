-- ===== src/Mongo/Inventory.antt =====
-- internal/backup/mongo.go: Databases, and the sort.Strings that it ends with.
use mathlib.Core.List.{Perm}
use mathlib.Core.List.Perm
use mongodb_backup_s.Base.{
  ◌≡◌, refl, sym, inl, inr, true, false, List, [], ◌∷◌, Bytes, arith, Bool-cases, str_lt, Result,
  ok, err, ok-injective,
}
use mongodb_backup_s.World.{World, list_databases, lift, >>=-eq-ok}
use mongodb_backup_s.Mongo.{insert_sorted, sort_strings, renamed, ask, databases}

pub data IsSorted : List Bytes → Type 0 where
  nil : IsSorted []
  one : (name : Bytes) → IsSorted (name ∷ [])
  more :
      {name other : Bytes} {names : List Bytes}
      → str_lt other name ≡ false
      → IsSorted (other ∷ names)
      → IsSorted (name ∷ other ∷ names)

str_lt_asym : (s t : Bytes) → str_lt s t ≡ true → str_lt t s ≡ false
unfolding str_lt
str_lt_asym s [] h = ground arith
str_lt_asym [] (d ∷ t) h = refl
str_lt_asym (c ∷ s) (d ∷ t) h = ground (arith, str_lt_asym s t)

insert_sorted-perm :
    (name : Bytes) (names : List Bytes) → Perm (insert_sorted name names) (name ∷ names)
unfolding insert_sorted
insert_sorted-perm name [] = Perm.refl (name ∷ [])
insert_sorted-perm name (other ∷ names) = elim (Bool-cases (str_lt other name)) [
  | inl e ↦
      rw e
        (Perm.trans (Perm.cons other (insert_sorted-perm name names)) (Perm.swap name other names))
  | inr e ↦ rw e (Perm.refl (name ∷ other ∷ names))
]

sort_strings-perm : (names : List Bytes) → Perm (sort_strings names) names
unfolding sort_strings
sort_strings-perm [] = Perm.refl []
sort_strings-perm (name ∷ names) =
    Perm.trans (insert_sorted-perm name (sort_strings names))
      (Perm.cons name (sort_strings-perm names))

-- In front of what an insertion gives, a name that stood in front of the list and is below the new one.
below_insert-IsSorted :
    (name other : Bytes) (names : List Bytes)
    → str_lt other name ≡ true
    → IsSorted (other ∷ names)
    → IsSorted (insert_sorted name names)
    → IsSorted (other ∷ insert_sorted name names)
unfolding insert_sorted
below_insert-IsSorted name other [] e h k = more (str_lt_asym other name e) (one name)
below_insert-IsSorted name other (third ∷ names) e (more h rest) k =
    elim (Bool-cases (str_lt third name)) [
      | inl t ↦ rw t (more h (rw t at k))
      | inr t ↦ rw t (more (str_lt_asym other name e) (rw t at k))
    ]

IsSorted-tail : (name : Bytes) (names : List Bytes) → IsSorted (name ∷ names) → IsSorted names
IsSorted-tail name [] h = nil
IsSorted-tail name (other ∷ names) (more e h) = h

insert_sorted-IsSorted :
    (name : Bytes) (names : List Bytes) → IsSorted names → IsSorted (insert_sorted name names)
unfolding insert_sorted
insert_sorted-IsSorted name [] h = one name
insert_sorted-IsSorted name (other ∷ names) h = elim (Bool-cases (str_lt other name)) [
  | inl e ↦ rw e (
      below_insert-IsSorted name other names e h
        (insert_sorted-IsSorted name names (IsSorted-tail other names h)))
  | inr e ↦ rw e (more e h)
]

sort_strings-IsSorted : (names : List Bytes) → IsSorted (sort_strings names)
unfolding sort_strings
sort_strings-IsSorted [] = nil
sort_strings-IsSorted (name ∷ names) =
    insert_sorted-IsSorted name (sort_strings names) (sort_strings-IsSorted names)

-- What the server answered, in order.
pub record IsInventory (w : World) (s : w.State) (names : List Bytes) : Type 0 where
  pub reply : List Bytes
  pub answered : (w.run_command list_databases s).0 ≡ ok reply
  pub same : Perm names reply
  pub sorted : IsSorted names

pub renamed-eq-ok :
    (w : World) {A : Type 0} (operation : Bytes) (answer : Result A) {a : A}
    → renamed w operation answer ≡ ok a
    → answer ≡ ok a
unfolding renamed
renamed-eq-ok w operation (ok a) h = h
renamed-eq-ok w operation (err e) h = cc

-- The databases that are found, if they are, are the server's answer to listDatabases, each as
-- often as there, in the order of their bytes.
pub databases-IsInventory :
    (w : World) (s : w.State) (names : List Bytes)
    → (databases w s).0 ≡ ok names
    → IsInventory w s names
unfolding databases ask lift
databases-IsInventory w s names h =
    let (reply, answered, sorted) = >>=-eq-ok (ask w list_databases) _ s h in
    record {
      reply = reply;
      answered = renamed-eq-ok w _ (w.run_command list_databases s).0 answered;
      same = rw (sym (ok-injective sorted)) (sort_strings-perm reply);
      sorted = rw (sym (ok-injective sorted)) (sort_strings-IsSorted reply);
    }
