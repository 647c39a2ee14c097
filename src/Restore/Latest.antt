-- ===== src/Restore/Latest.antt =====
-- internal/backup/restore.go, withBundle: the loop that looks for the newest backup.
use mongodb_backup_s.Base.{
  ◌≡◌, refl, sym, ◌∙◌, true, false, ◌&&◌, List, [], ◌∷◌, Bytes, if◌then◌else◌, str_lt, has_suffix,
  All, arith, Bool-cases, inl, inr, ◌⊎◌,
}
use mongodb_backup_s.World.{Object}
use mongodb_backup_s.Retention.Deletes.{Lists, first, later}
use mongodb_backup_s.Restore.{latest}

-- `a` is at most `b`.
abbrev pub AtMost : Bytes → Bytes → Type 0
AtMost a b = str_lt b a ≡ false

pub AtMost-refl : (a : Bytes) → AtMost a a
unfolding str_lt
AtMost-refl [] = refl
AtMost-refl (c ∷ s) = ground (arith, AtMost-refl s)

pub AtMost-trans : (a b c : Bytes) → AtMost a b → AtMost b c → AtMost a c
unfolding str_lt
AtMost-trans [] b [] h k = refl
AtMost-trans [] b (z ∷ c) h k = refl
AtMost-trans (x ∷ a) [] c h k = cc
AtMost-trans (x ∷ a) (y ∷ b) [] h k = cc
AtMost-trans (x ∷ a) (y ∷ b) (z ∷ c) h k = ground (arith, AtMost-trans a b c)

pub AtMost-of_lt : (a b : Bytes) → str_lt a b ≡ true → AtMost a b
unfolding str_lt
AtMost-of_lt a [] h = cc
AtMost-of_lt [] (y ∷ b) h = refl
AtMost-of_lt (x ∷ a) (y ∷ b) h = ground (arith, AtMost-of_lt a b)

-- One round keeps the greater key, if the object has the suffix.
next_key : Bytes → Object → Bytes → Bytes
next_key suffix o key = if has_suffix o.key suffix && str_lt key o.key then o.key else key

next_key_above :
    (suffix : Bytes) (o : Object) (key : Bytes)
    → AtMost key (next_key suffix o key)
      × (has_suffix o.key suffix ≡ true → AtMost o.key (next_key suffix o key))
unfolding next_key
next_key_above suffix o key = elim (Bool-cases (has_suffix o.key suffix && str_lt key o.key)) [
  | inl e ↦ rw e (AtMost-of_lt key o.key (ground arith), λ _. AtMost-refl o.key)
  | inr e ↦ rw e (AtMost-refl key, λ h. ground arith)
]

pub latest_above :
    (suffix : Bytes) (objects : List Object) (key : Bytes)
    → AtMost key (latest suffix objects key)
      × All (λ o. has_suffix o.key suffix ≡ true → AtMost o.key (latest suffix objects key)) objects
unfolding latest next_key
latest_above suffix [] key = (AtMost-refl key, tt)
latest_above suffix (o ∷ objects) key =
    let (above, others) = latest_above suffix objects (next_key suffix o key) in
    let (more, own) = next_key_above suffix o key in
    (
      AtMost-trans key (next_key suffix o key) _ more above,
      (λ h. AtMost-trans o.key (next_key suffix o key) _ (own h) above, others),
    )

-- The result is the key that the loop began with, or one of the list with the suffix.
abbrev pub IsFrom : Bytes → List Object → Bytes → Type 0
IsFrom suffix objects found =
    (o : Object) × Lists o objects × (o.key ≡ found) × (has_suffix o.key suffix ≡ true)

pub latest-IsFrom :
    (suffix : Bytes) (objects : List Object) (key : Bytes)
    → (latest suffix objects key ≡ key) ⊎ IsFrom suffix objects (latest suffix objects key)
unfolding latest next_key
latest-IsFrom suffix [] key = inl refl
latest-IsFrom suffix (o ∷ objects) key = go (latest-IsFrom suffix objects (next_key suffix o key))
  where
    go :
        (latest suffix objects (next_key suffix o key) ≡ next_key suffix o key)
          ⊎ IsFrom suffix objects (latest suffix objects (next_key suffix o key))
        → (latest suffix (o ∷ objects) key ≡ key)
          ⊎ IsFrom suffix (o ∷ objects) (latest suffix (o ∷ objects) key)
    go (inr (p, l, e, h)) = inr (p, later l, e, h)
    go (inl same_key) = elim (Bool-cases (has_suffix o.key suffix && str_lt key o.key)) [
      | inr e ↦ inl (same_key ∙ rw e refl)
      | inl e ↦ inr (o, first, sym (same_key ∙ rw e refl), ground arith)
    ]
