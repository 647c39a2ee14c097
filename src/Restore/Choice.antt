-- ===== src/Restore/Choice.antt =====
-- internal/backup/restore.go, withBundle: what a restore without a timestamp picks.
use mongodb_backup_s.Base.{
  ◌≡◌, refl, ◌∙◌, ap, Bool, true, false, ◌&&◌, List, [], ◌∷◌, Bytes, is_empty, str_eq, str_lt,
  has_suffix, keep, All, All-map, arith, inl, inr, subst, ok, ok-injective,
}
use mongodb_backup_s.Config.{Config, fixed}
use mongodb_backup_s.Keys.{timestamp_prefix, is_timestamp_backup, file_type}
use mongodb_backup_s.World.{World, Object, lift, >>=-eq-ok}
use mongodb_backup_s.Trace.{Run, silent}
use mongodb_backup_s.Retention.{timestamp_backups}
use mongodb_backup_s.Retention.Deletes.{Lists, All-Lists, keep-Lists}
use mongodb_backup_s.Retention.Complete.{All-keep}
use mongodb_backup_s.Restore.{latest, found, choose_by}
use mongodb_backup_s.Restore.Latest.{AtMost, latest_above, latest-IsFrom}

-- The test of an object that could be restored.
abbrev pub is_candidate : Config → Bytes → Bool
is_candidate c key = is_timestamp_backup c c.database key && has_suffix key (file_type c)

-- The key is that of a candidate in a list, and no candidate of the list has a greater key.
pub record IsNewest (c : Config) (objects : List Object) (key : Bytes) : Type 0 where
  pub object : Object
  pub listed : Lists object objects
  pub named : object.key ≡ key
  pub candidate : is_candidate c key ≡ true
  pub newest : All (λ o. (is_candidate c o.key && str_lt key o.key) ≡ false) objects

not_above : (b s l : Bool) → (b ≡ true → s ≡ true → l ≡ false) → ((b && s) && l) ≡ false
not_above true true l h = h refl refl
not_above true false l h = refl
not_above false s l h = refl

found-eq-ok : (s key : Bytes) → found s ≡ ok key → (s ≡ key) × (is_empty s ≡ false)
unfolding found
found-eq-ok [] key h = cc
found-eq-ok (c ∷ s) key h = (ok-injective h, refl)

is_kept : Config → Object → Bool
is_kept c o = is_timestamp_backup c c.database o.key

latest-IsNewest :
    (c : Config) (objects : List Object) (top : Bytes)
    → latest (file_type c) (keep (is_kept c) objects) [] ≡ top
    → is_empty top ≡ false
    → IsNewest c objects top
unfolding is_kept
latest-IsNewest c objects top e some_top =
    elim (latest-IsFrom (file_type c) (keep (is_kept c) objects) []) [
      | inl none_found ↦ cc
      | inr (o, l, same_key, suffix) ↦
          let (listed, kept) =
            All-Lists _ (keep (is_kept c) objects)
              (keep-Lists (is_kept c) objects objects (λ _ k. k)) l in
          record {
            object = o;
            listed = listed;
            named = same_key ∙ e;
            candidate =
                subst (λ k. is_candidate c k ≡ true) (same_key ∙ e) (ground (arith, kept, suffix));
            newest =
                All-map _ _ (λ p up. not_above _ _ _ up) objects
                  (All-keep (is_kept c) _ objects (
                    subst
                      (λ k.
                        All (λ (p : Object). has_suffix p.key (file_type c) ≡ true → AtMost p.key k)
                          (keep (is_kept c) objects))
                      e (latest_above (file_type c) (keep (is_kept c) objects) []).1));
          }
    ]

module _ (w : World) (c : Config) where
  -- In timestamp mode, a restore without a timestamp takes the key of a listed timestamp backup of
  -- the database, with the ending of the configured kind of bundle, and no listed one of these has a
  -- greater key. The list is the one that the store has just given for the database's prefix.
  pub choose_by-IsNewest :
      (r : Run w) (key : Bytes)
      → str_eq c.filename_mode fixed ≡ false
      → (choose_by w c [] r).0 ≡ ok key
      → (objects : List Object) × ((w.list (timestamp_prefix c c.database) r.env).0 ≡ ok objects)
        × IsNewest c objects key
  unfolding choose_by timestamp_backups silent lift is_kept
  choose_by-IsNewest r key mode h =
      let (kept, e1, h1) = >>=-eq-ok (timestamp_backups w c c.database) _ r (rw mode at h) in
      let (objects, e0, e2) =
        >>=-eq-ok (silent w (w.list (timestamp_prefix c c.database))) _ r e1 in
      let (top, some_top) = found-eq-ok _ key h1 in
      (
        objects,
        e0,
        latest-IsNewest c objects key
            (ap (λ os. latest (file_type c) os []) (ok-injective e2) ∙ top)
            (subst (λ k. is_empty k ≡ false) top some_top),
      )
