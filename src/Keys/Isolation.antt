-- ===== src/Keys/Isolation.antt =====
-- internal/backup/config.go, isTimestampBackup: whose backup an object key is. Retention and restore
-- find their objects by this test alone (app.go, restore.go).
use mongodb_backup_s.Base.{
  ◌≡◌, sym, ◌∙◌, ap, true, false, ◌∷◌, ◌++◌, Bytes, All, arith, codes, str_eq, trim_prefix,
  has_prefix_split, append-cancel_left, heads_differ, append-cancel_at, append_assoc, inl, inr,
  Bool-cases,
}
use mongodb_backup_s.Config.{Config, full}
use mongodb_backup_s.Keys.{timestamp_prefix, base_prefix, is_timestamp_backup, encode_component}
use mongodb_backup_s.Keys.Encode.{IsByte, encode_component_injective, encode_component-NoSlash}

is_timestamp_backup-has_prefix :
    (c : Config) (database key : Bytes)
    → is_timestamp_backup c database key ≡ true
    → key ≡ timestamp_prefix c database ++ trim_prefix key (timestamp_prefix c database)
unfolding is_timestamp_backup
is_timestamp_backup-has_prefix c database key h =
    has_prefix_split key (timestamp_prefix c database) (ground arith)

timestamp_prefix_database :
    (c : Config) (database s : Bytes)
    → str_eq c.backup_mode full ≡ false
    → timestamp_prefix c database ++ s
      ≡ (base_prefix c ++ codes "per-database/") ++ (encode_component database ++ (b'/' ∷ s))
unfolding timestamp_prefix
timestamp_prefix_database c database s e = rw e (simp append_assoc)

timestamp_prefix-full :
    (c : Config) (database s : Bytes)
    → str_eq c.backup_mode full ≡ true
    → timestamp_prefix c database ++ s ≡ base_prefix c ++ (codes "full/" ++ s)
unfolding timestamp_prefix
timestamp_prefix-full c database s e = rw e (simp append_assoc)

-- In per-database mode, two names made of bytes that have one timestamp backup in common are one name.
pub is_timestamp_backup_isolated :
    (c : Config) (a b key : Bytes)
    → str_eq c.backup_mode full ≡ false
    → All IsByte a
    → All IsByte b
    → is_timestamp_backup c a key ≡ true
    → is_timestamp_backup c b key ≡ true
    → a ≡ b
is_timestamp_backup_isolated c a b key mode ha hb pa pb =
    let front = base_prefix c ++ codes "per-database/" in
    let s = trim_prefix key (timestamp_prefix c a) in
    let t = trim_prefix key (timestamp_prefix c b) in
    let e : front ++ (encode_component a ++ (b'/' ∷ s))
        ≡ front ++ (encode_component b ++ (b'/' ∷ t)) =
      sym (timestamp_prefix_database c a s mode)
      ∙ sym (is_timestamp_backup-has_prefix c a key pa)
      ∙ is_timestamp_backup-has_prefix c b key pb
      ∙ timestamp_prefix_database c b t mode in
    encode_component_injective a b ha hb (
      append-cancel_at b'/' (encode_component a) (encode_component b) s t
        (encode_component-NoSlash a ha) (encode_component-NoSlash b hb)
        (append-cancel_left front _ _ e))

-- Where a configuration of the full mode and one of the per-database mode have the same prefix, a
-- timestamp backup of the first is none of any database under the second.
pub is_timestamp_backup_modes :
    (c d : Config) (a b key : Bytes)
    → base_prefix c ≡ base_prefix d
    → str_eq c.backup_mode full ≡ true
    → str_eq d.backup_mode full ≡ false
    → is_timestamp_backup c a key ≡ true
    → is_timestamp_backup d b key ≡ false
is_timestamp_backup_modes c d a b key same whole single pa =
    elim (Bool-cases (is_timestamp_backup d b key)) [
      | inr e ↦ e
      | inl pb ↦
          let s = trim_prefix key (timestamp_prefix c a) in
          let t = trim_prefix key (timestamp_prefix d b) in
          let e : base_prefix d ++ (codes "full/" ++ s)
              ≡ base_prefix d ++ (codes "per-database/" ++ (encode_component b ++ (b'/' ∷ t))) =
            ap (λ p. p ++ (codes "full/" ++ s)) (sym same)
            ∙ sym (timestamp_prefix-full c a s whole)
            ∙ sym (is_timestamp_backup-has_prefix c a key pa)
            ∙ is_timestamp_backup-has_prefix d b key pb
            ∙ timestamp_prefix_database d b t single
            ∙ append_assoc (base_prefix d) (codes "per-database/") _ in
          absurd (heads_differ _ _ _ _ (omega arith) (append-cancel_left (base_prefix d) _ _ e))
    ]
