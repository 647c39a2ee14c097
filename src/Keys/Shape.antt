-- ===== src/Keys/Shape.antt =====
-- internal/backup/config.go: the keys that `backupKey` makes against the pattern that `isTimestampBackup` asks for.
use mongodb_backup_s.Base.{
  List, append-nil, not, ℕ, ◌+◌, ◌/◌, ◌%◌, ◌<◌, ◌≡◌, refl, sym, ◌∙◌, true, false, inl, inr, [], ◌∷◌,
  ◌++◌, Bytes, arith, codes, Bool-cases, some, has_prefix-append, trim_prefix-append, str_eq,
}
use mongodb_backup_s.Clock.{Instant, Civil, civil, format, digits, year_text}
use mongodb_backup_s.Config.{Config, fixed}
use mongodb_backup_s.Keys.{
  Item, digit, lit, match_items, timestamp_items, is_timestamp, is_backup_suffix,
  is_timestamp_backup, fixed_key, backup_key, file_type,
}

match_digit :
    (n : ℕ) (is : List Item) (s : Bytes)
    → match_items (digit ∷ is) ((b'0' + n % 10) ∷ s) ≡ match_items is s
unfolding match_items
match_digit n is s = ground arith

match_lit :
    (b : ℕ) (is : List Item) (s : Bytes) → match_items (lit b ∷ is) (b ∷ s) ≡ match_items is s
unfolding match_items
match_lit b is s = ground arith

match_end : (s : Bytes) → match_items [] s ≡ some s
unfolding match_items
match_end s = refl

short_year : (n : ℕ) → n < 10000 → year_text n ≡ digits 4 n
unfolding year_text
short_year n h = let e : n / 10000 ≡ 0 = omega arith in rw e

-- A formatted time is matched whole, up to the year 9999.
pub match_items-format :
    (c : Civil) (rest : Bytes)
    → c.year < 10000
    → match_items timestamp_items (format c ++ rest) ≡ some rest
unfolding format digits
match_items-format c rest h = rw (short_year c.year h) (simp (match_digit, match_lit, match_end))

pub is_timestamp-format : (c : Civil) → c.year < 10000 → is_timestamp (format c) ≡ true
unfolding is_timestamp
is_timestamp-format c h =
    let e : match_items timestamp_items (format c) ≡ some [] =
      (λ i. match_items timestamp_items (sym (append-nil (format c)) i))
      ∙ match_items-format c [] h in
    rw (e, is_timestamp)

is_backup_suffix-format :
    (c : Civil) (config : Config)
    → c.year < 10000
    → is_backup_suffix (format c ++ file_type config) ≡ true
unfolding is_backup_suffix file_type
is_backup_suffix-format c config h =
    rw (match_items-format c (file_type config) h, is_backup_suffix) (ground arith)

latest_is_no_suffix : (s : Bytes) → is_backup_suffix (codes "latest" ++ s) ≡ false
unfolding is_backup_suffix
latest_is_no_suffix s = refl

-- With a fixed name the key of a backup is no timestamp backup, and otherwise it is one, for every
-- database and every time up to the end of the year 9999.
pub is_timestamp_backup-backup_key :
    (c : Config) (database : Bytes) (now : Instant)
    → (civil now).year < 10000
    → is_timestamp_backup c database (backup_key c database now)
      ≡ not (str_eq c.filename_mode fixed)
unfolding is_timestamp_backup backup_key fixed_key
is_timestamp_backup-backup_key c database now h = elim (Bool-cases (str_eq c.filename_mode fixed)) [
  | inl e ↦ rw (e, has_prefix-append, trim_prefix-append) (latest_is_no_suffix (file_type c))
  | inr e ↦ rw (e, has_prefix-append, trim_prefix-append) (is_backup_suffix-format (civil now) c h)
]
