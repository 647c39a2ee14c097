-- ===== src/Config/Validate/Days.antt =====
-- internal/backup/config.go: the days of retention that validateBackup returns.
use mongodb_backup_s.Base.{
  ℕ, ◌+◌, ◌-◌, ◌*◌, ◌^◌, ◌≤◌, ◌<◌, ◌≡◌, ◌≢◌, ◌⊎◌, Bool-cases, inl, inr, refl, false, ◌||◌, not, [],
  ◌∷◌, none, some, Bytes, ◌==◌, if◌then◌else◌, any, arith, between, ok, >>-eq-ok,
}
use mathlib.Core.List.{foldl, cons-ne-nil}
use mongodb_backup_s.Config.{Config}
use mongodb_backup_s.Config.Validate.{validate_backup, check_keep_days, check_selectors}
use mongodb_backup_s.Config.Uri.{require_connection}
use mongodb_backup_s.Decimal.{
  is_digit, scan_digits, atoi_digit, in_range-nonnegative, atoi, in_range,
}

-- The number that a text of digits spells behind `n`, with no bound.
abbrev pub value : ℕ → Bytes → ℕ
value = foldl (λ n c. n * 10 + (c - b'0'))

scan_digits-value :
    (s : Bytes) (n : ℕ) → any (λ d. not (is_digit d)) s ≡ false → scan_digits s n ≡ some (value n s)
unfolding scan_digits
scan_digits-value [] n h = refl
scan_digits-value (c ∷ s) n h = ground (arith, scan_digits-value s (n * 10 + (c - b'0')))

digits_in_range :
    (lo hi c : ℕ) (s : Bytes)
    → hi < 2 ^ 63
    → any (λ d. not (is_digit d)) (c ∷ s) ≡ false
    → in_range lo hi (atoi (c ∷ s))
      ≡ (if between lo hi (value 0 (c ∷ s)) then some (value 0 (c ∷ s)) else none)
digits_in_range lo hi c s small h =
    rw (atoi_digit c s (ground arith), scan_digits-value (c ∷ s) 0 h)
      (in_range-nonnegative lo hi (value 0 (c ∷ s)) small)

check_keep_days_sound :
    (s : Bytes) (days : ℕ)
    → check_keep_days s ≡ ok days
    → ((s ≡ []) × (days ≡ 0)) ⊎ ((s ≢ []) × (days ≡ value 0 s) × (1 ≤ days) × (days ≤ 36500))
unfolding check_keep_days
check_keep_days_sound [] days h = inl (refl, ground arith)
check_keep_days_sound (c ∷ s) days h =
    elim (Bool-cases (c == b'0' || any (λ d. not (is_digit d)) (c ∷ s))) [
      | inl e ↦ ground arith
      | inr e ↦
          let r = digits_in_range 1 36500 c s (omega arith) (ground arith) in
          inr (cons-ne-nil c s, ground (arith, r), ground (arith, r), ground (arith, r))
    ]

-- Retention keeps no days just where BACKUP_KEEP_DAYS is unset. Any other accepted setting is a
-- number from 1 to 36500, and the days are that number.
pub validate_backup_days :
    (c : Config) (days : ℕ)
    → validate_backup c ≡ ok days
    → ((c.keep_days ≡ []) × (days ≡ 0))
      ⊎ ((c.keep_days ≢ []) × (days ≡ value 0 c.keep_days) × (1 ≤ days) × (days ≤ 36500))
unfolding validate_backup
validate_backup_days c days h =
    let (_, rest) = >>-eq-ok (require_connection c) _ h in
    let (_, last) = >>-eq-ok (check_selectors c) _ rest in
    check_keep_days_sound c.keep_days days last
