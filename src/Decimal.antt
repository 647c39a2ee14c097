-- ===== src/Decimal.antt =====
-- strconv.Atoi on a 64-bit machine.
use mongodb_backup_s.Base.{
  ℕ, ◌+◌, ◌-◌, ◌*◌, ◌^◌, Bool, true, [], ◌∷◌, Option, none, some, Bytes, ltb, ◌==◌, ◌≡◌, ◌<◌, arith,
  if◌then◌else◌, between, is_empty,
}

-- `negsuc n` is -(n + 1).
pub data ℤ : Type 0 where
  pos : ℕ → ℤ
  negsuc : ℕ → ℤ

abbrev pub is_digit : ℕ → Bool
is_digit c = between b'0' b'9' c

-- The number that digits spell behind `n`; `none` at another byte.
unfoldable pub scan_digits : Bytes → ℕ → Option ℕ
scan_digits [] n = some n
scan_digits (c ∷ s) n =
    let rest = scan_digits s (n * 10 + (c - b'0')) in if is_digit c then rest else none

unsigned : Bytes → Option ℕ
unsigned s = if is_empty s then none else scan_digits s 0

negative : Option ℕ → Option ℤ
negative none = none
negative (some n) =
    if n == 0 then some (pos 0) else if ltb (2 ^ 63) n then none else some (negsuc (n - 1))

unfoldable pub nonnegative : Option ℕ → Option ℤ
nonnegative none = none
nonnegative (some n) = if ltb n (2 ^ 63) then some (pos n) else none

unfoldable pub atoi : Bytes → Option ℤ
unfolding unsigned negative nonnegative scan_digits
atoi [] = none
atoi (c ∷ s) =
    if c == b'-'
    then negative (unsigned s)
    else if c == b'+'
    then nonnegative (unsigned s)
    else nonnegative (unsigned (c ∷ s))

-- `err != nil || n < lo || n > hi`, for a positive `lo`: the number, if it passes.
unfoldable pub in_range : ℕ → ℕ → Option ℤ → Option ℕ
in_range lo hi none = none
in_range lo hi (some (negsuc n)) = none
in_range lo hi (some (pos n)) = if between lo hi n then some n else none

pub atoi_digit :
    (c : ℕ) (s : Bytes) → is_digit c ≡ true → atoi (c ∷ s) ≡ nonnegative (scan_digits (c ∷ s) 0)
unfolding atoi
atoi_digit c s h = ground arith

pub in_range-nonnegative :
    (lo hi n : ℕ)
    → hi < 2 ^ 63
    → in_range lo hi (nonnegative (some n)) ≡ (if between lo hi n then some n else none)
unfolding in_range nonnegative
in_range-nonnegative lo hi n h = ground arith
