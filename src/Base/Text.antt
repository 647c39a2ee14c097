-- ===== src/Base/Text.antt =====
-- Go strings as lists of bytes, with what the code uses of the package strings.
use Prim.Native.Nat.{ℕ, zero, suc, ◌-◌, ◌<◌}
use Prim.Native.Char.{code}
use Prim.Native.String.{String}
use mathlib.Core.Path.{◌≡◌, refl}
use mathlib.Core.Logic.{◌↔◌}
use mathlib.Core.Bool.{Bool, true, false, ◌&&◌, ◌||◌}
use mathlib.Core.List.{List, [], ◌∷◌, reverse}
use mathlib.Core.Option.{Option, none, some}
use native.Mathlib.Omega.{arith}
use mongodb_backup_s.Base.Tests.{ltb, ◌==◌, if◌then◌else◌, between}
use mongodb_backup_s.Base.Lists.{any}

abbrev pub Bytes : Type 0
Bytes = List ℕ

-- The bytes of a literal, which is ASCII everywhere in the code.
abbrev pub codes : String → Bytes
codes String.[] = []
codes (String.◌∷◌ c s) = code c ∷ codes s

abbrev pub is_empty {ℓ} : {A : Type ℓ} → List A → Bool
is_empty [] = true
is_empty (c ∷ s) = false

-- `a == b` on strings.
unfoldable pub str_eq : Bytes → Bytes → Bool
str_eq [] [] = true
str_eq [] (d ∷ t) = false
str_eq (c ∷ s) [] = false
str_eq (c ∷ s) (d ∷ t) = c == d && str_eq s t

pub str_eq→eq : (a b : Bytes) → str_eq a b ≡ true → a ≡ b
unfolding str_eq
str_eq→eq [] [] h = refl
str_eq→eq [] (d ∷ t) h = ground arith
str_eq→eq (c ∷ s) [] h = ground arith
str_eq→eq (c ∷ s) (d ∷ t) h = ground (arith, str_eq→eq s t)

pub str_eq_refl : (a : Bytes) → str_eq a a ≡ true
unfolding str_eq
str_eq_refl [] = refl
str_eq_refl (c ∷ s) = ground (arith, str_eq_refl s)

pub str_eq_iff : (a b : Bytes) → (str_eq a b ≡ true) ↔ (a ≡ b)
str_eq_iff a b = (str_eq→eq a b, λ e. rw e (str_eq_refl b))

-- `a < b` on strings: by the first byte that differs, and a proper prefix is smaller.
unfoldable pub str_lt : Bytes → Bytes → Bool
str_lt s [] = false
str_lt [] (d ∷ t) = true
str_lt (c ∷ s) (d ∷ t) = let rest = str_lt s t in if c == d then rest else ltb c d

-- `strings.CutPrefix`: what follows the prefix, if it is there.
unfoldable pub cut_prefix : Bytes → Bytes → Option Bytes
cut_prefix s [] = some s
cut_prefix [] (p ∷ ps) = none
cut_prefix (c ∷ s) (p ∷ ps) = let rest = cut_prefix s ps in if c == p then rest else none

unfoldable pub has_prefix : Bytes → Bytes → Bool
has_prefix s p = elim (cut_prefix s p) [ none ↦ false | some _ ↦ true ]

unfoldable pub trim_prefix : Bytes → Bytes → Bytes
trim_prefix s p = elim (cut_prefix s p) [ none ↦ s | some rest ↦ rest ]

unfoldable pub has_suffix : Bytes → Bytes → Bool
unfolding has_prefix cut_prefix
has_suffix s t = has_prefix (reverse s) (reverse t)

-- `strings.IndexByte(s, b) >= 0`
abbrev pub contains_byte : Bytes → ℕ → Bool
contains_byte s b = any (λ c. c == b) s

-- `strings.ContainsAny(s, chars)`, for ASCII characters.
abbrev pub contains_any : Bytes → Bytes → Bool
contains_any s chars = any (λ c. contains_byte chars c) s

-- `strings.TrimRight(s, cutset)`, for a cutset of ASCII characters.
unfoldable pub trim_right : Bytes → Bytes → Bytes
trim_right [] cutset = []
trim_right (c ∷ s) cutset = elim (trim_right s cutset) [
  | [] ↦ if contains_byte cutset c then [] else c ∷ []
  | d ∷ t ↦ c ∷ d ∷ t
]

-- The first part of a text, with the next byte in front.
abbrev pub push_front : ℕ → List Bytes → List Bytes
push_front c [] = (c ∷ []) ∷ []
push_front c (p ∷ ps) = (c ∷ p) ∷ ps

-- `strings.Split(s, sep)` at a single byte.
unfoldable pub split : Bytes → ℕ → List Bytes
split [] sep = [] ∷ []
split (c ∷ s) sep = let rest = split s sep in if c == sep then [] ∷ rest else push_front c rest

-- The length of the Unicode space (UTF-8) whose bytes begin with these three, or 0.
space3 : ℕ → ℕ → ℕ → ℕ
space3 a b c =
    if between 9 13 a || a == 32
    then 1
    else if a == 0xc2 && (b == 0x85 || b == 0xa0)
    then 2
    else if a == 0xe1 && b == 0x9a && c == 0x80
    then 3
    else if a == 0xe2 && b == 0x80 && (between 0x80 0x8a c || between 0xa8 0xa9 c || c == 0xaf)
    then 3
    else if a == 0xe2 && b == 0x81 && c == 0x9f
    then 3
    else if a == 0xe3 && b == 0x80 && c == 0x80
    then 3
    else 0

-- The space at the front of a text, and the space at the end of a text that is given reversed.
space_first : Bytes → ℕ
space_first [] = 0
space_first (a ∷ []) = space3 a 0 0
space_first (a ∷ b ∷ []) = space3 a b 0
space_first (a ∷ b ∷ c ∷ s) = space3 a b c

space_last : Bytes → ℕ
space_last [] = 0
space_last (a ∷ []) = space3 a 0 0
space_last (b ∷ a ∷ []) = if space3 b 0 0 == 1 then 1 else if space3 a b 0 == 2 then 2 else 0
space_last (c ∷ b ∷ a ∷ s) =
    if space3 c 0 0 == 1
    then 1
    else if space3 b c 0 == 2
    then 2
    else if space3 a b c == 3
    then 3
    else 0

drop_spaces : (Bytes → ℕ) → ℕ → Bytes → Bytes
drop_spaces space skip [] = []
drop_spaces space (suc skip) (c ∷ s) = drop_spaces space skip s
drop_spaces space zero (c ∷ s) =
    let rest = drop_spaces space (space (c ∷ s) - 1) s in if space (c ∷ s) == 0 then c ∷ s else rest

-- `strings.TrimSpace`
unfoldable pub trim_space : Bytes → Bytes
unfolding space3 space_first space_last drop_spaces
trim_space s = reverse (drop_spaces space_last 0 (reverse (drop_spaces space_first 0 s)))

-- The bytes that may follow a lead byte: how many, and the range of the first.
utf8_lead : ℕ → Option (ℕ × ℕ × ℕ)
utf8_lead c =
    if ltb c 0x80
    then some (0, 0x80, 0xbf)
    else if between 0xc2 0xdf c
    then some (1, 0x80, 0xbf)
    else if c == 0xe0
    then some (2, 0xa0, 0xbf)
    else if c == 0xed
    then some (2, 0x80, 0x9f)
    else if between 0xe1 0xef c
    then some (2, 0x80, 0xbf)
    else if c == 0xf0
    then some (3, 0x90, 0xbf)
    else if between 0xf1 0xf3 c
    then some (3, 0x80, 0xbf)
    else if c == 0xf4
    then some (3, 0x80, 0x8f)
    else none

utf8_scan : Bytes → ℕ → ℕ → ℕ → Bool
utf8_scan [] zero lo hi = true
utf8_scan [] (suc n) lo hi = false
utf8_scan (c ∷ s) zero lo hi = elim (utf8_lead c) [
  | none ↦ false
  | some (n, lo', hi') ↦ utf8_scan s n lo' hi'
]
utf8_scan (c ∷ s) (suc n) lo hi = between lo hi c && utf8_scan s n 0x80 0xbf

-- `utf8.ValidString`
unfoldable pub utf8_valid : Bytes → Bool
unfolding utf8_lead utf8_scan
utf8_valid s = utf8_scan s 0 0x80 0xbf

-- A byte below 0x80 is a rune of its own.
pub utf8_valid-ascii : (c : ℕ) → c < 0x80 → utf8_valid (c ∷ []) ≡ true
unfolding utf8_valid
utf8_valid-ascii c h = ground arith
