-- ===== src/Base/Affix.antt =====
-- Prefixes: what `strings.HasPrefix` and `strings.TrimPrefix` decide and return.
use mathlib.Core.Path.{◌≡◌, refl}
use Prim.Native.Nat.{ℕ}
use mathlib.Core.Logic.{◌≢◌, inl, inr}
use mathlib.Core.Bool.{true}
use mathlib.Core.List.{[], ◌∷◌, ◌++◌}
use mathlib.Core.Option.{some}
use native.Mathlib.Omega.{arith}
use mongodb_backup_s.Base.Tests.{Option-cases}
use mongodb_backup_s.Base.Lists.{All}
use mongodb_backup_s.Base.Text.{Bytes, cut_prefix, has_prefix, trim_prefix}

pub cut_prefix-append : (p s : Bytes) → cut_prefix (p ++ s) p ≡ some s
unfolding cut_prefix
cut_prefix-append [] [] = refl
cut_prefix-append [] (c ∷ s) = refl
cut_prefix-append (c ∷ p) s = ground (arith, cut_prefix-append p s)

pub cut_prefix_sound : (s p r : Bytes) → cut_prefix s p ≡ some r → s ≡ p ++ r
unfolding cut_prefix
cut_prefix_sound [] [] r h = cc
cut_prefix_sound (c ∷ s) [] r h = cc
cut_prefix_sound [] (d ∷ p) r h = cc
cut_prefix_sound (c ∷ s) (d ∷ p) r h = ground (arith, cut_prefix_sound s p r)

pub has_prefix-append : (p s : Bytes) → has_prefix (p ++ s) p ≡ true
unfolding has_prefix
has_prefix-append p s = rw (cut_prefix-append p s, has_prefix)

pub trim_prefix-append : (p s : Bytes) → trim_prefix (p ++ s) p ≡ s
unfolding trim_prefix
trim_prefix-append p s = rw (cut_prefix-append p s, trim_prefix)

-- A text that has the prefix is the prefix and what trimming leaves.
pub has_prefix_split : (s p : Bytes) → has_prefix s p ≡ true → s ≡ p ++ trim_prefix s p
unfolding has_prefix trim_prefix
has_prefix_split s p h = elim (Option-cases (cut_prefix s p)) [
  | inl e ↦ ground arith
  | inr (r, e) ↦ rw (e, trim_prefix) (cut_prefix_sound s p r e)
]

-- The same front can be taken off both sides.
pub append-cancel_left : (p s t : Bytes) → p ++ s ≡ p ++ t → s ≡ t
append-cancel_left [] s t h = h
append-cancel_left (c ∷ p) s t h = append-cancel_left p s t (cc)

-- Up to the first separator two texts agree.
pub append-cancel_at :
    (sep : ℕ) (p q s t : Bytes)
    → All (λ c. c ≢ sep) p
    → All (λ c. c ≢ sep) q
    → p ++ (sep ∷ s) ≡ q ++ (sep ∷ t)
    → p ≡ q
append-cancel_at sep [] [] s t hp hq h = refl
append-cancel_at sep [] (d ∷ q) s t hp hq h = absurd (hq.0 (cc))
append-cancel_at sep (c ∷ p) [] s t hp hq h = absurd (hp.0 (cc))
append-cancel_at sep (c ∷ p) (d ∷ q) s t hp hq h = cc (append-cancel_at sep p q s t hp.1 hq.1 (cc))

-- Texts with different first bytes differ.
pub heads_differ : (c d : ℕ) (s t : Bytes) → c ≢ d → (c ∷ s) ≡ (d ∷ t) → ⊥
heads_differ c d s t h e = h (cc)
