-- ===== src/Base/Split.antt =====
-- Cutting a text at a byte and joining the parts.
use mathlib.Core.Path.{◌≡◌, refl, sym, ap, subst, ◌∙◌}
use Prim.Native.Nat.{ℕ}
use mathlib.Core.Logic.{inl, inr}
use mathlib.Core.Bool.{false}
use mathlib.Core.List.{List, [], ◌∷◌, ◌++◌, append_assoc}
use native.Mathlib.Omega.{arith}
use mongodb_backup_s.Base.Tests.{◌==◌, Bool-cases}
use mongodb_backup_s.Base.Lists.{All, any}
use mongodb_backup_s.Base.Text.{Bytes, split}

-- A text without the separator.
abbrev pub IsPiece : ℕ → Bytes → Type 0
IsPiece sep p = any (λ c. c == sep) p ≡ false

-- The parts with a separator between each two.
abbrev pub join_with : ℕ → List Bytes → Bytes
join_with sep [] = []
join_with sep (p ∷ []) = p
join_with sep (p ∷ q ∷ ps) = p ++ (sep ∷ join_with sep (q ∷ ps))

pub split_piece : (sep : ℕ) (p : Bytes) → IsPiece sep p → split p sep ≡ p ∷ []
unfolding split
split_piece sep [] h = refl
split_piece sep (c ∷ p) h = ground (arith, split_piece sep p)

-- There is always a first part.
pub split_first : (sep : ℕ) (s : Bytes) → (p : Bytes) × (ps : List Bytes) × (split s sep ≡ p ∷ ps)
unfolding split
split_first sep [] = ([], [], refl)
split_first sep (c ∷ s) = elim (Bool-cases (c == sep)) [
  | inl e ↦ ([], split s sep, rw e)
  | inr e ↦ let (p, ps, eq) = split_first sep s in (c ∷ p, ps, rw (e, eq))
]

-- A separator splits, whatever stands on its sides.
pub split-append : (sep : ℕ) (s t : Bytes) → split (s ++ (sep ∷ t)) sep ≡ split s sep ++ split t sep
unfolding split
split-append sep [] t = ground arith
split-append sep (c ∷ s) t = elim (Bool-cases (c == sep)) [
  | inl e ↦ rw e (ap (λ ps. [] ∷ ps) (split-append sep s t))
  | inr e ↦ let (p, ps, eq) = split_first sep s in rw (e, split-append sep s t, eq)
]

-- Parts that are joined are cut again.
pub split-join_with :
    (sep : ℕ) (p : Bytes) (ps : List Bytes)
    → All (IsPiece sep) (p ∷ ps)
    → split (join_with sep (p ∷ ps)) sep ≡ p ∷ ps
split-join_with sep p [] (hp, h) = split_piece sep p hp
split-join_with sep p (q ∷ ps) (hp, h) =
    split-append sep p (join_with sep (q ∷ ps))
    ∙ ap (λ l. l ++ split (join_with sep (q ∷ ps)) sep) (split_piece sep p hp)
    ∙ ap (λ l. p ∷ l) (split-join_with sep q ps h)

-- The parts have no separator, and joined they are the text.
pub split_pieces : (sep : ℕ) (s : Bytes) → All (IsPiece sep) (split s sep)
unfolding split
split_pieces sep [] = (refl, tt)
split_pieces sep (c ∷ s) = elim (Bool-cases (c == sep)) [
  | inl e ↦ rw e (refl, split_pieces sep s)
  | inr e ↦
      let (p, ps, eq) = split_first sep s in
      let (first, others) = subst (All (IsPiece sep)) eq (split_pieces sep s) in
      rw (e, eq) (ground arith, others)
]

pub join_with-split : (sep : ℕ) (s : Bytes) → join_with sep (split s sep) ≡ s
unfolding split
join_with-split sep [] = refl
join_with-split sep (c ∷ s) =
    let (p, ps, eq) = split_first sep s in
    let same_text = subst (λ l. join_with sep l ≡ s) eq (join_with-split sep s) in
    elim (Bool-cases (c == sep)) [
      | inl e ↦ rw (e, eq) (ground arith)
      | inr e ↦ rw (e, eq) (pushed p ps ∙ ap (λ t. c ∷ t) same_text)
    ]
  where
    pushed :
        (p : Bytes) (ps : List Bytes) → join_with sep ((c ∷ p) ∷ ps) ≡ c ∷ join_with sep (p ∷ ps)
    pushed p [] = refl
    pushed p (q ∷ ps) = refl

pub join_with-append :
    (sep : ℕ) (p : Bytes) (ps : List Bytes) (q : Bytes) (qs : List Bytes)
    → join_with sep ((p ∷ ps) ++ (q ∷ qs))
      ≡ join_with sep (p ∷ ps) ++ (sep ∷ join_with sep (q ∷ qs))
join_with-append sep p [] q qs = refl
join_with-append sep p (r ∷ ps) q qs =
    ap (λ t. p ++ (sep ∷ t)) (join_with-append sep r ps q qs)
    ∙ sym (append_assoc p (sep ∷ join_with sep (r ∷ ps)) (sep ∷ join_with sep (q ∷ qs)))
