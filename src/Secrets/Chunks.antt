-- ===== src/Secrets/Chunks.antt =====
-- internal/backup/secrets.go: a log against the writes that it comes in.
use mongodb_backup_s.Base.{
  ℕ, ◌≡◌, refl, inl, inr, Bool-cases, Bool, true, false, List, [], ◌∷◌, ◌++◌, Bytes, length-append,
  append_assoc, arith, ◌==◌, if◌then◌else◌,
}
use mongodb_backup_s.Secrets.{SecretWriter, push, cut_lines, gather, end_line, write_parts, write}

gather_twice : (w : SecretWriter) (p q : Bytes) → gather (gather w p) q ≡ gather w (p ++ q)
unfolding gather
gather_twice w p q =
    ground (arith, length-append p q, length-append w.pending p, append_assoc w.pending p q)

-- A text that is cut after its first byte.
write-push :
    (w : SecretWriter) (c : ℕ) (parts : List (Bytes × Bool))
    → write_parts w (push c parts) ≡ write_parts (gather w (c ∷ [])) parts
unfolding write_parts
write-push w c [] = refl
write-push w c ((part, true) ∷ parts) = rw (gather_twice w (c ∷ []) part)
write-push w c ((part, false) ∷ parts) = rw (gather_twice w (c ∷ []) part)

write-cons :
    (w : SecretWriter) (c : ℕ) (p : Bytes)
    → write w (c ∷ p)
      ≡ (if c == b'\n' then write (end_line (gather w (c ∷ []))) p else write (gather w (c ∷ [])) p)
unfolding write
write-cons w c p = elim (Bool-cases (c == b'\n')) [
  | inl e ↦ rw (e, cut_lines)
  | inr e ↦ rw (e, cut_lines) (write-push w c (cut_lines p))
]

-- Two writes leave the writer, its output included, as one write of both texts does.
pub write-append : (w : SecretWriter) (p q : Bytes) → write (write w p) q ≡ write w (p ++ q)
write-append w [] q = unfold write in refl
write-append w (c ∷ p) q = ground (
  arith,
  write-cons w c p,
  write-cons w c (p ++ q),
  write-append (end_line (gather w (c ∷ []))) p q,
  write-append (gather w (c ∷ [])) p q,
)
