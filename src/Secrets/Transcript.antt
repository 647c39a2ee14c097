-- ===== src/Secrets/Transcript.antt =====
-- internal/backup/secrets.go: what a whole log comes to.
use mongodb_backup_s.Base.{
  ℕ, ◌≤◌, ◌≡◌, refl, inl, inr, Bool-cases, Bool, true, false, List, [], ◌∷◌, ◌++◌, Bytes, length,
  length-append, append-nil, append_assoc, arith, ltb, ◌==◌, if◌then◌else◌,
}
use mongodb_backup_s.Secrets.{
  SecretWriter, line_limit, omitted, push, cut_lines, gather, end_line, write_parts, write, flush,
  redact, replace_uris, replace_all,
}

-- The pending line is never longer than the limit.
abbrev pub IsBounded : SecretWriter → Type 0
IsBounded w = length w.pending ≤ line_limit

gather-IsBounded : (w : SecretWriter) (part : Bytes) → IsBounded w → IsBounded (gather w part)
unfolding gather
gather-IsBounded w part h = ground (arith, length-append w.pending part)

end_line-IsBounded : (w : SecretWriter) → IsBounded (end_line w)
unfolding end_line
end_line-IsBounded w = ground arith

write_parts-IsBounded :
    (w : SecretWriter) (parts : List (Bytes × Bool)) → IsBounded w → IsBounded (write_parts w parts)
unfolding write_parts
write_parts-IsBounded w [] h = h
write_parts-IsBounded w ((part, true) ∷ parts) h =
    write_parts-IsBounded (end_line (gather w part)) parts (end_line-IsBounded (gather w part))
write_parts-IsBounded w ((part, false) ∷ parts) h =
    write_parts-IsBounded (gather w part) parts (gather-IsBounded w part h)

-- A pending line that is within the limit is within it after any write.
pub write-IsBounded : (w : SecretWriter) (p : Bytes) → IsBounded w → IsBounded (write w p)
unfolding write
write-IsBounded w p h = write_parts-IsBounded w (cut_lines p) h

-- One line of a log, with its newline or the last one without.
abbrev pub render : List Bytes → Bytes × Bool → Bytes
render secrets (line, ends) =
    if ltb line_limit (length line)
    then (if ends then omitted else [])
    else replace_uris (redact secrets line)

abbrev pub transcript : List Bytes → List (Bytes × Bool) → Bytes
transcript secrets [] = []
transcript secrets (part ∷ parts) = render secrets part ++ transcript secrets parts

-- Only the last part lacks a newline.
abbrev IsCut : List (Bytes × Bool) → Type 0
IsCut [] = Unit
IsCut ((line, true) ∷ parts) = IsCut parts
IsCut ((line, false) ∷ []) = Unit
IsCut ((line, false) ∷ part ∷ parts) = ⊥

push-IsCut : (c : ℕ) (parts : List (Bytes × Bool)) → IsCut parts → IsCut (push c parts)
push-IsCut c [] h = tt
push-IsCut c ((line, true) ∷ parts) h = h
push-IsCut c ((line, false) ∷ []) h = tt
push-IsCut c ((line, false) ∷ part ∷ parts) h = h

cut_lines-IsCut : (p : Bytes) → IsCut (cut_lines p)
unfolding cut_lines
cut_lines-IsCut [] = tt
cut_lines-IsCut (c ∷ p) = elim (Bool-cases (c == b'\n')) [
  | inl e ↦ rw e (cut_lines-IsCut p)
  | inr e ↦ rw e (push-IsCut c (cut_lines p) (cut_lines-IsCut p))
]

redact-nil : (secrets : List Bytes) → redact secrets [] ≡ []
unfolding redact replace_all
redact-nil [] = refl
redact-nil ([] ∷ secrets) = redact-nil secrets
redact-nil ((c ∷ secret) ∷ secrets) = redact-nil secrets

-- A writer at the start of a line.
abbrev pub fresh : Bytes → List Bytes → SecretWriter
fresh dst secrets = record { dst = dst; pending = []; secrets = secrets; dropping = false }

whole_line :
    (dst : Bytes) (secrets : List Bytes) (line : Bytes)
    → end_line (gather (fresh dst secrets) line)
      ≡ fresh (dst ++ render secrets (line, true)) secrets
unfolding end_line gather
whole_line dst secrets line = ground arith

last_line :
    (dst : Bytes) (secrets : List Bytes) (line : Bytes)
    → flush (gather (fresh dst secrets) line) ≡ fresh (dst ++ render secrets (line, false)) secrets
unfolding flush gather
last_line dst secrets line = ground (arith, append-nil dst)

flush-write_parts :
    (dst : Bytes) (secrets : List Bytes) (parts : List (Bytes × Bool))
    → IsCut parts
    → flush (write_parts (fresh dst secrets) parts)
      ≡ fresh (dst ++ transcript secrets parts) secrets
unfolding write_parts
flush-write_parts dst secrets [] h = unfold flush replace_uris in rw (redact-nil secrets)
flush-write_parts dst secrets ((line, true) ∷ parts) h = rw (
  whole_line dst secrets line,
  flush-write_parts (dst ++ render secrets (line, true)) secrets parts h,
  append_assoc,
)
flush-write_parts dst secrets ((line, false) ∷ []) h = rw (last_line dst secrets line, append-nil)
flush-write_parts dst secrets ((line, false) ∷ part ∷ parts) h = elim h [ ]

-- A log that is written and flushed comes to the redaction of each of its lines, in order; a line
-- above the limit is replaced by a notice, or left out if it is the last and has no newline.
pub flush-write :
    (dst : Bytes) (secrets : List Bytes) (p : Bytes)
    → flush (write (fresh dst secrets) p) ≡ fresh (dst ++ transcript secrets (cut_lines p)) secrets
unfolding write
flush-write dst secrets p = flush-write_parts dst secrets (cut_lines p) (cut_lines-IsCut p)
