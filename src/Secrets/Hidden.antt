-- ===== src/Secrets/Hidden.antt =====
-- internal/backup/secrets.go, emit: what is left of the secrets in a line.
use mongodb_backup_s.Base.{
  ℕ, zero, suc, ◌-◌, ◌≡◌, refl, sym, ◌∙◌, inl, inr, Bool, true, false, ◌&&◌, ◌||◌, List, [], ◌∷◌,
  ◌++◌, Bytes, codes, length, arith, Bool-cases, ◌==◌, is_empty, All, has_prefix, cut_prefix,
  contains_byte,
}
use mongodb_backup_s.Secrets.{
  replace_from, replace_all, uri_length, replace_uris_from, replace_uris, redacted, redact,
  SecretWriter, emit,
}

abbrev pub starts : Bytes → Bytes → Bool
starts [] s = true
starts (d ∷ p) [] = false
starts (d ∷ p) (c ∷ s) = c == d && starts p s

abbrev pub occurs : Bytes → Bytes → Bool
occurs p [] = starts p []
occurs p (c ∷ s) = starts p (c ∷ s) || occurs p s

has_prefix-starts : (s p : Bytes) → has_prefix s p ≡ starts p s
unfolding has_prefix cut_prefix
has_prefix-starts [] [] = refl
has_prefix-starts (c ∷ s) [] = refl
has_prefix-starts [] (d ∷ p) = refl
has_prefix-starts (c ∷ s) (d ∷ p) = elim (Bool-cases (c == d)) [
  | inl e ↦ rw (e, has_prefix, cut_prefix) (has_prefix-starts s p)
  | inr e ↦ rw (e, has_prefix, cut_prefix) refl
]

-- No byte of a text is one of a mark.
abbrev pub IsForeign : Bytes → Bytes → Type 0
IsForeign mark = All (λ d. contains_byte mark d ≡ false)

contra : (a b : Bool) → (a ≡ true → b ≡ true) → b ≡ false → a ≡ false
contra true b f h = sym (f refl) ∙ h
contra false b f h = refl

-- Nothing that begins with a foreign byte begins in a mark.
occurs-append :
    (mark rest p : Bytes) (d : ℕ)
    → contains_byte mark d ≡ false
    → occurs (d ∷ p) (mark ++ rest) ≡ true
    → occurs (d ∷ p) rest ≡ true
occurs-append [] rest p d foreign h = h
occurs-append (m ∷ mark) rest p d foreign h = ground (arith, occurs-append mark rest p d)

starts-append :
    (mark rest p : Bytes) (d m : ℕ)
    → contains_byte (m ∷ mark) d ≡ false
    → starts (d ∷ p) (m ∷ (mark ++ rest)) ≡ false
starts-append mark rest p d m foreign = ground arith

module _ (old : Bytes) (m : ℕ) (mark : Bytes) where
  -- A foreign text that begins a text after the replacement has begun it before.
  starts-replace_from :
      (s p : Bytes)
      → IsForeign (m ∷ mark) p
      → starts p (replace_from old (m ∷ mark) 0 s) ≡ true
      → starts p s ≡ true
  unfolding replace_from
  starts-replace_from s [] foreign h = refl
  starts-replace_from [] (d ∷ p) foreign h = h
  starts-replace_from (c ∷ s) (d ∷ p) (fd, foreign) h = elim (Bool-cases (has_prefix (c ∷ s) old)) [
    | inl e ↦ cc (sym (starts-append mark _ p d m fd) ∙ (rw e at h))
    | inr e ↦ ground (arith, rw e at h, starts-replace_from s p foreign)
  ]

  -- The replacement makes no new occurrence of a foreign text.
  occurs-replace_from :
      (s : Bytes) (skip : ℕ) (p : Bytes) (d : ℕ)
      → IsForeign (m ∷ mark) (d ∷ p)
      → occurs (d ∷ p) (replace_from old (m ∷ mark) skip s) ≡ true
      → occurs (d ∷ p) s ≡ true
  unfolding replace_from
  occurs-replace_from [] skip p d foreign h = h
  occurs-replace_from (c ∷ s) (suc skip) p d foreign h =
      ground (arith, occurs-replace_from s skip p d foreign h)
  occurs-replace_from (c ∷ s) zero p d foreign h = elim (Bool-cases (has_prefix (c ∷ s) old)) [
    | inl e ↦
        let rest = replace_from old (m ∷ mark) (length old - 1) s in
        let later : occurs (d ∷ p) rest ≡ true =
          occurs-append (m ∷ mark) rest p d foreign.0 (rw e at h) in
        ground (arith, occurs-replace_from s (length old - 1) p d foreign later)
    | inr e ↦
        let rest = replace_from old (m ∷ mark) zero s in
        elim (Bool-cases (starts (d ∷ p) (c ∷ rest))) [
          | inl begins ↦
              let before : starts (d ∷ p) (c ∷ s) ≡ true =
                starts-replace_from (c ∷ s) (d ∷ p) foreign (rw e begins) in
              rw before refl
          | inr not_here ↦
              ground (arith, rw (e, not_here) at h, occurs-replace_from s zero p d foreign)
        ]
  ]

-- The replacement leaves no occurrence of what it looks for, if this is foreign to the mark.
occurs-replaced :
    (m : ℕ) (mark : Bytes) (d : ℕ) (p s : Bytes) (skip : ℕ)
    → IsForeign (m ∷ mark) (d ∷ p)
    → occurs (d ∷ p) (replace_from (d ∷ p) (m ∷ mark) skip s) ≡ false
unfolding replace_from
occurs-replaced m mark d p [] skip foreign = refl
occurs-replaced m mark d p (c ∷ s) (suc skip) foreign = occurs-replaced m mark d p s skip foreign
occurs-replaced m mark d p (c ∷ s) zero foreign = elim (Bool-cases (has_prefix (c ∷ s) (d ∷ p))) [
  | inl e ↦
      let rest = replace_from (d ∷ p) (m ∷ mark) (length (d ∷ p) - 1) s in
      rw e (
        contra (occurs (d ∷ p) ((m ∷ mark) ++ rest)) (occurs (d ∷ p) rest)
          (occurs-append (m ∷ mark) rest p d foreign.0)
          (occurs-replaced m mark d p s (length (d ∷ p) - 1) foreign))
  | inr e ↦
      let rest = replace_from (d ∷ p) (m ∷ mark) zero s in
      let begins =
        contra (starts (d ∷ p) (c ∷ rest)) (starts (d ∷ p) (c ∷ s))
          (λ h. starts-replace_from (d ∷ p) m mark (c ∷ s) (d ∷ p) foreign (rw e h))
          (sym (has_prefix-starts (c ∷ s) (d ∷ p)) ∙ e) in
      rw (e, begins) (occurs-replaced m mark d p s zero foreign)
]

abbrev pub uri_mark : Bytes
uri_mark = codes "[REDACTED URI]"

starts-replace_uris :
    (s p : Bytes)
    → IsForeign uri_mark p
    → starts p (replace_uris_from 0 s) ≡ true
    → starts p s ≡ true
unfolding replace_uris_from
starts-replace_uris s [] foreign h = refl
starts-replace_uris [] (d ∷ p) foreign h = h
starts-replace_uris (c ∷ s) (d ∷ p) (fd, foreign) h = elim (Bool-cases (uri_length (c ∷ s) == 0)) [
  | inr e ↦ cc (sym (starts-append (codes "REDACTED URI]") _ p d b'[' fd) ∙ (rw e at h))
  | inl e ↦ ground (arith, rw e at h, starts-replace_uris s p foreign)
]

-- The replacement of URIs makes no new occurrence of a foreign text.
occurs-replace_uris :
    (s : Bytes) (skip : ℕ) (p : Bytes) (d : ℕ)
    → IsForeign uri_mark (d ∷ p)
    → occurs (d ∷ p) (replace_uris_from skip s) ≡ true
    → occurs (d ∷ p) s ≡ true
unfolding replace_uris_from
occurs-replace_uris [] skip p d foreign h = h
occurs-replace_uris (c ∷ s) (suc skip) p d foreign h =
    ground (arith, occurs-replace_uris s skip p d foreign h)
occurs-replace_uris (c ∷ s) zero p d foreign h = elim (Bool-cases (uri_length (c ∷ s) == 0)) [
  | inr e ↦
      let rest = replace_uris_from (uri_length (c ∷ s) - 1) s in
      let later : occurs (d ∷ p) rest ≡ true =
        occurs-append uri_mark rest p d foreign.0 (rw e at h) in
      ground (arith, occurs-replace_uris s (uri_length (c ∷ s) - 1) p d foreign later)
  | inl e ↦
      let rest = replace_uris_from zero s in
      elim (Bool-cases (starts (d ∷ p) (c ∷ rest))) [
        | inl begins ↦
            let before : starts (d ∷ p) (c ∷ s) ≡ true =
              starts-replace_uris (c ∷ s) (d ∷ p) foreign (rw e begins) in
            rw before refl
        | inr not_here ↦
            ground (arith, rw (e, not_here) at h, occurs-replace_uris s zero p d foreign)
      ]
]

IsForeign-redacted : (p : Bytes) → IsForeign uri_mark p → IsForeign redacted p
IsForeign-redacted [] h = tt
IsForeign-redacted (d ∷ p) (h, k) = (ground (arith, h), IsForeign-redacted p k)

-- What is absent from a line stays so through the loop over the secrets.
redact_absent :
    (secrets : List Bytes) (s p : Bytes) (d : ℕ)
    → IsForeign redacted (d ∷ p)
    → occurs (d ∷ p) s ≡ false
    → occurs (d ∷ p) (redact secrets s) ≡ false
unfolding redact replace_all
redact_absent [] s p d foreign h = h
redact_absent ([] ∷ secrets) s p d foreign h = redact_absent secrets s p d foreign h
redact_absent ((o ∷ old) ∷ secrets) s p d foreign h =
    redact_absent secrets (replace_all s (o ∷ old) redacted) p d foreign (
      contra (occurs (d ∷ p) (replace_all s (o ∷ old) redacted)) (occurs (d ∷ p) s)
        (occurs-replace_from (o ∷ old) b'[' (codes "REDACTED]") s 0 p d foreign) h)

redact_hides :
    (before after : List Bytes) (s p : Bytes) (d : ℕ)
    → IsForeign redacted (d ∷ p)
    → occurs (d ∷ p) (redact (before ++ ((d ∷ p) ∷ after)) s) ≡ false
unfolding redact replace_all
redact_hides [] after s p d foreign =
    redact_absent after (replace_all s (d ∷ p) redacted) p d foreign
      (occurs-replaced b'[' (codes "REDACTED]") d p s 0 foreign)
redact_hides (other ∷ before) after s p d foreign = redact_hides before after _ p d foreign

-- A line that is written holds none of the secrets of its writer that are not empty and have no
-- byte in common with the mark that stands for a URI.
pub emit_hides :
    (w : SecretWriter) (line secret : Bytes) (before after : List Bytes)
    → w.secrets ≡ before ++ (secret ∷ after)
    → is_empty secret ≡ false
    → IsForeign uri_mark secret
    → (out : Bytes) × ((emit w line).dst ≡ w.dst ++ out) × (occurs secret out ≡ false)
unfolding emit replace_uris
emit_hides w line [] before after e named foreign = cc
emit_hides w line (d ∷ p) before after e named foreign =
    let text = redact w.secrets line in
    let clean : occurs (d ∷ p) text ≡ false =
      rw e (redact_hides before after line p d (IsForeign-redacted (d ∷ p) foreign)) in
    (
      replace_uris text,
      refl,
      contra (occurs (d ∷ p) (replace_uris text)) (occurs (d ∷ p) text)
          (occurs-replace_uris text 0 p d foreign) clean,
    )
