-- ===== src/Keys/Encode.antt =====
-- internal/backup/config.go: `encodeComponent` against a decoder.
use mongodb_backup_s.Base.{
  ℕ, ◌+◌, ◌-◌, ◌*◌, ◌/◌, ◌%◌, ◌<◌, ◌≡◌, ◌≢◌, refl, sym, ◌∙◌, ap, true, inl, inr, [], ◌∷◌, ◌++◌,
  Bytes, All, All-append, arith, ◌==◌, if◌then◌else◌, between, Bool-cases,
}
use mongodb_backup_s.Keys.{is_unreserved, hex, encode_byte, encode_component}

-- The value of an upper-case hexadecimal digit.
hex_value : ℕ → ℕ
hex_value c = if between b'0' b'9' c then c - b'0' else c - b'A' + 10

-- Percent-decoding: an escape takes three bytes.
pub decode_component : Bytes → Bytes
unfolding hex_value
decode_component [] = []
decode_component (c ∷ []) = c ∷ []
decode_component (c ∷ d ∷ []) = c ∷ d ∷ []
decode_component (c ∷ d ∷ e ∷ s) =
    let escaped = (hex_value d * 16 + hex_value e) ∷ decode_component s in
    let plain = c ∷ decode_component (d ∷ e ∷ s) in if c == b'%' then escaped else plain

hex_value-hex : (n : ℕ) → n < 16 → hex_value (hex n) ≡ n
unfolding hex_value hex
hex_value-hex n h = ground arith

hex-ne-slash : (n : ℕ) → n < 16 → hex n ≢ b'/'
unfolding hex
hex-ne-slash n h = ground arith

unreserved_ne : (b : ℕ) → is_unreserved b ≡ true → (b ≢ b'%') × (b ≢ b'/')
unfolding is_unreserved
unreserved_ne b h = ground arith

decode_plain : (b : ℕ) (s : Bytes) → b ≢ b'%' → decode_component (b ∷ s) ≡ b ∷ decode_component s
unfolding decode_component
decode_plain b [] h = refl
decode_plain b (d ∷ []) h = refl
decode_plain b (d ∷ e ∷ s) h = ground arith

decode_escape :
    (h l : ℕ) (s : Bytes)
    → decode_component (b'%' ∷ h ∷ l ∷ s) ≡ (hex_value h * 16 + hex_value l) ∷ decode_component s
unfolding decode_component
decode_escape h l s = refl

decode-encode_byte :
    (b : ℕ) (s : Bytes) → b < 256 → decode_component (encode_byte b ++ s) ≡ b ∷ decode_component s
unfolding encode_byte
decode-encode_byte b s h = elim (Bool-cases (is_unreserved b)) [
  | inl e ↦ rw e (decode_plain b s (unreserved_ne b e).0)
  | inr e ↦
      rw
        (
          e,
          decode_escape,
          hex_value-hex (b / 16) (omega arith),
          hex_value-hex (b % 16) (omega arith),
        )
        (ground arith)
]

abbrev pub IsByte : ℕ → Type 0
IsByte b = b < 256

-- Percent-decoding gives back every encoded text of bytes.
pub decode-encode_component : (s : Bytes) → All IsByte s → decode_component (encode_component s) ≡ s
unfolding encode_component
decode-encode_component [] h = unfold decode_component in refl
decode-encode_component (b ∷ s) (hb, hs) =
    decode-encode_byte b (encode_component s) hb ∙ ap (λ t. b ∷ t) (decode-encode_component s hs)

-- So two names with the same encoding are the same name.
pub encode_component_injective :
    (s t : Bytes) → All IsByte s → All IsByte t → encode_component s ≡ encode_component t → s ≡ t
encode_component_injective s t hs ht e =
    sym (decode-encode_component s hs) ∙ ap decode_component e ∙ decode-encode_component t ht

encode_byte-NoSlash : (b : ℕ) → IsByte b → All (λ c. c ≢ b'/') (encode_byte b)
unfolding encode_byte
encode_byte-NoSlash b h = elim (Bool-cases (is_unreserved b)) [
  | inl e ↦ rw e ((unreserved_ne b e).1, tt)
  | inr e ↦ rw e (
    omega arith,
    (hex-ne-slash (b / 16) (omega arith), (hex-ne-slash (b % 16) (omega arith), tt)),
  )
]

-- The encoding of a text of bytes has no slash, so a name stays one component of a key.
pub encode_component-NoSlash : (s : Bytes) → All IsByte s → All (λ c. c ≢ b'/') (encode_component s)
unfolding encode_component
encode_component-NoSlash [] h = tt
encode_component-NoSlash (b ∷ s) (hb, hs) =
    All-append _ (encode_byte b) (encode_component s) (encode_byte-NoSlash b hb)
      (encode_component-NoSlash s hs)
