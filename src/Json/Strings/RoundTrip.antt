-- ===== src/Json/Strings/RoundTrip.antt =====
-- What `json_dyn_put_escaped` of src/dstudio.c writes is one string of JSON, and
-- `dtg_json_token_string` of extension/remote/dstudio_json_tokens.h reads it back.
use dstudio.Base.{
  ℕ, zero, suc, ◌+◌, ◌*◌, ◌/◌, ◌%◌, ◌<◌, ◌≡◌, refl, sym, ap, ◌∙◌, true, false, [], ◌∷◌, ◌++◌,
  append_assoc, Option, some, Str, hex_digit, ◌==◌, ltb, leb, length, length-append, All, arith, ok,
  if-intro,
}
use dstudio.Json.{plain, syntax_string, is_xdigit}
use dstudio.Json.Strings.{
  add_hex, decode, decode_escape, decode_unicode, escaped_byte, escaped_bytes, hex_value, put_byte,
  put_code_point, put_escaped, put_front, put_unicode, token_string, unescaped,
}

same : (c d : ℕ) → (c == d) ≡ true → c ≡ d
same c d h = ground arith

hex_value-hex_digit : (d : ℕ) → d < 16 → hex_value (hex_digit d) ≡ some d
unfolding hex_value
hex_value-hex_digit d h = ground arith

escaped_byte-pos : (c : ℕ) → 0 < length (escaped_byte c)
unfolding escaped_byte
escaped_byte-pos c = ground arith

add_digit : (high d c : ℕ) → d < 16 → high * 16 + d ≡ c → add_hex (some high) (hex_digit d) ≡ some c
add_digit high d c h e = rw (hex_value-hex_digit d h, add_hex) (ap some e)

module _ (outsz : ℕ) where
  put_byte-fits :
      (more : ℕ → Str → Option Str) (o c : ℕ) (rest : Str)
      → o + 1 < outsz
      → put_byte outsz more o c rest ≡ put_front outsz c (more (o + 1) rest)
  unfolding put_byte
  put_byte-fits more o c rest room =
      let fits : leb outsz (o + 1) ≡ false = ground arith in rw fits refl

  put_code_point-fits :
      (more : ℕ → Str → Option Str) (o c : ℕ) (rest : Str)
      → 0 < c
      → c < 0x80
      → o + 1 < outsz
      → put_code_point outsz more o c rest ≡ put_front outsz c (more (o + 1) rest)
  unfolding put_code_point
  put_code_point-fits more o c rest pos small room =
      let nonzero : (c == 0) ≡ false = ground arith in
      let ascii : ltb c 0x80 ≡ true = ground arith in
      rw (nonzero, ascii) (put_byte-fits more o c rest room)

  decode_unicode-fits :
      (more : ℕ → Str → Option Str) (o c : ℕ) (rest : Str)
      → 0 < c
      → c < 0x20
      → o + 1 < outsz
      → decode_unicode outsz more o (b'0' ∷ b'0' ∷ hex_digit (c / 16) ∷ hex_digit (c % 16) ∷ rest)
        ≡ put_front outsz c (more (o + 1) rest)
  unfolding decode_unicode hex_value
  decode_unicode-fits more o c rest pos low room =
      let high : add_hex (some 0) (hex_digit (c / 16)) ≡ some (c / 16) =
        add_digit 0 (c / 16) (c / 16) (omega arith) (omega arith) in
      let both : add_hex (some (c / 16)) (hex_digit (c % 16)) ≡ some c =
        add_digit (c / 16) (c % 16) c (omega arith) (omega arith) in
      ap (λ cp. put_unicode outsz more o (add_hex cp (hex_digit (c % 16))) rest) high
      ∙ ap (λ cp. put_unicode outsz more o cp rest) both
      ∙ put_code_point-fits more o c rest pos (omega arith) room

  module _ (fuel o c : ℕ) (rest : Str) (pos : 0 < c) (room : o + 1 < outsz) where
    -- `text` stands for the byte `c`.
    abbrev IsRead : Str → Type 0
    IsRead text =
        decode outsz (suc fuel) o (text ++ rest)
        ≡ put_front outsz c (decode outsz fuel (o + 1) rest)

    letter-IsRead : (l : ℕ) → (l == b'u') ≡ false → unescaped l ≡ c → IsRead (b'\\' ∷ l ∷ [])
    unfolding decode decode_escape
    letter-IsRead l other e = rw (other, e) (put_byte-fits (decode outsz fuel) o c rest room)

    unicode-IsRead :
        c < 0x20
        → IsRead (b'\\' ∷ b'u' ∷ b'0' ∷ b'0' ∷ hex_digit (c / 16) ∷ hex_digit (c % 16) ∷ [])
    unfolding decode decode_escape
    unicode-IsRead low = decode_unicode-fits (decode outsz fuel) o c rest pos low room

    char-IsRead : (c == b'\\') ≡ false → IsRead (c ∷ [])
    unfolding decode
    char-IsRead other = rw other (put_byte-fits (decode outsz fuel) o c rest room)

    -- One round reads back one byte.
    escaped_byte-IsRead : IsRead (escaped_byte c)
    unfolding escaped_byte unescaped
    escaped_byte-IsRead =
        if-intro IsRead (c == b'"') (b'\\' ∷ b'"' ∷ []) _
          (λ e. letter-IsRead b'"' refl (sym (same c b'"' e)))
          (λ _.
            if-intro IsRead (c == b'\\') (b'\\' ∷ b'\\' ∷ []) _
              (λ e. letter-IsRead b'\\' refl (sym (same c b'\\' e)))
              (λ slash.
                if-intro IsRead (c == 0x0a) (b'\\' ∷ b'n' ∷ []) _
                  (λ e. letter-IsRead b'n' refl (sym (same c 0x0a e)))
                  (λ _.
                    if-intro IsRead (c == 0x0d) (b'\\' ∷ b'r' ∷ []) _
                      (λ e. letter-IsRead b'r' refl (sym (same c 0x0d e)))
                      (λ _.
                        if-intro IsRead (c == 0x09) (b'\\' ∷ b't' ∷ []) _
                          (λ e. letter-IsRead b't' refl (sym (same c 0x09 e)))
                          (λ _.
                            if-intro IsRead (ltb c 0x20) _ (c ∷ [])
                              (λ low. unicode-IsRead (ground arith)) (λ _. char-IsRead slash))))))

  decode-escaped_bytes :
      (s : Str) (fuel o : ℕ)
      → All (λ c. 0 < c) s
      → length (escaped_bytes s) < fuel
      → o + length s < outsz
      → decode outsz fuel o (escaped_bytes s) ≡ some s
  unfolding decode escaped_bytes
  decode-escaped_bytes [] zero o pos enough room = absurd (omega arith)
  decode-escaped_bytes [] (suc fuel) o pos enough room = refl
  decode-escaped_bytes (c ∷ s) zero o pos enough room = absurd (omega arith)
  decode-escaped_bytes (c ∷ s) (suc fuel) o pos enough room =
      let parts = length-append (escaped_byte c) (escaped_bytes s) in
      let some_byte = escaped_byte-pos c in
      escaped_byte-IsRead fuel o c (escaped_bytes s) pos.0 (omega arith)
      ∙ ap (put_front outsz c)
          (decode-escaped_bytes s fuel (o + 1) pos.1 (omega arith) (omega arith))

-- The text of a byte inside of a string.
hex_digit-is_xdigit : (d : ℕ) → d < 16 → is_xdigit (hex_digit d) ≡ true
hex_digit-is_xdigit d h = ground arith

module _ (c : ℕ) (t : Str) where
  abbrev IsPassed : Str → Type 0
  IsPassed text = syntax_string plain (text ++ t) ≡ syntax_string plain t

  unicode-IsPassed :
      c < 0x20
      → IsPassed (b'\\' ∷ b'u' ∷ b'0' ∷ b'0' ∷ hex_digit (c / 16) ∷ hex_digit (c % 16) ∷ [])
  unfolding syntax_string
  unicode-IsPassed low =
      let high = hex_digit-is_xdigit (c / 16) (omega arith) in
      let rest = hex_digit-is_xdigit (c % 16) (omega arith) in rw (high, rest) refl

  char-IsPassed :
      (c == b'"') ≡ false → (c == b'\\') ≡ false → ltb c 0x20 ≡ false → IsPassed (c ∷ [])
  unfolding syntax_string
  char-IsPassed n1 n2 n3 = rw (n1, n2, n3) refl

  escaped_byte-IsPassed : IsPassed (escaped_byte c)
  unfolding escaped_byte syntax_string
  escaped_byte-IsPassed =
      if-intro IsPassed (c == b'"') (b'\\' ∷ b'"' ∷ []) _ (λ _. refl)
        (λ quote.
          if-intro IsPassed (c == b'\\') (b'\\' ∷ b'\\' ∷ []) _ (λ _. refl)
            (λ slash.
              if-intro IsPassed (c == 0x0a) (b'\\' ∷ b'n' ∷ []) _ (λ _. refl)
                (λ _.
                  if-intro IsPassed (c == 0x0d) (b'\\' ∷ b'r' ∷ []) _ (λ _. refl)
                    (λ _.
                      if-intro IsPassed (c == 0x09) (b'\\' ∷ b't' ∷ []) _ (λ _. refl)
                        (λ _.
                          if-intro IsPassed (ltb c 0x20) _ (c ∷ [])
                            (λ low. unicode-IsPassed (ground arith))
                            (λ low. char-IsPassed quote slash low))))))

syntax_string-escaped_bytes :
    (s rest : Str) → syntax_string plain (escaped_bytes s ++ b'"' ∷ rest) ≡ ok rest
unfolding escaped_bytes
syntax_string-escaped_bytes [] rest = unfold syntax_string in refl
syntax_string-escaped_bytes (c ∷ s) rest =
    ap (syntax_string plain) (append_assoc (escaped_byte c) (escaped_bytes s) (b'"' ∷ rest))
    ∙ escaped_byte-IsPassed c (escaped_bytes s ++ b'"' ∷ rest)
    ∙ syntax_string-escaped_bytes s rest

-- A C string that is written as JSON is a quote and `raw` with its closing quote: whatever follows,
-- the grammar check passes over exactly that string, and the token between the quotes is read back
-- as the string itself, into an output with room for it and its NUL.
pub put_escaped-round_trip :
    (s rest : Str) (outsz : ℕ)
    → All (λ c. 0 < c) s
    → length s < outsz
    → (raw : Str) × (put_escaped s ≡ b'"' ∷ (raw ++ b'"' ∷ []))
      × (syntax_string plain (raw ++ b'"' ∷ rest) ≡ ok rest)
      × (token_string outsz raw ≡ some s)
unfolding put_escaped token_string
put_escaped-round_trip s rest outsz pos room =
    let some_room : (outsz == 0) ≡ false = ground arith in
    (
      escaped_bytes s,
      refl,
      syntax_string-escaped_bytes s rest,
      rw some_room (
          decode-escaped_bytes outsz s (suc (length (escaped_bytes s))) 0 pos (omega arith)
            (omega arith)),
    )
