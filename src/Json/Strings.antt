-- ===== src/Json/Strings.antt =====
-- Strings between C and JSON: `json_dyn_put_escaped` of src/dstudio.c, and `dtg_json_token_string`
-- and `dtg_hex_value` of extension/remote/dstudio_json_tokens.h.
pub mod RoundTrip
use dstudio.Base.{
  ℕ, zero, suc, ◌+◌, ◌-◌, ◌*◌, ◌/◌, ◌%◌, Bool, true, false, ◌&&◌, ◌||◌, List, [], ◌∷◌, ◌++◌, Option,
  none, some, Str, is_digit, hex_digit, if◌then◌else◌, ◌==◌, ltb, leb, length,
}

unfoldable pub escaped_byte : ℕ → Str
escaped_byte c =
    if c == b'"'
    then b'\\' ∷ b'"' ∷ []
    else if c == b'\\'
    then b'\\' ∷ b'\\' ∷ []
    else if c == 0x0a
    then b'\\' ∷ b'n' ∷ []
    else if c == 0x0d
    then b'\\' ∷ b'r' ∷ []
    else if c == 0x09
    then b'\\' ∷ b't' ∷ []
    else if ltb c 0x20
    then b'\\' ∷ b'u' ∷ b'0' ∷ b'0' ∷ hex_digit (c / 16) ∷ hex_digit (c % 16) ∷ []
    else c ∷ []

unfoldable pub escaped_bytes : Str → Str
escaped_bytes [] = []
escaped_bytes (c ∷ s) = escaped_byte c ++ escaped_bytes s

unfoldable pub put_escaped : Str → Str
put_escaped s = b'"' ∷ (escaped_bytes s ++ b'"' ∷ [])

unfoldable pub hex_value : ℕ → Option ℕ
hex_value c =
    if is_digit c
    then some (c - b'0')
    else if leb b'a' c && leb c b'f'
    then some (c - b'a' + 10)
    else if leb b'A' c && leb c b'F'
    then some (c - b'A' + 10)
    else none

-- The code point so far and one digit more.
abbrev pub add_hex : Option ℕ → ℕ → Option ℕ
add_hex none c = none
add_hex (some cp) c = elim (hex_value c) [ none ↦ none | some h ↦ some (cp * 16 + h) ]

-- What an escape by one letter stands for.
unfoldable pub unescaped : ℕ → ℕ
unescaped c =
    if c == b'n'
    then 0x0a
    else if c == b'r'
    then 0x0d
    else if c == b't'
    then 0x09
    else if c == b'b'
    then 0x08
    else if c == b'f'
    then 0x0c
    else c

-- `outsz` is the size of the output, `o` what is filled of it, and `more` goes on behind.
module _ (outsz : ℕ) where
  abbrev pub put_front : ℕ → Option Str → Option Str
  put_front c none = none
  put_front c (some s) = some (c ∷ s)

  unfoldable pub put_byte : (ℕ → Str → Option Str) → ℕ → ℕ → Str → Option Str
  put_byte more o c rest = if leb outsz (o + 1) then none else put_front c (more (o + 1) rest)

  -- UTF-8; the bits of each sum are disjoint.
  unfoldable pub put_code_point : (ℕ → Str → Option Str) → ℕ → ℕ → Str → Option Str
  put_code_point more o cp rest =
      if cp == 0
      then none
      else if ltb cp 0x80
      then put_byte more o cp rest
      else if ltb cp 0x800
      then (if leb outsz (o + 2)
          then none
          else put_front (0xc0 + cp / 64) (put_byte more (o + 1) (0x80 + cp % 64) rest))
      else if leb outsz (o + 3)
      then none
      else put_front (0xe0 + cp / 4096)
          (put_front (0x80 + cp / 64 % 64) (put_byte more (o + 2) (0x80 + cp % 64) rest))

  abbrev pub put_unicode : (ℕ → Str → Option Str) → ℕ → Option ℕ → Str → Option Str
  put_unicode more o none rest = none
  put_unicode more o (some cp) rest = put_code_point more o cp rest

  unfoldable pub decode_unicode : (ℕ → Str → Option Str) → ℕ → Str → Option Str
  decode_unicode more o (a ∷ b ∷ c ∷ d ∷ rest) =
      put_unicode more o (add_hex (add_hex (add_hex (add_hex (some 0) a) b) c) d) rest
  decode_unicode more o _ = none

  unfoldable pub decode_escape : (ℕ → Str → Option Str) → ℕ → Str → Option Str
  decode_escape more o [] = none
  decode_escape more o (c ∷ rest) =
      if c == b'u' then decode_unicode more o rest else put_byte more o (unescaped c) rest

  -- The loop over the bytes of the token; each round takes at least one.
  unfoldable pub decode : ℕ → ℕ → Str → Option Str
  decode zero o raw = none
  decode (suc fuel) o [] = some []
  decode (suc fuel) o (c ∷ rest) =
      if c == b'\\' then decode_escape (decode fuel) o rest else put_byte (decode fuel) o c rest

-- The text of a string token whose bytes are `raw`, for an output of `outsz` bytes; `none` is 0.
unfoldable pub token_string : ℕ → Str → Option Str
token_string outsz raw = if outsz == 0 then none else decode outsz (suc (length raw)) 0 raw
