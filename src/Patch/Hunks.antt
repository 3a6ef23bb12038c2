-- ===== src/Patch/Hunks.antt =====
-- Reading a patch: the header and the hunks of src/dstudio_unified_patch.c. `none` stands for `goto fail`.
use dstudio.Base.{
  ℕ, zero, suc, ◌+◌, ◌-◌, ◌*◌, Bool, true, ◌&&◌, [], ◌∷◌, ◌++◌, Option, none, some, Str, codes,
  is_digit, if◌then◌else◌, ◌==◌, leb, length,
}

infixl 5 ◌>>=◌
abbrev pub ◌>>=◌ {ℓ κ} : {A : Type ℓ} {B : Type κ} → Option A → (A → Option B) → Option B
none >>= f = none
some a >>= f = f a

abbrev pub text_limit : ℕ
text_limit = 16777216

unfoldable pub unified_put : Str → Str → Option Str
unified_put b text =
    if leb (length text) text_limit && leb (length b) (text_limit - length text)
    then some (b ++ text)
    else none

-- `strncmp(p, prefix, …)`, and what stands behind the prefix.
unfoldable pub behind_prefix : Str → Str → Option Str
behind_prefix [] p = some p
behind_prefix (x ∷ prefix) [] = none
behind_prefix (x ∷ prefix) (y ∷ p) = if x == y then behind_prefix prefix p else none

-- `strtoul`, whose overflow is past the limit too.
unfoldable pub digits_value : ℕ → Str → ℕ × Str
digits_value n [] = (n, [])
digits_value n (c ∷ p) =
    let rest = digits_value (n * 10 + (c - b'0')) p in if is_digit c then rest else (n, c ∷ p)

unfoldable pub unified_number : Str → Option (ℕ × Str)
unified_number [] = none
unified_number (c ∷ p) =
    let (n, rest) = digits_value 0 (c ∷ p) in
    if is_digit c && leb n text_limit then some (n, rest) else none

unfoldable pub range_count : Str → Option (ℕ × Str)
range_count [] = some (1, [])
range_count (c ∷ p) = if c == b',' then unified_number p else some (1, c ∷ p)

unfoldable pub unified_range : Str → Option (ℕ × ℕ × Str)
unified_range p = do
  (start, q) ← unified_number p
  (count, r) ← range_count q
  if leb start (text_limit - count) then some (start, count, r) else none

-- A line with its newline, and what follows it; `none` where `strchr` finds none.
unfoldable pub take_line : Str → Option (Str × Str)
take_line [] = none
take_line (c ∷ p) =
    let rest = take_line p >>= λ (line, q). some (c ∷ line, q) in
    if c == b'\n' then some (c ∷ [], p) else rest

pub record Range : Type 0 where
  pub old_start : ℕ
  pub old_count : ℕ
  pub new_start : ℕ
  pub new_count : ℕ

-- The line that heads a hunk. What is read of it holds no newline, so its end is the first newline
-- behind the second `@@`, and that mark does not pass it.
unfoldable pub hunk_range : Str → Option (Range × Str)
hunk_range p = do
  q₁ ← behind_prefix (codes "@@ -") p
  (old_start, old_count, q₂) ← unified_range q₁
  q₃ ← behind_prefix (codes " +") q₂
  (new_start, new_count, q₄) ← unified_range q₃
  q₅ ← behind_prefix (codes " @@") q₄
  (heading, rest) ← take_line q₅
  some (
    record {
      old_start = old_start;
      old_count = old_count;
      new_start = new_start;
      new_count = new_count;
    },
    rest,
  )

pub data Kind : Type 0 where
  kept cut added : Kind

unfoldable pub line_kind : ℕ → Option Kind
line_kind c =
    if c == b' '
    then some kept
    else if c == b'-'
    then some cut
    else if c == b'+'
    then some added
    else none

pub record Body : Type 0 where
  pub before : Str
  pub after : Str
  pub changed : Bool

-- `++removed > old_count` and `++added > new_count`, by how many lines are left.
unfoldable pub put_before : ℕ → Body → Str → Option (ℕ × Body)
put_before left b line =
    if left == 0
    then none
    else unified_put b.before line >>= (λ text. some (left - 1, record b { before = text }))

unfoldable pub put_after : ℕ → Body → Str → Option (ℕ × Body)
put_after left b line =
    if left == 0
    then none
    else unified_put b.after line >>= (λ text. some (left - 1, record b { after = text }))

unfoldable pub put_line : Kind → ℕ → ℕ → Body → Str → Option (ℕ × ℕ × Body)
put_line kept old new b line = do
  (old', b₁) ← put_before old b line
  (new', b₂) ← put_after new b₁ line
  some (old', new', b₂)
put_line cut old new b line = do
  (old', b₁) ← put_before old b line
  some (old', new, record b₁ { changed = true })
put_line added old new b line = do
  (new', b₁) ← put_after new b line
  some (old, new', record b₁ { changed = true })

-- A line of a hunk: its kind, its text with the newline, and what follows.
unfoldable pub hunk_line : Str → Option (Kind × Str × Str)
hunk_line [] = none
hunk_line (c ∷ p) = do kind ← line_kind c; (line, rest) ← take_line p; some (kind, line, rest)

-- The lines left of the old and of the new text; each round takes one of them at least.
unfoldable pub hunk_lines : ℕ → ℕ → ℕ → Body → Str → Option (Body × Str)
hunk_lines zero old new b p = if old == 0 && new == 0 then some (b, p) else none
hunk_lines (suc fuel) old new b p =
    let round = hunk_line p >>= λ (kind, line, rest).
    put_line kind old new b line >>= λ (old', new', b'). hunk_lines fuel old' new' b' rest in
    if old == 0 && new == 0 then some (b, p) else round
