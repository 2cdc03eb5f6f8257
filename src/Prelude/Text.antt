-- ===== src/Prelude/Text.antt =====
-- Python's `str` as a native text: its length in characters, `strip`, and the patterns that the
-- control plane checks its arguments against.
use Prim.Native.Nat.{ℕ, suc, ◌+◌, ◌-◌, ◌*◌}
use Prim.Native.Char.{code}
use Prim.Native.String.{String}
use mathlib.Core.Option.{Option, none, some}
use mathlib.Core.List.{List, [], ◌∷◌}
use mathlib.Core.Bool.{Bool, true, false, not, ◌&&◌, ◌||◌}
use hysteria2_panel.Prelude.Raise.{maybe}
use hysteria2_panel.Prelude.Tests.{ltb, leb, ◌==◌, if◌then◌else◌}

-- `len(text)`
unfoldable pub len : String → ℕ
len String.[] = 0
len (String.◌∷◌ c s) = suc (len s)

-- `all(test(ord(c)) for c in text)`
unfoldable pub every : (ℕ → Bool) → String → Bool
every test String.[] = true
every test (String.◌∷◌ c s) = test (code c) && every test s

unfoldable pub first_char : String → Option ℕ
first_char String.[] = none
first_char (String.◌∷◌ c s) = some (code c)

unfoldable pub last_char : String → Option ℕ
last_char String.[] = none
last_char (String.◌∷◌ c s) = let rest = last_char s in maybe rest (some (code c)) (λ d. some d)

-- `str.isspace` on one character
unfoldable pub is_space : ℕ → Bool
is_space c =
    leb 9 c && leb c 13
    || leb 28 c && leb c 32
    || c == 0x85
    || c == 0xa0
    || c == 0x1680
    || leb 0x2000 c && leb c 0x200a
    || c == 0x2028
    || c == 0x2029
    || c == 0x202f
    || c == 0x205f
    || c == 0x3000

is_empty : String → Bool
is_empty String.[] = true
is_empty (String.◌∷◌ c s) = false

strip_left : String → String
strip_left String.[] = String.[]
strip_left (String.◌∷◌ c s) =
    let rest = strip_left s in if is_space (code c) then rest else String.◌∷◌ c s

strip_right : String → String
strip_right String.[] = String.[]
strip_right (String.◌∷◌ c s) =
    let rest = strip_right s in
    if is_space (code c) && is_empty rest then String.[] else String.◌∷◌ c rest

-- `text.strip()`
unfoldable pub strip : String → String
unfolding strip_left strip_right is_space is_empty
strip s = strip_right (strip_left s)

-- `[0-9a-f]`
unfoldable pub is_hex : ℕ → Bool
is_hex c = leb b'0' c && leb c b'9' || leb b'a' c && leb c b'f'

-- `re.fullmatch(r"[0-9a-f]{n}", text)`
unfoldable pub hex_text : ℕ → String → Bool
unfolding len every is_hex
hex_text n s = len s == n && every is_hex s

-- `NAME_PATTERN.fullmatch(text)`: 1 to 64 characters, none of them a control character
unfoldable pub name_text : String → Bool
unfolding len every
name_text s = leb 1 (len s) && leb (len s) 64 && every (λ c. leb 32 c && not (c == 127)) s

-- `text.split(".")`
unfoldable pub split_dots : String → List String
split_dots String.[] = String.[] ∷ []
split_dots (String.◌∷◌ c s) =
    let rest = split_dots s in
    if code c == b'.'
    then String.[] ∷ rest
    else elim rest [ [] ↦ [] | part ∷ parts ↦ String.◌∷◌ c part ∷ parts ]

digits_from : ℕ → String → Option ℕ
digits_from n String.[] = some n
digits_from n (String.◌∷◌ c s) =
    let rest = digits_from (n * 10 + (code c - 48)) s in
    if leb b'0' (code c) && leb (code c) b'9' then rest else none

-- `int(text)`, for a text of decimal digits
unfoldable pub decimal : String → Option ℕ
unfolding digits_from
decimal String.[] = none
decimal (String.◌∷◌ c s) = digits_from 0 (String.◌∷◌ c s)

-- The three numbers of a text that matches `[0-9]+\.[0-9]+\.[0-9]+`
version_parts : List String → Option (ℕ × ℕ × ℕ)
version_parts (a ∷ b ∷ c ∷ []) = elim (decimal a) [
  | none ↦ none
  | some x ↦ elim (decimal b) [
    | none ↦ none
    | some y ↦ elim (decimal c) [ none ↦ none | some z ↦ some (x, y, z) ]
  ]
]
version_parts _ = none

unfoldable pub version : String → Option (ℕ × ℕ × ℕ)
unfolding version_parts decimal split_dots
version s = version_parts (split_dots s)

-- `tuple >= tuple`
unfoldable pub version_ge : ℕ × ℕ × ℕ → ℕ × ℕ × ℕ → Bool
version_ge (a, b, c) (x, y, z) = ltb x a || a == x && (ltb y b || b == y && leb z c)

-- `a + b` on texts
unfoldable pub append : String → String → String
append String.[] t = t
append (String.◌∷◌ c s) t = String.◌∷◌ c (append s t)
