-- ===== src/Prelude/Json.antt =====
-- How long a text is in UTF-8 as `json.dumps(text, ensure_ascii=False)` writes it, the order of
-- texts, and SQLite's NOCASE comparison.
use Prim.Native.Nat.{ℕ, zero, suc, ◌+◌, ◌/◌}
use Prim.Native.Char.{code}
use Prim.Native.String.{String}
use mathlib.Core.Bool.{Bool, true, false, ◌&&◌, ◌||◌}
use mathlib.Core.List.{List, [], ◌∷◌}
use hysteria2_panel.Prelude.Tests.{ltb, leb, ◌==◌, if◌then◌else◌}

-- One character: an escape of two or of six characters, or its bytes in UTF-8
json_char : ℕ → ℕ
json_char c =
    if c == b'"' || c == 0x5c || leb 8 c && leb c 10 || c == 12 || c == 13
    then 2
    else if ltb c 32
    then 6
    else if ltb c 0x80
    then 1
    else if ltb c 0x800
    then 2
    else if ltb c 0x10000
    then 3
    else 4

json_chars : String → ℕ
json_chars String.[] = 0
json_chars (String.◌∷◌ c s) = json_char (code c) + json_chars s

-- With its two quotation marks
unfoldable pub json_text : String → ℕ
unfolding json_chars json_char
json_text s = json_chars s + 2

-- The digits of a number. There are no more than its value and one.
digits_of : ℕ → ℕ → ℕ
digits_of zero n = 1
digits_of (suc fuel) n = let rest = digits_of fuel (n / 10) in if ltb n 10 then 1 else suc rest

unfoldable pub json_number : ℕ → ℕ
unfolding digits_of
json_number n = digits_of n n

-- `separator.join`: the lengths, and one comma between two
unfoldable pub json_joined : List ℕ → ℕ
json_joined [] = 0
json_joined (n ∷ []) = n
json_joined (n ∷ m ∷ ns) = n + 1 + json_joined (m ∷ ns)

ascii_lower : ℕ → ℕ
ascii_lower c = if leb b'A' c && leb c b'Z' then c + 32 else c

-- `a = b COLLATE NOCASE`
unfoldable pub nocase_eq : String → String → Bool
unfolding ascii_lower
nocase_eq String.[] String.[] = true
nocase_eq (String.◌∷◌ c s) (String.◌∷◌ d t) =
    ascii_lower (code c) == ascii_lower (code d) && nocase_eq s t
nocase_eq _ _ = false

-- `a <= b` on ASCII texts
unfoldable pub str_le : String → String → Bool
str_le String.[] t = true
str_le (String.◌∷◌ c s) String.[] = false
str_le (String.◌∷◌ c s) (String.◌∷◌ d t) = ltb (code c) (code d) || code c == code d && str_le s t
