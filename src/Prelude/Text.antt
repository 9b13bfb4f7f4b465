-- ===== src/Prelude/Text.antt =====
-- Texts: numbers in decimal and hexadecimal digits, `BigInt` of a text of digits, and
-- `toLowerCase` on ASCII.
pub mod Bytes
pub mod Decimal
use Prim.Native.Nat.{ℕ, zero, suc, ◌+◌, ◌-◌, ◌*◌, ◌/◌, ◌%◌, ◌≤◌, ◌<◌}
use Prim.Native.Char.{Char, code, nul}
use Prim.Native.String.{String, [], ◌∷◌, ◌++◌, count}
use mathlib.Core.Bool.{Bool, true, false, ◌&&◌, ◌||◌}
use mathlib.Core.Option.{Option, none, some}
use thesis_project_land_chai.Prelude.Equality.{ltb, leb, if◌then◌else◌}

-- The character at a position of a text, NUL past its end.
unfoldable pub char_of : ℕ → String → Char
char_of i [] = nul
char_of zero (c ∷ s) = c
char_of (suc i) (c ∷ s) = char_of i s

-- The digits of `n` in front of `acc`; fuel `n` is enough, as `n / base < n`.
unfoldable pub digits_loop : ℕ → ℕ → ℕ → String → String
digits_loop base zero n acc = acc
digits_loop base (suc fuel) n acc = elim (leb n 0) [
  | true ↦ acc
  | false ↦ digits_loop base fuel (n / base) (char_of (n % base) "0123456789abcdef" ∷ acc)
]

-- `n.toString()` of a BigInt or of an integer.
unfoldable pub to_decimal : ℕ → String
unfolding digits_loop char_of
to_decimal n = if leb n 0 then "0" else digits_loop 10 n n ""

-- `n.toString(16)`
unfoldable pub to_hex : ℕ → String
unfolding digits_loop char_of
to_hex n = if leb n 0 then "0" else digits_loop 16 n n ""

unfoldable pub pad_loop : ℕ → String → String
pad_loop zero s = s
pad_loop (suc k) s = "0" ++ pad_loop k s

-- `s.padStart(width, "0")`
unfoldable pub pad_start : ℕ → String → String
unfolding pad_loop
pad_start width s = pad_loop (width - count s) s

-- `/^\d$/` of one character.
abbrev pub is_digit : Char → Bool
is_digit c = leb b'0' (code c) && leb (code c) b'9'

pub all_digits : String → Bool
all_digits [] = true
all_digits (c ∷ s) = is_digit c && all_digits s

-- `/^\d+$/.test(value)`
unfoldable pub is_digits : String → Bool
unfolding all_digits
is_digits [] = false
is_digits (c ∷ s) = is_digit c && all_digits s

pub scan : ℕ → String → ℕ
scan acc [] = acc
scan acc (c ∷ s) = scan (acc * 10 + (code c - b'0')) s

-- `BigInt(value)` of a text of decimal digits. (JavaScript throws on any other text.)
unfoldable pub big_int : String → ℕ
unfolding scan
big_int s = scan 0 s

lower_char : Char → String → String → Char
lower_char c [] ls = c
lower_char c (u ∷ us) [] = c
lower_char c (u ∷ us) (l ∷ ls) =
    if leb (code c) (code u) && leb (code u) (code c) then l else lower_char c us ls

-- `toLowerCase` on ASCII letters; other characters stay.
unfoldable pub to_lower_case : String → String
unfolding lower_char
to_lower_case [] = []
to_lower_case (c ∷ s) =
    lower_char c "ABCDEFGHIJKLMNOPQRSTUVWXYZ" "abcdefghijklmnopqrstuvwxyz" ∷ to_lower_case s

-- White space of `trim`, on ASCII.
abbrev pub is_space : Char → Bool
is_space c = leb 9 (code c) && leb (code c) 13 || leb 32 (code c) && leb (code c) 32

trim_start : String → String
trim_start [] = []
trim_start (c ∷ s) = let rest = trim_start s in if is_space c then rest else c ∷ s

blank : String → Bool
blank [] = true
blank (c ∷ s) = is_space c && blank s

trim_end : String → String
unfolding blank
trim_end [] = []
trim_end (c ∷ s) = let rest = trim_end s in if is_space c && blank s then [] else c ∷ rest

-- `s.trim()`
unfoldable pub trim : String → String
unfolding trim_start trim_end
trim s = trim_end (trim_start s)
