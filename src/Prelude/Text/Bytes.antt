-- ===== src/Prelude/Text/Bytes.antt =====
-- Texts as bytes.
use Prim.Native.Nat.{ℕ, ◌+◌, ◌/◌, ◌%◌}
use Prim.Native.Char.{code}
use Prim.Native.String as Text
use Prim.Native.String.{String}
use mathlib.Core.List.{List, [], ◌∷◌}
use thesis_project_land_chai.Prelude.Equality.{ltb, if◌then◌else◌}

-- The bytes of a code point in UTF-8.
abbrev pub utf8_char : ℕ → List ℕ → List ℕ
utf8_char n rest =
    if ltb n 128
    then n ∷ rest
    else if ltb n 2048
    then (192 + n / 64) ∷ (128 + n % 64) ∷ rest
    else if ltb n 65536
    then (224 + n / 4096) ∷ (128 + n / 64 % 64) ∷ (128 + n % 64) ∷ rest
    else (240 + n / 262144) ∷ (128 + n / 4096 % 64) ∷ (128 + n / 64 % 64) ∷ (128 + n % 64) ∷ rest

-- `Buffer.from(s)`, which is what a hash takes of a text.
unfoldable pub utf8 : String → List ℕ
utf8 Text.[] = []
utf8 (Text.◌∷◌ c s) = utf8_char (code c) (utf8 s)
