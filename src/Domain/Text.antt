-- ===== src/Domain/Text.antt =====
-- What the code takes from Go's `strings` package on the texts that it validates.
use Prim.Native.Char.{code}
use Prim.Native.Nat.{Ordering}
use Prim.Native.String.{String, len, count, slice}
use Prim.Native.String
use codexbot.Common.{ℕ, Bool, true, false, ◌&&◌, ◌||◌, leb, eqb, if◌then◌else◌}

-- unicode.IsSpace
abbrev pub is_space : ℕ → Bool
is_space c =
    leb 9 c && leb c 13
    || eqb c 32
    || eqb c 0x85
    || eqb c 0xA0
    || eqb c 0x1680
    || leb 0x2000 c && leb c 0x200A
    || leb 0x2028 c && leb c 0x2029
    || eqb c 0x202F
    || eqb c 0x205F
    || eqb c 0x3000

-- strings.TrimSpace(s) == ""
unfoldable pub is_blank : String → Bool
is_blank String.[] = true
is_blank (String.◌∷◌ c s) = is_space (code c) && is_blank s

-- len(s), in bytes
unfoldable pub byte_length : String → ℕ
byte_length s = len s

-- a + b, of texts
unfoldable pub concat : String → String → String
concat a b = String.◌++◌ a b

-- utf8.RuneCountInString(s)
unfoldable pub rune_count : String → ℕ
rune_count s = count s

unfoldable pub trim_left : String → String
trim_left String.[] = String.[]
trim_left (String.◌∷◌ c s) =
    let rest = trim_left s in if is_space (code c) then rest else String.◌∷◌ c s

unfoldable pub trim_right : String → String
trim_right String.[] = String.[]
trim_right (String.◌∷◌ c s) = elim (trim_right s) [
  | String.[] ↦ if is_space (code c) then String.[] else String.◌∷◌ c String.[]
  | String.◌∷◌ d r ↦ String.◌∷◌ c (String.◌∷◌ d r)
]

-- strings.TrimSpace(s)
unfoldable pub trim_space : String → String
unfolding trim_left trim_right
trim_space s = trim_right (trim_left s)

-- The characters of a text that lie whole within a number of bytes.
unfoldable pub take_bytes : ℕ → String → String
take_bytes n s = slice s 0 n

-- The order of two texts by their bytes, SQLite's and Go's.
unfoldable pub text_before : String → String → Bool
text_before a b = elim (String.compare a b) [ Ordering.lt ↦ true | _ ↦ false ]
