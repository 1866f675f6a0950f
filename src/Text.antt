-- ===== src/Text.antt =====
-- Texts as lists of code points, with the operations of Rust's `str` that the source calls: `==`,
-- `trim`, `strip_prefix`, `split_once`, `contains` and `is_empty`.
pub mod Laws
pub mod Trim
pub mod Utf8
use Prim.Native.Char.{code}
use Prim.Native.String.{String}
use pv_matter.Common.{
  ℕ, Bool, true, false, ◌&&◌, ◌||◌, List, [], ◌∷◌, Option, none, some, ◌≢◌, All, leb, ◌==◌,
  if◌then◌else◌, map_opt,
}

abbrev pub Text : Type 0
Text = List ℕ

-- The code points of a literal.
abbrev pub codes : String → Text
codes String.[] = []
codes (String.◌∷◌ c s) = code c ∷ codes s

unfoldable pub text_eq : Text → Text → Bool
text_eq [] [] = true
text_eq (a ∷ s) (b ∷ t) = a == b && text_eq s t
text_eq _ _ = false

abbrev pub is_empty : Text → Bool
is_empty [] = true
is_empty (c ∷ s) = false

unfoldable pub contains : ℕ → Text → Bool
contains c [] = false
contains c (d ∷ s) = d == c || contains c s

-- `char::is_whitespace`: the code points of the Unicode property White_Space.
unfoldable pub is_whitespace : ℕ → Bool
is_whitespace c =
    leb 9 c && leb c 13
    || c == 0x20
    || c == 0x85
    || c == 0xA0
    || c == 0x1680
    || leb 0x2000 c && leb c 0x200A
    || c == 0x2028
    || c == 0x2029
    || c == 0x202F
    || c == 0x205F
    || c == 0x3000

trim_start : Text → Text
trim_start [] = []
trim_start (c ∷ s) = if is_whitespace c then trim_start s else c ∷ s

-- One more character in front of a text that is trimmed at its end.
put_front : ℕ → Text → Text
put_front c [] = if is_whitespace c then [] else c ∷ []
put_front c (d ∷ s) = c ∷ d ∷ s

trim_end : Text → Text
trim_end [] = []
trim_end (c ∷ s) = put_front c (trim_end s)

unfoldable pub trim : Text → Text
unfolding trim_start trim_end put_front
trim s = trim_end (trim_start s)

unfoldable pub strip_prefix : Text → Text → Option Text
strip_prefix s [] = some s
strip_prefix [] (p ∷ ps) = none
strip_prefix (c ∷ s) (p ∷ ps) = if c == p then strip_prefix s ps else none

abbrev prepend : ℕ → Text × Text → Text × Text
prepend c (before, after) = (c ∷ before, after)

unfoldable pub split_once : ℕ → Text → Option (Text × Text)
split_once sep [] = none
split_once sep (c ∷ s) =
    let rest = map_opt (prepend c) (split_once sep s) in if c == sep then some ([], s) else rest

abbrev pub Lacks : ℕ → Text → Type 0
Lacks c s = All (λ d. d ≢ c) s
