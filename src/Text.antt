-- ===== src/Text.antt =====
-- The standard library's functions on strings and characters that the crate calls. A `str` is the
-- list of its characters' code points.
pub mod Utf8
pub mod Decimal
pub mod Split
use Prim.Native.Char.{code}
use Prim.Native.String.{String}
use reqwless.Base.{
  ℕ, ◌+◌, Bool, ◌&&◌, ◌||◌, List, [], ◌∷◌, map, Bytes, bytes_eq, leb, ◌==◌, is_empty, if◌then◌else◌,
}

-- A string literal, or a byte string literal of ASCII characters.
abbrev pub text : String → Bytes
text String.[] = []
text (String.◌∷◌ c s) = code c ∷ text s

abbrev in_range : ℕ → ℕ → ℕ → Bool
in_range low high c = leb low c && leb c high

unfoldable pub to_ascii_lowercase : ℕ → ℕ
to_ascii_lowercase c = if in_range b'A' b'Z' c then c + 32 else c

unfoldable pub eq_ignore_ascii_case : List ℕ → List ℕ → Bool
eq_ignore_ascii_case xs ys = bytes_eq (map to_ascii_lowercase xs) (map to_ascii_lowercase ys)

-- The characters of the Unicode property `White_Space`.
unfoldable pub is_whitespace : ℕ → Bool
is_whitespace c =
    in_range 9 13 c
    || (c == 32
        || (c == 0x85
            || (c == 0xA0
                || (c == 0x1680
                    || (in_range 0x2000 0x200A c
                        || (c == 0x2028
                            || (c == 0x2029 || (c == 0x202F || (c == 0x205F || c == 0x3000)))))))))

unfoldable pub trim_start : List ℕ → List ℕ
trim_start [] = []
trim_start (c ∷ cs) = let rest = trim_start cs in if is_whitespace c then rest else c ∷ cs

unfoldable pub trim_end : List ℕ → List ℕ
trim_end [] = []
trim_end (c ∷ cs) =
    let rest = trim_end cs in if is_empty rest && is_whitespace c then [] else c ∷ rest

abbrev pub trim : List ℕ → List ℕ
trim s = trim_end (trim_start s)

-- `split` puts a character in front of the first part.
abbrev pub onto_first : ℕ → List (List ℕ) → List (List ℕ)
onto_first c [] = (c ∷ []) ∷ []
onto_first c (part ∷ parts) = (c ∷ part) ∷ parts

unfoldable pub split : ℕ → List ℕ → List (List ℕ)
split separator [] = [] ∷ []
split separator (c ∷ cs) =
    let parts = split separator cs in if c == separator then [] ∷ parts else onto_first c parts
