-- ===== src/CString.antt =====
-- C strings, and the string functions of the C library that the program calls.
-- A `char *` is the list of its bytes before the terminating zero; `NULL` is `none`.
-- A function that writes zeros into its argument returns the pieces that are left.
pub mod Split
use Prim.Native.Char.{code}
use Prim.Native.String.{String}
use iyell.Base.{
  ℕ, zero, suc, ◌-◌, ◌*◌, ◌+◌, Bool, true, false, ◌&&◌, ◌||◌, List, [], ◌∷◌, Option, none, some,
  ◌==◌, leb, if◌then◌else◌,
}

abbrev pub Bytes : Type 0
Bytes = List ℕ

-- The bytes of a literal, which is ASCII throughout.
abbrev pub codes : String → Bytes
codes String.[] = []
codes (String.◌∷◌ c s) = code c ∷ codes s

-- `strcmp(a, b) == 0`
unfoldable pub str_eq : Bytes → Bytes → Bool
str_eq [] [] = true
str_eq (x ∷ xs) (y ∷ ys) = x == y && str_eq xs ys
str_eq _ _ = false

-- `strncmp(s, p, strlen(p)) == 0`: `p` is a prefix of `s`.
unfoldable pub has_prefix : Bytes → Bytes → Bool
has_prefix [] s = true
has_prefix (x ∷ p) [] = false
has_prefix (x ∷ p) (y ∷ s) = x == y && has_prefix p s

-- The byte stands in the string: `strchr`, `memchr`.
unfoldable pub contains : ℕ → Bytes → Bool
contains c [] = false
contains c (x ∷ s) = c == x || contains c s

-- The bytes before the first delimiter, and what follows it if there is one.
unfoldable pub split : Bytes → Bytes → Bytes × Option Bytes
split delim [] = ([], none)
split delim (c ∷ s) =
    let r = split delim s in if contains c delim then ([], some s) else (c ∷ r.0, r.1)

-- `strsep(&p, delim)`: the token, and the new value of `p`.
unfoldable pub strsep : Bytes → Option Bytes → Option Bytes × Option Bytes
strsep delim none = (none, none)
strsep delim (some s) = let r = split delim s in (some r.0, r.1)

-- The bytes from the first one that is no delimiter.
unfoldable pub skip : Bytes → Bytes → Bytes
skip delim [] = []
skip delim (c ∷ s) = let r = skip delim s in if contains c delim then r else c ∷ s

unfoldable pub or_empty : Option Bytes → Bytes
or_empty none = []
or_empty (some s) = s

-- `strtok(s, delim)`: the next token and what a later call goes on with.
unfoldable pub strtok : Bytes → Bytes → Option (Bytes × Bytes)
strtok delim s = elim (skip delim s) [
  | [] ↦ none
  | c ∷ t ↦ let r = split delim (c ∷ t) in some (r.0, or_empty r.1)
]

unfoldable pub is_digit : ℕ → Bool
is_digit c = leb b'0' c && leb c b'9'
