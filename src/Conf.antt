-- ===== src/Conf.antt =====
-- src/include/conf.h and the readers of src/iyelld/hash+.c.
-- The hash table (src/iyelld/hash.c) is a library that the program copies. What a client of a
-- section sees of it is the answer of `hash_get`: an array of strings for each key that is set.
use iyell.Base.{ℕ, Bool, false, ◌||◌, List, [], ◌∷◌, Option, none, some, length}
use iyell.CString.{Bytes, codes, str_eq}

-- `hash_get(mem, ·)`; an array ends at its null pointer.
abbrev pub Section : Type 0
Section = Bytes → Option (List Bytes)

-- `conf_t`
pub record Conf : Type 0 where
  pub global : Section
  pub cmd : Section
  pub hooks : Section
  pub forward : Section
  pub transmit : Section

-- `data[0]`
unfoldable pub first : Option (List Bytes) → Option Bytes
first none = none
first (some []) = none
first (some (s ∷ _)) = some s

unfoldable pub hash_text_get_first : Section → Bytes → Option Bytes
unfolding first
hash_text_get_first mem key = first (mem key)

unfoldable pub hash_text_count_data : Section → Bytes → ℕ
hash_text_count_data mem key = elim (mem key) [ none ↦ 0 | some data' ↦ length data' ]

unfoldable pub says_false : Option Bytes → Bool
says_false none = false
says_false (some s) =
    str_eq s (codes "no")
    || str_eq s (codes "false")
    || str_eq s (codes "0")
    || str_eq s (codes "non")

unfoldable pub says_true : Option Bytes → Bool
says_true none = false
says_true (some s) =
    str_eq s (codes "yes")
    || str_eq s (codes "true")
    || str_eq s (codes "1")
    || str_eq s (codes "oui")

unfoldable pub hash_text_is_false : Section → Bytes → Bool
unfolding says_false
hash_text_is_false mem key = says_false (hash_text_get_first mem key)

unfoldable pub hash_text_is_true : Section → Bytes → Bool
unfolding says_true
hash_text_is_true mem key = says_true (hash_text_get_first mem key)
