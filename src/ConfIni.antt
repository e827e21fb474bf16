-- ===== src/ConfIni.antt =====
-- src/iyelld/conf_ini.c: the configuration file is read into five tables and written from them.
pub mod Entry
pub mod File
pub mod Line
pub mod Saved
pub mod Section
use iyell.Base.{
  ℕ, zero, suc, ◌+◌, ◌-◌, Bool, true, false, not, ◌||◌, Run, ok, fault, out_of_bounds, ◌>>=◌, List,
  [], ◌∷◌, ◌++◌, Option, none, some, ◌==◌, if◌then◌else◌, length,
}
use iyell.CString.{Bytes, codes, str_eq, split, strtok}
use iyell.Command.{max_tokens}
use iyell.HashText.{HashTable, hash_text_insert}

abbrev pub data_delim : Bytes
data_delim = codes "=\t\r,\n"

-- `while (*token == ' ') token++;`
unfoldable pub skip_blanks : Bytes → Bytes
skip_blanks [] = []
skip_blanks (c ∷ s) = let r = skip_blanks s in if c == b' ' then r else c ∷ s

-- A space in front of nothing is dropped.
unfoldable pub cons_trim : ℕ → Bytes → Bytes
cons_trim c (x ∷ s) = c ∷ x ∷ s
cons_trim c [] = if c == b' ' then [] else c ∷ []

unfoldable pub drop_blanks : Bytes → Bytes
unfolding cons_trim
drop_blanks [] = []
drop_blanks (c ∷ s) = cons_trim c (drop_blanks s)

-- The spaces around a token go. With nothing else in the token the count `--len` wraps around, and
-- the loop reads in front of the token.
unfoldable pub trim : Bytes → Run Bytes
unfolding skip_blanks
trim token = elim (skip_blanks token) [ [] ↦ fault out_of_bounds | c ∷ s ↦ ok (c ∷ drop_blanks s) ]

-- The loop over the tokens, with the rounds that are left.
unfoldable pub split_data : ℕ → Bytes → Run (List Bytes)
unfolding strtok trim
split_data zero str = ok []
split_data (suc n) str = elim (strtok data_delim str) [
  | none ↦ ok []
  | some (token, rest) ↦ do t ← trim token; ts ← split_data n rest; ok (t ∷ ts)
]

-- The key and the data of a line. No data is inserted where one of the two is missing.
behind_key : Bytes × Option Bytes → Run (Bytes × List Bytes)
unfolding split_data
behind_key (key, none) = ok (key, [])
behind_key (key, some str) = do ts ← split_data (max_tokens - 1) str; ok (key, ts)

unfoldable pub parse_parameter : Bytes → Run (Bytes × List Bytes)
unfolding behind_key
parse_parameter str = behind_key (split (codes " =\t") (split (codes ";") str).0)

pub data SectionId : Type 0 where
  sec_none sec_global sec_cmd sec_hooks sec_forward sec_transmit : SectionId

unfoldable pub section_named : Bytes → SectionId
section_named name =
    if str_eq name (codes "global")
    then sec_global
    else if str_eq name (codes "cmd")
    then sec_cmd
    else if str_eq name (codes "hooks")
    then sec_hooks
    else if str_eq name (codes "forward")
    then sec_forward
    else if str_eq name (codes "transmit")
    then sec_transmit
    else sec_none

-- On a line that starts with a bracket.
unfoldable pub conf_ini_check_section : Bytes → SectionId
unfolding section_named
conf_ini_check_section [] = sec_none
conf_ini_check_section (c ∷ str) = section_named (split (codes "]") str).0

pub record Tables (T : Type 0) : Type 0 where
  pub global : T
  pub cmd : T
  pub hooks : T
  pub forward : T
  pub transmit : T

unfoldable pub is_comment : ℕ → Bool
is_comment c = c == b'#' || c == b'\r' || c == b'\n' || c == b';'

-- The data of a key, with a comma between.
unfoldable pub join_data : List Bytes → Bytes
join_data [] = []
join_data (d ∷ []) = d
join_data (d ∷ e ∷ data') = d ++ (codes ", " ++ join_data (e ∷ data'))

-- A line of `conf_ini_save_section`.
unfoldable pub save_line : Bytes → List Bytes → Bytes
unfolding join_data
save_line key data' = key ++ (codes " = " ++ (join_data data' ++ codes "\n"))

unfoldable pub save_records : List (Bytes × List Bytes) → Bytes
unfolding save_line
save_records [] = []
save_records ((key, data') ∷ recs) = save_line key data' ++ save_records recs

module _ {T : Type 0} ⦃h : HashTable T⦄ where
  -- The results of `hash_text_insert` are not looked at.
  unfoldable pub insert_all : T → Bytes → List Bytes → T
  insert_all mem key [] = mem
  insert_all mem key (d ∷ data') = insert_all (hash_text_insert mem key d).1 key data'

  unfoldable pub conf_ini_check_parameter : Bytes → T → Run T
  unfolding parse_parameter insert_all
  conf_ini_check_parameter str mem = do r ← parse_parameter str; ok (insert_all mem r.0 r.1)

  into : SectionId → Bytes → Tables T → Run (Tables T)
  unfolding conf_ini_check_parameter
  into sec_none line conf = ok conf
  into sec_global line conf = do
    t ← conf_ini_check_parameter line conf.global
    ok (record conf { global = t })
  into sec_cmd line conf = do
    t ← conf_ini_check_parameter line conf.cmd
    ok (record conf { cmd = t })
  into sec_hooks line conf = do
    t ← conf_ini_check_parameter line conf.hooks
    ok (record conf { hooks = t })
  into sec_forward line conf = do
    t ← conf_ini_check_parameter line conf.forward
    ok (record conf { forward = t })
  into sec_transmit line conf = do
    t ← conf_ini_check_parameter line conf.transmit
    ok (record conf { transmit = t })

  pub read_line : SectionId → Bytes → Tables T → Run (SectionId × Tables T)
  unfolding into is_comment conf_ini_check_section
  read_line section [] conf = ok (section, conf)
  read_line section (c ∷ line) conf =
      if is_comment c
      then ok (section, conf)
      else if c == b'['
      then ok (conf_ini_check_section (c ∷ line), conf)
      else (into section (c ∷ line) conf >>= λ conf'. ok (section, conf'))

  -- The loop of `conf_ini_read` over the lines that `fgets` gives.
  unfoldable pub read_lines : SectionId → List Bytes → Tables T → Run (Tables T)
  unfolding read_line
  read_lines section [] conf = ok conf
  read_lines section (tmp ∷ lines) conf =
      read_line section tmp conf >>= λ r. read_lines r.0 lines r.1

  unfoldable pub conf_ini_save_section : T → Bytes
  unfolding save_records
  conf_ini_save_section mem = save_records (h.records mem)

  -- What `conf_ini_save` writes to the file: `fwrite` is given fewer bytes than two of the headers have.
  unfoldable pub conf_ini_save : Tables T → Bytes
  unfolding conf_ini_save_section
  conf_ini_save mem =
      codes "[global]\n"
      ++ (conf_ini_save_section mem.global
          ++ (codes "\n[cmd]\n"
              ++ (conf_ini_save_section mem.cmd
                  ++ (codes "\n[hooks"
                      ++ (conf_ini_save_section mem.hooks
                          ++ (codes "\n[forward]\n"
                              ++ (conf_ini_save_section mem.forward
                                  ++ (codes "\n[transmit"
                                      ++ (conf_ini_save_section mem.transmit ++ codes "\n")))))))))
