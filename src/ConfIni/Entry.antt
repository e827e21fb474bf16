-- ===== src/ConfIni/Entry.antt =====
-- What a line can hold that src/iyelld/conf_ini.c writes, and its bounds.
use iyell.Base.{
  ◌+◌, ◌≤◌, Bool, true, false, not, ◌||◌, ok, List, [], ◌∷◌, ◌++◌, ◌==◌, length, length-append, ◌≡◌,
  refl, ◌∙◌, ap, arith, All, append_assoc,
}
use iyell.CString.{Bytes, codes, contains}
use iyell.CString.Split.{Free, contains-append}
use iyell.ConfIni.{is_comment, join_data, save_line, parse_parameter}
use iyell.ConfIni.Line.{Datum, parse_parameter-save_line}

-- A key can start a line: no comment, no header of a section, and no closing bracket.
unfoldable pub opens_line : Bytes → Bool
opens_line [] = false
opens_line (c ∷ key) = not (is_comment c || c == b'[' || c == b']')

-- What a line of the file can hold: data, at most 127, under a key without a delimiter, in a line
-- that fits into the buffer behind the start of a header.
pub record IsEntry (key : Bytes) (data' : List Bytes) : Type 0 where
  pub opens : opens_line key ≡ true
  pub undelimited : Free (codes " =\t") key
  pub uncommented : Free (codes ";") key
  pub one_line : contains b'\n' key ≡ false
  pub some_data : 1 ≤ length data'
  pub few : length data' ≤ 127
  pub valid : All Datum data'
  pub short : length (save_line key data') ≤ 4000

abbrev pub AreEntries : List (Bytes × List Bytes) → Type 0
AreEntries recs = All (λ r. IsEntry r.0 r.1) recs

-- The line without its end.
abbrev pub body : Bytes → List Bytes → Bytes
body key data' = key ++ (codes " = " ++ join_data data')

pub body-save_line :
    (key : Bytes) (data' : List Bytes) → save_line key data' ≡ body key data' ++ codes "\n"
unfolding save_line
body-save_line key data' = simp append_assoc

pub parse-IsEntry :
    (key : Bytes) (data' : List Bytes)
    → IsEntry key data'
    → parse_parameter (save_line key data') ≡ ok (key, data')
parse-IsEntry key [] e = let none_left = e.some_data in ground (arith, none_left)
parse-IsEntry key (d ∷ data') e =
    parse_parameter-save_line key d data' e.undelimited e.uncommented e.valid e.few

datum_one_line : (d : Bytes) → Free (codes "=\t\r,\n") d → contains b'\n' d ≡ false
unfolding contains
datum_one_line [] h = refl
datum_one_line (c ∷ d) h =
    let first = h.0 in let rest = datum_one_line d h.1 in ground (arith, first, rest)

data_one_line : (data' : List Bytes) → All Datum data' → contains b'\n' (join_data data') ≡ false
unfolding join_data contains
data_one_line [] h = refl
data_one_line (d ∷ []) h = datum_one_line d h.0.separate
data_one_line (d ∷ e ∷ data') h =
    contains-append b'\n' d (codes ", " ++ join_data (e ∷ data')) (datum_one_line d h.0.separate)
      (data_one_line (e ∷ data') h.1)

pub body_one_line :
    (key : Bytes) (data' : List Bytes) → IsEntry key data' → contains b'\n' (body key data') ≡ false
unfolding contains
body_one_line key data' e =
    contains-append b'\n' key (codes " = " ++ join_data data') e.one_line
      (data_one_line data' e.valid)

pub body_short :
    (key : Bytes) (data' : List Bytes) → IsEntry key data' → length (body key data') ≤ 4000
body_short key data' e =
    let fits = e.short in
    let size : length (save_line key data') ≡ length (body key data') + 1 =
      ap length (body-save_line key data') ∙ length-append (body key data') (codes "\n") in
    omega (arith, fits, size)
