-- ===== src/ConfIni/File.antt =====
-- A whole configuration file, as `conf_ini_read` of src/iyelld/conf_ini.c takes it with `fgets`.
use iyell.Base.{
  ℕ, zero, suc, ◌-◌, ◌≤◌, false, ok, Run, List, [], ◌∷◌, ◌++◌, ◌==◌, if◌then◌else◌, length, ◌≡◌,
  refl, arith,
}
use iyell.CString.{Bytes, codes, contains}
use iyell.CommandText.{buff_size}
use iyell.HashText.{HashTable}
use iyell.ConfIni.{Tables, SectionId, sec_none, read_line, read_lines}

-- A byte in front of the line that comes next.
unfoldable pub onto_line : ℕ → List Bytes → List Bytes
onto_line c [] = (c ∷ []) ∷ []
onto_line c (line ∷ lines) = (c ∷ line) ∷ lines

-- The bytes that a line can have behind its first one: `fgets` leaves room for the zero.
abbrev pub line_room : ℕ
line_room = buff_size - 2

-- What `fgets` gives, call by call: a piece ends behind a newline, or when the buffer is full. The
-- number is the room that is left behind the next byte.
unfoldable pub fgets_lines : ℕ → Bytes → List Bytes
unfolding onto_line
fgets_lines room [] = []
fgets_lines zero (c ∷ s) = (c ∷ []) ∷ fgets_lines line_room s
fgets_lines (suc room) (c ∷ s) =
    let rest = fgets_lines (if c == b'\n' then line_room else room) s in
    if c == b'\n' then (c ∷ []) ∷ rest else onto_line c rest

fgets_lines-line :
    (room : ℕ) (l tail : Bytes)
    → contains b'\n' l ≡ false
    → length l ≤ room
    → fgets_lines room (l ++ (b'\n' ∷ tail)) ≡ (l ++ codes "\n") ∷ fgets_lines line_room tail
unfolding fgets_lines contains onto_line
fgets_lines-line zero [] tail h few = refl
fgets_lines-line (suc room) [] tail h few = refl
fgets_lines-line zero (c ∷ l) tail h few = ground (arith, few)
fgets_lines-line (suc room) (c ∷ l) tail h few =
    let other : (c == b'\n') ≡ false = ground (arith, h) in
    rw other rw (fgets_lines-line room l tail (ground (arith, h)) (omega (arith, few))) refl

module _ {T : Type 0} ⦃h : HashTable T⦄ where
  -- On the text of the file.
  unfoldable pub conf_ini_read : Bytes → Tables T → Run (Tables T)
  conf_ini_read text conf = read_lines sec_none (fgets_lines line_room text) conf

  read_lines-step :
      (s s' : SectionId) (line : Bytes) (lines : List Bytes) (conf conf' : Tables T)
      → read_line s line conf ≡ ok (s', conf')
      → read_lines s (line ∷ lines) conf ≡ read_lines s' lines conf'
  unfolding read_lines
  read_lines-step s s' line lines conf conf' e = rw e refl

  -- A line of the text that fits into the buffer is read as such.
  pub read_lines-line :
      (s s' : SectionId) (l tail : Bytes) (conf conf' : Tables T)
      → contains b'\n' l ≡ false
      → length l ≤ line_room
      → read_line s (l ++ codes "\n") conf ≡ ok (s', conf')
      → read_lines s (fgets_lines line_room (l ++ (b'\n' ∷ tail))) conf
        ≡ read_lines s' (fgets_lines line_room tail) conf'
  read_lines-line s s' l tail conf conf' plain few e =
      rw (fgets_lines-line line_room l tail plain few)
        (read_lines-step s s' (l ++ codes "\n") (fgets_lines line_room tail) conf conf' e)
