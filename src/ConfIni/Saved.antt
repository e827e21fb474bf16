-- ===== src/ConfIni/Saved.antt =====
-- A configuration that `conf_ini_save` of src/iyelld/conf_ini.c writes, read back.
use iyell.Base.{
  ℕ, ◌≤◌, true, false, ok, List, [], ◌∷◌, ◌++◌, length, length-append, ◌≡◌, refl, ◌∙◌, ap, arith,
  append_assoc,
}
use iyell.CString.{Bytes, codes, contains, split, str_eq}
use iyell.CString.Split.{Free, contains-append}
use iyell.HashText.{HashTable}
use iyell.ConfIni.{
  Tables, SectionId, sec_none, sec_global, sec_cmd, sec_forward, is_comment, join_data, save_line,
  save_records, read_line, read_lines, section_named, conf_ini_check_section, conf_ini_save_section,
  conf_ini_save,
}
use iyell.ConfIni.File.{line_room, fgets_lines, conf_ini_read, read_lines-line}
use iyell.ConfIni.Entry.{opens_line, AreEntries, body, body-save_line, body_one_line, body_short}
use iyell.ConfIni.Section.{insert_records, with_records, read_lines-save_records}

-- The name of a section whose header was cut.
split-name :
    (name : Bytes) (c : ℕ) (r : Bytes)
    → Free (codes "]") name
    → contains c (codes "]") ≡ false
    → (split (codes "]") (name ++ (c ∷ r))).0 ≡ name ++ (c ∷ (split (codes "]") r).0)
unfolding split
split-name [] c r free other = rw other refl
split-name (x ∷ name) c r free other = rw free.0 (ap (◌∷◌ x) (split-name name c r free.1 other))

-- A name that is none of the sections' with anything behind it.
abbrev IsCut : Bytes → Type 0
IsCut name = (c : ℕ) (r : Bytes) → section_named (name ++ (c ∷ r)) ≡ sec_none

cut_header :
    (name : Bytes) (c : ℕ) (rest : Bytes)
    → IsCut name
    → Free (codes "]") name
    → contains c (codes "]") ≡ false
    → conf_ini_check_section (b'[' ∷ (name ++ (c ∷ rest))) ≡ sec_none
unfolding conf_ini_check_section
cut_header name c rest cut free other =
    ap section_named (split-name name c rest free other) ∙ cut c (split (codes "]") rest).0

-- With the key of an entry behind it.
cut_header_key :
    (name key rest : Bytes)
    → IsCut name
    → Free (codes "]") name
    → opens_line key ≡ true
    → conf_ini_check_section (b'[' ∷ (name ++ (key ++ rest))) ≡ sec_none
unfolding opens_line contains
cut_header_key name [] rest cut free opens = ground (arith, opens)
cut_header_key name (c ∷ key) rest cut free opens =
    cut_header name c (key ++ rest) cut free (ground (arith, opens))

module _ {T : Type 0} ⦃h : HashTable T⦄ where
  blank :
      (s : SectionId) (tail : Bytes) (conf : Tables T)
      → read_lines s (fgets_lines line_room (b'\n' ∷ tail)) conf
        ≡ read_lines s (fgets_lines line_room tail) conf
  unfolding read_line is_comment contains
  blank s tail conf = read_lines-line s s [] tail conf conf refl (omega arith) refl

  read_line-header :
      (s : SectionId) (line : Bytes) (conf : Tables T)
      → read_line s (b'[' ∷ line) conf ≡ ok (conf_ini_check_section (b'[' ∷ line), conf)
  unfolding read_line is_comment
  read_line-header s line conf = refl

  -- Behind a cut header nothing is read, up to the next one.
  read_lines-cut :
      (s : SectionId) (name : Bytes) (recs : List (Bytes × List Bytes)) (tail : Bytes)
      (conf : Tables T)
      → IsCut name
      → Free (codes "]") name
      → contains b'\n' name ≡ false
      → length name ≤ 20
      → AreEntries recs
      → read_lines s
          (fgets_lines line_room (b'[' ∷ (name ++ (save_records recs ++ (b'\n' ∷ tail)))))
          conf
        ≡ read_lines sec_none (fgets_lines line_room tail) conf
  unfolding save_records contains opens_line with_records
  read_lines-cut s name [] tail conf cut free plain few es =
      let named : conf_ini_check_section (b'[' ∷ (name ++ codes "\n")) ≡ sec_none =
        cut_header name b'\n' [] cut free refl in
      read_lines-line s sec_none (b'[' ∷ name) tail conf conf (ground (arith, plain))
        (omega (arith, few))
        (read_line-header s (name ++ codes "\n") conf ∙ ap (λ x. ok (x, conf)) named)
  read_lines-cut s name ((key, data') ∷ recs) tail conf cut free plain few es =
      let line = b'[' ∷ (name ++ body key data') in
      let rest = save_records recs ++ (b'\n' ∷ tail) in
      let text : name ++ ((save_line key data' ++ save_records recs) ++ (b'\n' ∷ tail))
          ≡ (name ++ body key data') ++ (b'\n' ∷ rest) =
        rw (body-save_line key data') (simp append_assoc) in
      let named : conf_ini_check_section (line ++ codes "\n") ≡ sec_none =
        ap (λ x. conf_ini_check_section (b'[' ∷ x)) (simp append_assoc)
        ∙ cut_header_key name key ((codes " = " ++ join_data data') ++ codes "\n") cut free
            es.0.opens in
      rw text (
        read_lines-line s sec_none line rest conf conf
          (contains-append b'\n' (b'[' ∷ name) (body key data') plain
            (body_one_line key data' es.0))
          (omega (arith, few, body_short key data' es.0, length-append name (body key data')))
          (read_line-header s ((name ++ body key data') ++ codes "\n") conf
            ∙ ap (λ x. ok (x, conf)) named)
        ∙ read_lines-save_records sec_none recs (b'\n' ∷ tail) conf es.1
        ∙ blank sec_none tail conf)

  -- A header and the section behind it.
  read_lines-section :
      (s s' : SectionId) (l : Bytes) (recs : List (Bytes × List Bytes)) (tail : Bytes)
      (conf : Tables T)
      → contains b'\n' l ≡ false
      → length l ≤ line_room
      → read_line s (l ++ codes "\n") conf ≡ ok (s', conf)
      → AreEntries recs
      → read_lines s (fgets_lines line_room (l ++ (b'\n' ∷ (save_records recs ++ tail)))) conf
        ≡ read_lines s' (fgets_lines line_room tail) (with_records s' recs conf)
  read_lines-section s s' l recs tail conf plain few e es =
      read_lines-line s s' l (save_records recs ++ tail) conf conf plain few e
      ∙ read_lines-save_records s' recs tail conf es

  -- A configuration that is saved and read again inserts the entries of the sections `global`,
  -- `cmd` and `forward` into the tables of these sections, in the order of the records, when each
  -- entry can stand in a line. The entries of `hooks` and `transmit`, whose headers are written
  -- without their ends, are lost.
  pub conf_ini_read-conf_ini_save :
      (mem conf : Tables T)
      → AreEntries (h.records mem.global)
      → AreEntries (h.records mem.cmd)
      → AreEntries (h.records mem.hooks)
      → AreEntries (h.records mem.forward)
      → AreEntries (h.records mem.transmit)
      → conf_ini_read (conf_ini_save mem) conf
        ≡ ok (record conf {
          global = insert_records conf.global (h.records mem.global);
          cmd = insert_records conf.cmd (h.records mem.cmd);
          forward = insert_records conf.forward (h.records mem.forward);
        })
  unfolding conf_ini_read conf_ini_save conf_ini_save_section contains read_line is_comment
      section_named conf_ini_check_section str_eq with_records split fgets_lines read_lines
  conf_ini_read-conf_ini_save mem conf global cmd hooks forward transmit =
      let conf₁ = with_records sec_global (h.records mem.global) conf in
      let conf₂ = with_records sec_cmd (h.records mem.cmd) conf₁ in
      let conf₃ = with_records sec_forward (h.records mem.forward) conf₂ in
      let transmits =
        b'[' ∷ (codes "transmit" ++ (save_records (h.records mem.transmit) ++ codes "\n")) in
      let forwards = save_records (h.records mem.forward) ++ (b'\n' ∷ transmits) in
      let behind_hooks = codes "[forward]" ++ (b'\n' ∷ forwards) in
      let hooked =
        b'[' ∷ (codes "hooks" ++ (save_records (h.records mem.hooks) ++ (b'\n' ∷ behind_hooks))) in
      let cmds =
        codes "[cmd]" ++ (b'\n' ∷ (save_records (h.records mem.cmd) ++ (b'\n' ∷ hooked))) in
      read_lines-section sec_none sec_global (codes "[global]") (h.records mem.global)
        (b'\n' ∷ cmds) conf refl (omega arith) refl global
      ∙ blank sec_global cmds conf₁
      ∙ read_lines-section sec_global sec_cmd (codes "[cmd]") (h.records mem.cmd) (b'\n' ∷ hooked)
          conf₁ refl (omega arith) refl cmd
      ∙ blank sec_cmd hooked conf₂
      ∙ read_lines-cut sec_cmd (codes "hooks") (h.records mem.hooks) behind_hooks conf₂
          (λ c r. refl) (refl, (refl, (refl, (refl, (refl, tt))))) refl (omega arith) hooks
      ∙ read_lines-section sec_none sec_forward (codes "[forward]") (h.records mem.forward)
          (b'\n' ∷ transmits) conf₂ refl (omega arith) refl forward
      ∙ blank sec_forward transmits conf₃
      ∙ read_lines-cut sec_forward (codes "transmit") (h.records mem.transmit) [] conf₃
          (λ c r. refl) (refl, (refl, (refl, (refl, (refl, (refl, (refl, (refl, tt)))))))) refl
          (omega arith) transmit
