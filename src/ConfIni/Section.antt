-- ===== src/ConfIni/Section.antt =====
-- A section that `conf_ini_save_section` of src/iyelld/conf_ini.c writes, read back.
use iyell.Base.{
  true, false, ok, List, [], ◌∷◌, ◌++◌, ◌==◌, ◌≡◌, refl, sym, ◌∙◌, ap, arith, append_assoc,
}
use iyell.CString.{Bytes, codes}
use iyell.HashText.{HashTable}
use iyell.ConfIni.{
  Tables, SectionId, sec_none, sec_global, sec_cmd, sec_hooks, sec_forward, sec_transmit,
  is_comment, join_data, save_line, save_records, insert_all, conf_ini_check_parameter, into,
  read_line, read_lines,
}
use iyell.ConfIni.File.{line_room, fgets_lines, read_lines-line}
use iyell.ConfIni.Entry.{
  opens_line, IsEntry, AreEntries, body, body-save_line, parse-IsEntry, body_one_line, body_short,
}

module _ {T : Type 0} ⦃h : HashTable T⦄ where
  -- The records inserted one after the other.
  unfoldable pub insert_records : T → List (Bytes × List Bytes) → T
  unfolding insert_all
  insert_records mem [] = mem
  insert_records mem ((key, data') ∷ recs) = insert_records (insert_all mem key data') recs

  -- In the table of a section.
  unfoldable pub with_records : SectionId → List (Bytes × List Bytes) → Tables T → Tables T
  unfolding insert_records
  with_records sec_none recs conf = conf
  with_records sec_global recs conf = record conf { global = insert_records conf.global recs }
  with_records sec_cmd recs conf = record conf { cmd = insert_records conf.cmd recs }
  with_records sec_hooks recs conf = record conf { hooks = insert_records conf.hooks recs }
  with_records sec_forward recs conf = record conf { forward = insert_records conf.forward recs }
  with_records sec_transmit recs conf = record conf { transmit = insert_records conf.transmit recs }

  check_parameter-IsEntry :
      (key : Bytes) (data' : List Bytes) (mem : T)
      → IsEntry key data'
      → conf_ini_check_parameter (save_line key data') mem ≡ ok (insert_all mem key data')
  unfolding conf_ini_check_parameter
  check_parameter-IsEntry key data' mem e = rw (parse-IsEntry key data' e) refl

  into-IsEntry :
      (section : SectionId) (key : Bytes) (data' : List Bytes) (conf : Tables T)
      → IsEntry key data'
      → into section (save_line key data') conf ≡ ok (with_records section ((key, data') ∷ []) conf)
  unfolding into with_records insert_records
  into-IsEntry sec_none key data' conf e = refl
  into-IsEntry sec_global key data' conf e =
      rw (check_parameter-IsEntry key data' conf.global e) refl
  into-IsEntry sec_cmd key data' conf e = rw (check_parameter-IsEntry key data' conf.cmd e) refl
  into-IsEntry sec_hooks key data' conf e = rw (check_parameter-IsEntry key data' conf.hooks e) refl
  into-IsEntry sec_forward key data' conf e =
      rw (check_parameter-IsEntry key data' conf.forward e) refl
  into-IsEntry sec_transmit key data' conf e =
      rw (check_parameter-IsEntry key data' conf.transmit e) refl

  read_line-opens :
      (section : SectionId) (key rest : Bytes) (conf conf' : Tables T)
      → opens_line key ≡ true
      → into section (key ++ rest) conf ≡ ok conf'
      → read_line section (key ++ rest) conf ≡ ok (section, conf')
  unfolding read_line opens_line
  read_line-opens section [] rest conf conf' opens e = ground (arith, opens)
  read_line-opens section (c ∷ key) rest conf conf' opens e =
      let no_comment : is_comment c ≡ false = ground (arith, opens) in
      let no_header : (c == b'[') ≡ false = ground (arith, opens) in
      rw no_comment rw no_header rw e refl

  with_records-cons :
      (section : SectionId) (key : Bytes) (data' : List Bytes) (recs : List (Bytes × List Bytes))
      (conf : Tables T)
      → with_records section recs (with_records section ((key, data') ∷ []) conf)
        ≡ with_records section ((key, data') ∷ recs) conf
  unfolding with_records insert_records
  with_records-cons sec_none key data' recs conf = refl
  with_records-cons sec_global key data' recs conf = refl
  with_records-cons sec_cmd key data' recs conf = refl
  with_records-cons sec_hooks key data' recs conf = refl
  with_records-cons sec_forward key data' recs conf = refl
  with_records-cons sec_transmit key data' recs conf = refl

  read_lines-entry :
      (section : SectionId) (key : Bytes) (data' : List Bytes) (tail : Bytes) (conf : Tables T)
      → IsEntry key data'
      → read_lines section (fgets_lines line_room (save_line key data' ++ tail)) conf
        ≡ read_lines section
            (fgets_lines line_room tail)
            (with_records section ((key, data') ∷ []) conf)
  unfolding save_line
  read_lines-entry section key data' tail conf e =
      let conf' = with_records section ((key, data') ∷ []) conf in
      let line : (save_line key data' ++ tail) ≡ body key data' ++ (b'\n' ∷ tail) =
        ap (λ l. l ++ tail) (body-save_line key data')
        ∙ append_assoc (body key data') (codes "\n") tail in
      rw line (
        read_lines-line section section (body key data') tail conf conf' (body_one_line key data' e)
          (omega (arith, body_short key data' e))
          (ap (λ l. read_line section l conf) (sym (body-save_line key data'))
            ∙ read_line-opens section key (codes " = " ++ (join_data data' ++ codes "\n")) conf
                conf' e.opens (into-IsEntry section key data' conf e)))

  pub read_lines-save_records :
      (section : SectionId) (recs : List (Bytes × List Bytes)) (tail : Bytes) (conf : Tables T)
      → AreEntries recs
      → read_lines section (fgets_lines line_room (save_records recs ++ tail)) conf
        ≡ read_lines section (fgets_lines line_room tail) (with_records section recs conf)
  unfolding save_records with_records insert_records
  read_lines-save_records sec_none [] tail conf es = refl
  read_lines-save_records sec_global [] tail conf es = refl
  read_lines-save_records sec_cmd [] tail conf es = refl
  read_lines-save_records sec_hooks [] tail conf es = refl
  read_lines-save_records sec_forward [] tail conf es = refl
  read_lines-save_records sec_transmit [] tail conf es = refl
  read_lines-save_records section ((key, data') ∷ recs) tail conf es =
      rw (append_assoc (save_line key data') (save_records recs) tail) (
        read_lines-entry section key data' (save_records recs ++ tail) conf es.0
        ∙ read_lines-save_records section recs tail (with_records section ((key, data') ∷ []) conf)
            es.1
        ∙ ap (read_lines section (fgets_lines line_room tail))
            (with_records-cons section key data' recs conf))
