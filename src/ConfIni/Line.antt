-- ===== src/ConfIni/Line.antt =====
-- A line that src/iyelld/conf_ini.c writes, read back.
use iyell.Base.{
  ℕ, zero, suc, ◌+◌, ◌≤◌, true, false, ok, List, [], ◌∷◌, ◌++◌, Option, none, some, ◌≡◌, ◌≢◌, refl,
  ◌∙◌, ap, arith, ◌==◌, length, get_elem?, All, append_assoc,
}
use iyell.CString.{Bytes, codes, contains, split, skip, strtok, or_empty}
use iyell.CString.Split.{Free-append, Free, split-Free, split-Free_end}
use iyell.ConfIni.{
  data_delim, skip_blanks, cons_trim, drop_blanks, trim, split_data, behind_key, parse_parameter,
  join_data, save_line,
}

abbrev pub last? : Bytes → Option ℕ
last? [] = none
last? (c ∷ []) = some c
last? (c ∷ d ∷ s) = last? (d ∷ s)

-- A value that a line of the file can hold: not empty, with no byte that separates values or
-- starts a comment, and with no space at its ends.
pub record Datum (s : Bytes) : Type 0 where
  pub nonempty : 1 ≤ length s
  pub separate : Free data_delim s
  pub no_comment : Free (codes ";") s
  pub starts : get_elem? s 0 ≢ some b' '
  pub ends : last? s ≢ some b' '

drop_blanks-ends : (c : ℕ) (s : Bytes) → last? (c ∷ s) ≢ some b' ' → drop_blanks (c ∷ s) ≡ c ∷ s
unfolding drop_blanks cons_trim
drop_blanks-ends c [] h =
    let different : (c == b' ') ≡ false = ground (arith, λ (e : c ≡ b' '). h (ap some e)) in
    rw different
drop_blanks-ends c (d ∷ s) h = rw (drop_blanks-ends d s h)

trim-Datum : (s : Bytes) → Datum s → trim (b' ' ∷ s) ≡ ok s
unfolding trim skip_blanks drop_blanks
trim-Datum [] h = let nonempty = h.nonempty in ground (arith, nonempty)
trim-Datum (c ∷ s) h =
    let starts = h.starts in
    let different : (c == b' ') ≡ false = ground (arith, λ (e : c ≡ b' '). starts (ap some e)) in
    let tail = drop_blanks-ends c s h.ends in ground (arith, different, tail)

-- The text of the values behind the first separator.
strtok-Datum :
    (s : Bytes) (c : ℕ) (rest : Bytes)
    → Datum s
    → contains c data_delim ≡ true
    → strtok data_delim (b' ' ∷ (s ++ (c ∷ rest))) ≡ some (b' ' ∷ s, rest)
unfolding strtok contains or_empty skip
strtok-Datum s c rest h hit =
    rw (split-Free data_delim (b' ' ∷ s) c rest (refl, h.separate) hit) refl

split_data-nil : (n : ℕ) → split_data n [] ≡ ok []
unfolding split_data strtok skip
split_data-nil zero = refl
split_data-nil (suc n) = refl

split_data-step :
    (n : ℕ) (s token rest t : Bytes) (ts : List Bytes)
    → strtok data_delim s ≡ some (token, rest)
    → trim token ≡ ok t
    → split_data n rest ≡ ok ts
    → split_data (suc n) s ≡ ok (t ∷ ts)
unfolding split_data
split_data-step n s token rest t ts one trimmed others = ground (arith, one, trimmed, others)

split_data-join_data :
    (n : ℕ) (d : Bytes) (data' : List Bytes)
    → All Datum (d ∷ data')
    → length data' + 1 ≤ n
    → split_data n (b' ' ∷ (join_data (d ∷ data') ++ codes "\n")) ≡ ok (d ∷ data')
unfolding join_data
split_data-join_data zero d data' h few = ground (arith, few)
split_data-join_data (suc n) d [] h few =
    split_data-step n _ (b' ' ∷ d) [] d [] (strtok-Datum d b'\n' [] h.0 (unfold contains in refl))
      (trim-Datum d h.0) (split_data-nil n)
split_data-join_data (suc n) d (e ∷ data') h few =
    let rest = split_data-join_data n e data' h.1 (omega (arith, few)) in
    let text = b' ' ∷ (join_data (e ∷ data') ++ codes "\n") in
    rw (append_assoc d (codes ", " ++ join_data (e ∷ data')) (codes "\n")) (
      split_data-step n _ (b' ' ∷ d) text d (e ∷ data')
        (strtok-Datum d b',' text h.0 (unfold contains in refl)) (trim-Datum d h.0) rest)

split_data-equals : (n : ℕ) (s : Bytes) → split_data (suc n) (b'=' ∷ s) ≡ split_data (suc n) s
unfolding split_data strtok skip contains
split_data-equals n s = refl

join_data-no_comment : (data' : List Bytes) → All Datum data' → Free (codes ";") (join_data data')
unfolding join_data contains
join_data-no_comment [] h = tt
join_data-no_comment (d ∷ []) h = h.0.no_comment
join_data-no_comment (d ∷ e ∷ data') h =
    Free-append (codes ";") d (codes ", " ++ join_data (e ∷ data')) h.0.no_comment
      (refl, (refl, join_data-no_comment (e ∷ data') h.1))

-- A line that is saved for a key and its values, 127 at most, is read as this key and these
-- values, when the key has no space, tab, equals sign or semicolon.
pub parse_parameter-save_line :
    (key d : Bytes) (data' : List Bytes)
    → Free (codes " =\t") key
    → Free (codes ";") key
    → All Datum (d ∷ data')
    → length (d ∷ data') ≤ 127
    → parse_parameter (save_line key (d ∷ data')) ≡ ok (key, d ∷ data')
unfolding parse_parameter behind_key save_line contains
parse_parameter-save_line key d data' plain no_comment h few =
    let text = join_data (d ∷ data') ++ codes "\n" in
    let uncommented : split (codes ";") (key ++ (codes " = " ++ text))
        ≡ (key ++ (codes " = " ++ text), none) =
      split-Free_end (codes ";") _ (
        Free-append (codes ";") key (codes " = " ++ text) no_comment (
          refl,
          (
            refl,
            (
              refl,
              Free-append (codes ";") (join_data (d ∷ data')) (codes "\n")
                  (join_data-no_comment (d ∷ data') h) (refl, tt),
            ),
          ),
        )) in
    let data_read : split_data 127 (b'=' ∷ b' ' ∷ text) ≡ ok (d ∷ data') =
      split_data-equals 126 (b' ' ∷ text)
      ∙ split_data-join_data 127 d data' h (omega (arith, few)) in
    rw uncommented rw (split-Free (codes " =\t") key b' ' (codes "= " ++ text) plain refl) rw
      data_read refl
