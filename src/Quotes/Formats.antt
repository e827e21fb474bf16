-- ===== src/Quotes/Formats.antt =====
-- The formats of src/quotes/db.c, once `%q` has put the arguments in.
use iyell.Base.{
  ◌≤◌, false, List, [], ◌∷◌, ◌++◌, ◌≡◌, refl, sym, ◌∙◌, ap, arith, ◌==◌, append_assoc, map, length,
}
use iyell.CString.{Bytes, contains}
use iyell.CString.Split.{contains-append}
use iyell.Quotes.Db.{Sqlite, doubled}
use iyell.Quotes.Literals.{
  Symbol, outside, behind, scan, symbols, scan-code, scan-doubled, scan-plain, scan-ends,
}

-- A piece of a format: a text and a literal behind it, which is `'%q'` for an argument, or fixed.
pub data Piece : Type 0 where
  asks fixed : Bytes → Bytes → Piece

abbrev pub format : List Piece → Bytes → Bytes
format [] tail = tail
format (asks t a ∷ pieces) tail = t ++ (0x27 ∷ b'%' ∷ b'q' ∷ 0x27 ∷ format pieces tail)
format (fixed t l ∷ pieces) tail = t ++ (0x27 ∷ (l ++ (0x27 ∷ format pieces tail)))

abbrev pub arguments : List Piece → List Bytes
arguments [] = []
arguments (asks t a ∷ pieces) = a ∷ arguments pieces
arguments (fixed t l ∷ pieces) = arguments pieces

filled : List Piece → Bytes → Bytes
filled [] tail = tail
filled (asks t a ∷ pieces) tail = t ++ (0x27 ∷ (doubled a ++ (0x27 ∷ filled pieces tail)))
filled (fixed t l ∷ pieces) tail = t ++ (0x27 ∷ (l ++ (0x27 ∷ filled pieces tail)))

-- The symbols that the pieces are meant to have: the literals are the arguments.
unfoldable pub meant : List Piece → Bytes → List Symbol
meant [] tail = map Symbol.code tail
meant (asks t a ∷ pieces) tail = map Symbol.code t ++ (Symbol.literal a ∷ meant pieces tail)
meant (fixed t l ∷ pieces) tail = map Symbol.code t ++ (Symbol.literal l ∷ meant pieces tail)

abbrev pub text_of : Piece → Bytes
text_of (asks t a) = t
text_of (fixed t l) = t

abbrev pub fixed_of : Piece → Bytes
fixed_of (asks t a) = []
fixed_of (fixed t l) = l

-- The texts and the fixed literals have no quotes and no conversions, and a text is not empty.
abbrev pub Clean : List Piece → Bytes → Type 0
Clean [] tail = (contains 0x27 tail ≡ false) × (contains b'%' tail ≡ false)
Clean (p ∷ pieces) tail =
    (contains 0x27 (text_of p) ≡ false)
    × ((contains b'%' (text_of p) ≡ false)
        × ((1 ≤ length (text_of p))
            × ((contains 0x27 (fixed_of p) ≡ false)
                × ((contains b'%' (fixed_of p) ≡ false) × Clean pieces tail))))

scan-tail :
    (acc tail : Bytes)
    → contains 0x27 tail ≡ false
    → scan (behind acc) tail ≡ Symbol.literal acc ∷ scan outside tail
unfolding scan contains
scan-tail acc [] h = refl
scan-tail acc (c ∷ t) h = let plain : (c == 0x27) ≡ false = ground (arith, h) in rw plain refl

scan-text : (tail : Bytes) → contains 0x27 tail ≡ false → scan outside tail ≡ map Symbol.code tail
unfolding scan contains
scan-text [] h = refl
scan-text (c ∷ t) h =
    let plain : (c == 0x27) ≡ false = ground (arith, h) in
    rw plain (ap (◌∷◌ (Symbol.code c)) (scan-text t (ground (arith, h))))

-- Behind a literal, what follows is read as if the literal were not there.
filled-ends :
    (acc : Bytes) (pieces : List Piece) (tail : Bytes)
    → Clean pieces tail
    → scan (behind acc) (filled pieces tail)
      ≡ Symbol.literal acc ∷ scan outside (filled pieces tail)
unfolding filled
filled-ends acc [] tail clean = scan-tail acc tail clean.0
filled-ends acc (asks t a ∷ pieces) tail clean = scan-ends acc t _ clean.0 clean.1.1.0
filled-ends acc (fixed t l ∷ pieces) tail clean = scan-ends acc t _ clean.0 clean.1.1.0

scan-filled :
    (pieces : List Piece) (tail : Bytes)
    → Clean pieces tail
    → scan outside (filled pieces tail) ≡ meant pieces tail
unfolding filled meant scan
scan-filled [] tail clean = scan-text tail clean.0
scan-filled (asks t a ∷ pieces) tail clean =
    let rest = scan-filled pieces tail clean.1.1.1.1.1 in
    scan-code t _ clean.0
    ∙ ap (λ s. map Symbol.code t ++ s)
        (scan-doubled [] a _
          ∙ filled-ends a pieces tail clean.1.1.1.1.1
          ∙ ap (◌∷◌ (Symbol.literal a)) rest)
scan-filled (fixed t l ∷ pieces) tail clean =
    let rest = scan-filled pieces tail clean.1.1.1.1.1 in
    scan-code t _ clean.0
    ∙ ap (λ s. map Symbol.code t ++ s)
        (scan-plain [] l _ clean.1.1.1.0
          ∙ filled-ends l pieces tail clean.1.1.1.1.1
          ∙ ap (◌∷◌ (Symbol.literal l)) rest)

-- A text of fixed literals alone needs no filling in.
abbrev pub Fixed : List Piece → Type 0
Fixed [] = Unit
Fixed (asks t a ∷ pieces) = ⊥
Fixed (fixed t l ∷ pieces) = Fixed pieces

filled-Fixed :
    (pieces : List Piece) (tail : Bytes) → Fixed pieces → filled pieces tail ≡ format pieces tail
unfolding filled
filled-Fixed [] tail f = refl
filled-Fixed (asks t a ∷ pieces) tail f = absurd f
filled-Fixed (fixed t l ∷ pieces) tail f =
    ap (λ s. t ++ (0x27 ∷ (l ++ (0x27 ∷ s)))) (filled-Fixed pieces tail f)

pub symbols-format :
    (pieces : List Piece) (tail : Bytes)
    → Clean pieces tail
    → Fixed pieces
    → symbols (format pieces tail) ≡ meant pieces tail
unfolding symbols
symbols-format pieces tail clean f =
    ap (scan outside) (sym (filled-Fixed pieces tail f)) ∙ scan-filled pieces tail clean

module _ (sql : Sqlite) where
  open sql use {sqlite3_mprintf, mprintf-q, mprintf-text}

  mprintf-format :
      (pre : Bytes) (pieces : List Piece) (tail : Bytes)
      → contains b'%' pre ≡ false
      → Clean pieces tail
      → sqlite3_mprintf (pre ++ format pieces tail) (arguments pieces) ≡ pre ++ filled pieces tail
  unfolding filled contains
  mprintf-format pre [] tail h clean =
      mprintf-text (pre ++ tail) (contains-append b'%' pre tail h clean.1)
  mprintf-format pre (asks t a ∷ pieces) tail h clean =
      let rest = mprintf-format (0x27 ∷ []) pieces tail refl clean.1.1.1.1.1 in
      let head = pre ++ (t ++ (0x27 ∷ [])) in
      let no_percent : contains b'%' head ≡ false =
        contains-append b'%' pre _ h (contains-append b'%' t (0x27 ∷ []) clean.1.0 refl) in
      let regroup : pre ++ format (asks t a ∷ pieces) tail
          ≡ head ++ (b'%' ∷ b'q' ∷ 0x27 ∷ format pieces tail) =
        simp append_assoc in
      let back : head ++ (doubled a ++ (0x27 ∷ filled pieces tail))
          ≡ pre ++ filled (asks t a ∷ pieces) tail =
        simp append_assoc in
      ap (λ f. sqlite3_mprintf f (a ∷ arguments pieces)) regroup
      ∙ mprintf-q head _ a (arguments pieces) no_percent
      ∙ ap (λ s. head ++ (doubled a ++ s)) rest
      ∙ back
  mprintf-format pre (fixed t l ∷ pieces) tail h clean =
      let head = pre ++ (t ++ (0x27 ∷ (l ++ (0x27 ∷ [])))) in
      let no_percent : contains b'%' head ≡ false = contains-append b'%' pre _ h (
        contains-append b'%' t _ clean.1.0 (
          contains-append b'%' (0x27 ∷ []) (l ++ (0x27 ∷ [])) refl
            (contains-append b'%' l (0x27 ∷ []) clean.1.1.1.1.0 refl))) in
      let rest = mprintf-format head pieces tail no_percent clean.1.1.1.1.1 in
      let regroup : pre ++ format (fixed t l ∷ pieces) tail ≡ head ++ format pieces tail =
        simp append_assoc in
      let back : head ++ filled pieces tail ≡ pre ++ filled (fixed t l ∷ pieces) tail =
        simp append_assoc in
      ap (λ f. sqlite3_mprintf f (arguments pieces)) regroup ∙ rest ∙ back

  pub symbols-mprintf :
      (pieces : List Piece) (tail : Bytes)
      → Clean pieces tail
      → symbols (sqlite3_mprintf (format pieces tail) (arguments pieces)) ≡ meant pieces tail
  unfolding symbols contains
  symbols-mprintf pieces tail clean =
      ap (scan outside) (mprintf-format [] pieces tail refl clean) ∙ scan-filled pieces tail clean
