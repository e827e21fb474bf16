-- ===== src/Quotes/Literals.antt =====
-- The string literals in the queries of src/quotes/db.c.
use iyell.Base.{
  ℕ, ◌≤◌, false, List, [], ◌∷◌, ◌++◌, ◌≡◌, refl, ◌∙◌, ap, arith, ◌==◌, if◌then◌else◌, append_assoc,
  append-nil, map, length, Bool-cases, inl, inr,
}
use iyell.CString.{Bytes, contains}
use iyell.Quotes.Db.{doubled}

-- A text of SQL, byte by byte, with its string literals as a whole: in a literal, two quotes stand
-- for one.
pub data Symbol : Type 0 where
  code : ℕ → Symbol
  literal : Bytes → Symbol
  unfinished : Symbol

-- Outside of a literal, in one whose bytes so far are given, and behind a quote that may end it.
pub data Lex : Type 0 where
  outside : Lex
  inside behind : Bytes → Lex

unfoldable pub step : Lex → ℕ → List Symbol × Lex
step outside c = if c == 0x27 then ([], inside []) else (Symbol.code c ∷ [], outside)
step (inside acc) c = if c == 0x27 then ([], behind acc) else ([], inside (acc ++ (c ∷ [])))
step (behind acc) c =
    if c == 0x27
    then ([], inside (acc ++ (0x27 ∷ [])))
    else (Symbol.literal acc ∷ Symbol.code c ∷ [], outside)

unfoldable pub scan : Lex → Bytes → List Symbol
unfolding step
scan outside [] = []
scan (inside acc) [] = Symbol.unfinished ∷ []
scan (behind acc) [] = Symbol.literal acc ∷ []
scan l (c ∷ s) = let r = step l c in r.0 ++ scan r.1 s

unfoldable pub symbols : Bytes → List Symbol
unfolding scan
symbols s = scan outside s

pub scan-code :
    (t s : Bytes)
    → contains 0x27 t ≡ false
    → scan outside (t ++ s) ≡ map Symbol.code t ++ scan outside s
unfolding scan contains
scan-code [] s h = refl
scan-code (c ∷ t) s h =
    let plain : (c == 0x27) ≡ false = ground (arith, h) in
    let rest = scan-code t s (ground (arith, h)) in rw plain (ap (◌∷◌ (Symbol.code c)) rest)

pub scan-doubled :
    (acc a s : Bytes) → scan (inside acc) (doubled a ++ (0x27 ∷ s)) ≡ scan (behind (acc ++ a)) s
unfolding scan
scan-doubled acc [] s = rw (append-nil acc) refl
scan-doubled acc (c ∷ a) s = elim (Bool-cases (c == 0x27)) [
  | inl quote ↦
      let is : c ≡ 0x27 = ground (arith, quote) in
      rw is (scan-doubled (acc ++ (0x27 ∷ [])) a s ∙ rw (append_assoc acc (0x27 ∷ []) a) refl)
  | inr plain ↦
      rw plain
        (rw plain (scan-doubled (acc ++ (c ∷ [])) a s ∙ rw (append_assoc acc (c ∷ []) a) refl))
]

pub scan-plain :
    (acc l s : Bytes)
    → contains 0x27 l ≡ false
    → scan (inside acc) (l ++ (0x27 ∷ s)) ≡ scan (behind (acc ++ l)) s
unfolding scan contains
scan-plain acc [] s h = rw (append-nil acc) refl
scan-plain acc (c ∷ l) s h =
    let plain : (c == 0x27) ≡ false = ground (arith, h) in
    rw plain
      (scan-plain (acc ++ (c ∷ [])) l s (ground (arith, h)) ∙ rw (append_assoc acc (c ∷ []) l) refl)

-- A text that is not empty and has no quote ends the literal in front of it.
pub scan-ends :
    (acc t s : Bytes)
    → contains 0x27 t ≡ false
    → 1 ≤ length t
    → scan (behind acc) (t ++ s) ≡ Symbol.literal acc ∷ scan outside (t ++ s)
unfolding scan contains
scan-ends acc [] s h some_text = ground (arith, some_text)
scan-ends acc (c ∷ t) s h some_text =
    let plain : (c == 0x27) ≡ false = ground (arith, h) in rw plain refl
