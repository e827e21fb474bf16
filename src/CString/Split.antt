-- ===== src/CString/Split.antt =====
-- What strsep and strtok make of a string.
use iyell.Base.{ℕ, true, false, [], ◌∷◌, ◌++◌, none, some, ◌≡◌, refl, ◌↔◌, arith, All, length, ◌<◌}
use iyell.CString.{Bytes, str_eq, contains, split, skip}

pub str_eq_iff : (a b : Bytes) → (str_eq a b ≡ true) ↔ (a ≡ b)
unfolding str_eq
str_eq_iff (x ∷ a) (y ∷ b) = ground (arith, str_eq_iff a b)
str_eq_iff _ _ = ground arith

pub str_eq_refl : (a : Bytes) → str_eq a a ≡ true
str_eq_refl a = (str_eq_iff a a).1 refl

-- No byte of the string is a delimiter.
abbrev pub Free : Bytes → Bytes → Type 0
Free delim s = All (λ c. contains c delim ≡ false) s

pub Free-append : (delim s t : Bytes) → Free delim s → Free delim t → Free delim (s ++ t)
Free-append delim [] t h k = k
Free-append delim (c ∷ s) t h k = (h.0, Free-append delim s t h.1 k)

pub split-Free :
    (delim t : Bytes) (c : ℕ) (rest : Bytes)
    → Free delim t
    → contains c delim ≡ true
    → split delim (t ++ (c ∷ rest)) ≡ (t, some rest)
unfolding split
split-Free delim [] c rest free hit = rw hit
split-Free delim (x ∷ t) c rest free hit = rw (free.0, split-Free delim t c rest free.1 hit)

pub split-Free_end : (delim t : Bytes) → Free delim t → split delim t ≡ (t, none)
unfolding split
split-Free_end delim [] free = refl
split-Free_end delim (x ∷ t) free = rw (free.0, split-Free_end delim t free.1)

pub skip-Free :
    (delim : Bytes) (c : ℕ) (s : Bytes) → contains c delim ≡ false → skip delim (c ∷ s) ≡ c ∷ s
unfolding skip
skip-Free delim c s h = rw h

-- With one delimiter, a string without it is free.
pub Free-one : (d : ℕ) (s : Bytes) → contains d s ≡ false → Free (d ∷ []) s
unfolding contains
Free-one d [] h = tt
Free-one d (c ∷ s) h = (ground arith, Free-one d s (ground arith))

pub contains-append :
    (d : ℕ) (s t : Bytes)
    → contains d s ≡ false
    → contains d t ≡ false
    → contains d (s ++ t) ≡ false
unfolding contains
contains-append d [] t h k = k
contains-append d (c ∷ s) t h k = ground (arith, contains-append d s t)

pub split-shrinks : (delim b rest : Bytes) → (split delim b).1 ≡ some rest → length rest < length b
unfolding split
split-shrinks delim [] rest h = cc
split-shrinks delim (c ∷ b) rest h = ground (arith, split-shrinks delim b rest)
