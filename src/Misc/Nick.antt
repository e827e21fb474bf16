-- ===== src/Misc/Nick.antt =====
-- The temporary nickname of src/iyelld/misc.c.
use iyell.Base.{
  ℕ, zero, suc, ◌+◌, ◌%◌, ◌<◌, ◌>>=◌, ok, fault, division_by_zero, [], ◌∷◌, ◌++◌, some, ◌≡◌, refl,
  ap, arith, length, take, drop, get_elem?,
}
use iyell.CString.{Bytes}
use iyell.Misc.{temporary_nick, mangle_at, mangled, int_to_size, remainder}
use iyell.SyslogParse.{c_string}

get_elem?-inside : (s : Bytes) (i : ℕ) → i < length s → (c : ℕ) × (get_elem? s i ≡ some c)
get_elem?-inside [] i h = ground (arith, h)
get_elem?-inside (x ∷ s) zero h = (x, refl)
get_elem?-inside (x ∷ s) (suc i) h = get_elem?-inside s i (omega (arith, h))

mangle_at-inside :
    (nick : Bytes) (i c : ℕ)
    → get_elem? nick i ≡ some c
    → mangle_at nick i ≡ ok (take i nick ++ (mangled c i ∷ drop (i + 1) nick))
unfolding mangle_at
mangle_at-inside nick i c e = rw (e, mangle_at) refl

-- The place of the changed byte is taken modulo the length less one: at any time, a nickname of one
-- byte makes the program divide by zero, and in a longer one a byte in front of the last one is
-- changed and no access is out of bounds.
pub temporary_nick-total :
    (c e : ℕ) (nick : Bytes) (time : ℕ)
    → (temporary_nick (c ∷ []) time ≡ fault division_by_zero)
      × (let n = c ∷ e ∷ nick in
          (i : ℕ) × (b : ℕ) × (i + 1 < length n)
          × (get_elem? n i ≡ some b)
          × (temporary_nick n time ≡ ok (c_string (take i n ++ (mangled b i ∷ drop (i + 1) n)))))
unfolding temporary_nick remainder
temporary_nick-total c e nick time =
    let n = c ∷ e ∷ nick in
    let i = int_to_size time % suc (length nick) in
    let inside : i < suc (length nick) = omega arith in
    let (b, at_i) = get_elem?-inside n i (omega (arith, inside)) in
    (
      refl,
      (
        i,
        b,
        omega (arith, inside),
        at_i,
        ap (λ r. r >>= λ n'. ok (c_string n')) (mangle_at-inside n i b at_i),
      ),
    )
