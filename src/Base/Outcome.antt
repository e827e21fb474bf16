-- ===== src/Base/Outcome.antt =====
-- A run of C code: a result, or what stops the program.
use mathlib.Core.Path.{◌≡◌, refl}

-- A null pointer read, an access outside an object, a failed `assert`, a division by zero, an
-- overflow of a signed number, a conversion that `printf` does not have,
-- and a read of what was freed. `exhausted` is not the
-- program's: the model ran out of fuel.
pub data Fault : Type 0 where
  null_pointer out_of_bounds assertion division_by_zero signed_overflow bad_format use_after_free
        exhausted :
      Fault

pub data Run {ℓ} (A : Type ℓ) : Type ℓ where
  fault : Fault → Run A
  ok : A → Run A

-- What follows is run on the result; what stopped the program stops the whole.
infixl 5 ◌>>=◌
abbrev pub ◌>>=◌ {ℓ κ} : {A : Type ℓ} {C : Type κ} → Run A → (A → Run C) → Run C
fault stop >>= next = fault stop
ok result >>= next = next result

-- What follows ended well, so there was a result to start from.
pub >>=-ok {ℓ κ} :
    {A : Type ℓ} {C : Type κ} (run : Run A) (next : A → Run C) {c : C}
    → run >>= next ≡ ok c
    → (result : A) × (next result ≡ ok c)
>>=-ok (fault stop) next h = cc
>>=-ok (ok result) next h = (result, h)

-- With the run that led to the result.
pub >>=-both {ℓ κ} :
    {A : Type ℓ} {C : Type κ} (run : Run A) (next : A → Run C) {c : C}
    → run >>= next ≡ ok c
    → (result : A) × (run ≡ ok result) × (next result ≡ ok c)
>>=-both (fault stop) next h = cc
>>=-both (ok result) next h = (result, refl, h)
