-- ===== src/Tests/Tables.antt =====
-- A table of string arrays on an example.
use iyell.Base.{ok, List, [], ◌∷◌, ◌≡◌, refl}
use iyell.CString.{codes, str_eq}
use iyell.HashText.Refinement.{
  Operation, Entries, insert, delete, run, apply_all, Same, run-Refines,
}
use iyell.Tests.Table.{Records, list_table}

abbrev operations : List Operation
operations =
    insert (codes "channels") (codes "#a")
    ∷ insert (codes "nick") (codes "bot")
    ∷ delete (codes "nick")
    ∷ insert (codes "channels") (codes "#b")
    ∷ []

abbrev no_records : Records
no_records = []

run-Refines_example : Same (run operations no_records) (apply_all operations [])
run-Refines_example =
    run-Refines {T = Records} operations 16 (λ t key value. ((key, value) ∷ t, refl))

-- The example ends well.
operations-ok : (es : Entries) × (apply_all operations [] ≡ ok es)
unfolding apply_all str_eq
operations-ok = (_, refl)
