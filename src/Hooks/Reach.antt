-- ===== src/Hooks/Reach.antt =====
-- The lists of hooks that src/iyelld/hooks.c can come to, and a whole command of a user.
use iyell.Base.{
  Bool, ok, >>=-both, List, [], ◌∷◌, Option, ◌≡◌, ◌⊎◌, inl, inr, sym, arith, Option-cases,
}
use iyell.CString.{Bytes}
use iyell.Hooks.{Hook, hooks_generic_error, hooks_oneshot_error, hooks_pipe_error, hooks_delete}
use iyell.Hooks.Commands.{Launcher, HookState, run_entry, run_entries, hooks_cmd_switch}
use iyell.Hooks.Running.{WellFormed, Change-WellFormed, run_entry-Change, hooks_delete-WellFormed}

run_entries-WellFormed :
    (launch : Launcher) (list argv : List Bytes) (who : Bytes) (where' : Option Bytes)
    → (st st' : HookState) → run_entries launch list argv who where' st ≡ ok st'
    → WellFormed st.ghook
    → WellFormed st'.ghook
unfolding run_entries
run_entries-WellFormed launch [] argv who where' st st' e w =
    let same : st ≡ st' = cc in rw (sym same) w
run_entries-WellFormed launch (cmd ∷ list) argv who where' st st' e w =
    let (middle, first, rest) =
      >>=-both (run_entry launch cmd argv who where' st)
        (λ s. run_entries launch list argv who where' s) e in
    run_entries-WellFormed launch list argv who where' middle st' rest
      (Change-WellFormed (run_entry-Change launch cmd argv who where' st middle first) w)

hooks_cmd_switch-WellFormed :
    (launch : Launcher) (cmd : Bytes → Option (List Bytes)) (argv : List Bytes) (who : Bytes)
    → (where' : Option Bytes) (st st' : HookState)
    → hooks_cmd_switch launch cmd argv who where' st ≡ ok st'
    → WellFormed st.ghook
    → WellFormed st'.ghook
unfolding hooks_cmd_switch
hooks_cmd_switch-WellFormed launch cmd [] who where' st st' e w = cc
hooks_cmd_switch-WellFormed launch cmd (name ∷ argv) who where' st st' e w =
    elim (Option-cases (cmd name)) [
      | inl absent ↦ ground (arith, e, absent)
      | inr (list, found) ↦
          run_entries-WellFormed launch list (name ∷ argv) who where' st st'
            (ground (arith, e, found)) w
    ]

hooks_generic_error-WellFormed :
    (what_is_zero : Bool) (h : Hook) (hs hs' : List Hook)
    → hooks_generic_error what_is_zero h hs ≡ ok hs'
    → WellFormed hs
    → WellFormed hs'
unfolding hooks_generic_error hooks_oneshot_error hooks_pipe_error
hooks_generic_error-WellFormed what_is_zero h hs hs' e w =
    let either : (hs ≡ hs') ⊎ ((hooks_delete hs h.address).1 ≡ hs') = ground (arith, e) in
    elim either [
      | inl same ↦ rw (sym same) w
      | inr same ↦ rw (sym same) (hooks_delete-WellFormed hs h.address w)
    ]

-- A command of a user, and an error or the end of a hook's process.
pub data HookStep (launch : Launcher) (cmd : Bytes → Option (List Bytes))
    : List Hook → List Hook → Type 0 where
  command :
      (argv : List Bytes) (who : Bytes) (where' : Option Bytes) (st st' : HookState)
      → hooks_cmd_switch launch cmd argv who where' st ≡ ok st'
      → HookStep launch cmd st.ghook st'.ghook
  error :
      (what_is_zero : Bool) (h : Hook) (hs hs' : List Hook)
      → hooks_generic_error what_is_zero h hs ≡ ok hs'
      → HookStep launch cmd hs hs'

pub data Reach (launch : Launcher) (cmd : Bytes → Option (List Bytes)) (start : List Hook)
    : List Hook → Type 0 where
  here : Reach launch cmd start start
  next :
      {hs hs' : List Hook}
      → Reach launch cmd start hs
      → HookStep launch cmd hs hs'
      → Reach launch cmd start hs'

HookStep-WellFormed :
    {launch : Launcher} {cmd : Bytes → Option (List Bytes)} {hs hs' : List Hook}
    → HookStep launch cmd hs hs'
    → WellFormed hs
    → WellFormed hs'
HookStep-WellFormed (command argv who where' st st' e) w =
    hooks_cmd_switch-WellFormed _ _ argv who where' st st' e w
HookStep-WellFormed (error what_is_zero h hs hs' e) w =
    hooks_generic_error-WellFormed what_is_zero h hs hs' e w

-- In every list of hooks that commands, errors and ends of processes lead to from the empty list,
-- the hooks that can be written to are those of the entries with a `|`, and no two of them have the
-- same path: each pipe of the configuration runs once at most.
pub Reach-WellFormed :
    {launch : Launcher} {cmd : Bytes → Option (List Bytes)} {hs : List Hook}
    → Reach launch cmd [] hs
    → WellFormed hs
Reach-WellFormed here = tt
Reach-WellFormed (next r step) = HookStep-WellFormed step (Reach-WellFormed r)
