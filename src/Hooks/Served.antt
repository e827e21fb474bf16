-- ===== src/Hooks/Served.antt =====
-- A whole command of a user in src/iyelld/hooks.c, when the processes can be started.
use iyell.Base.{
  ◌≤◌, true, ok, List, [], ◌∷◌, ◌++◌, Option, some, ◌≡◌, refl, sym, ◌∙◌, length, All, if◌then◌else◌,
  append-nil, append_assoc,
}
use iyell.CString.{Bytes}
use iyell.Hooks.{Hook, hooks_send, starts_with}
use iyell.Hooks.Commands.{Launch, Launcher, HookState, exec_of, run_entries, hooks_cmd_switch}
use iyell.Hooks.Running.{WellFormed, Change-WellFormed}
use iyell.Hooks.Entry.{Found, texts, run_entry-Ran, Found-Change}

-- A text for each pipe of the entries.
unfoldable pub copies : Bytes → List Bytes → List Bytes
copies text [] = []
copies text (cmd ∷ list) = (if starts_with b'|' cmd then text ∷ [] else []) ++ copies text list

run_entries-Ran :
    (launch : Launcher) (list : List Bytes) (name : Bytes) (argv : List Bytes) (who : Bytes)
    → (where' : Option Bytes) (st : HookState)
    → ((hs : List Hook) (path : Bytes) → (l : Launch) × (launch hs path ≡ some l))
    → All (λ cmd. 1 ≤ length (exec_of cmd)) list
    → WellFormed st.ghook
    → (st' : HookState) × (run_entries launch list (name ∷ argv) who where' st ≡ ok st')
      × WellFormed st'.ghook
      × ((path : Bytes) → Found st.ghook path → Found st'.ghook path)
      × All (λ cmd. starts_with b'|' cmd ≡ true → Found st'.ghook cmd) list
      × (texts st'.written ≡ texts st.written ++ copies (hooks_send (name ∷ argv) who where') list)
unfolding run_entries copies
run_entries-Ran launch [] name argv who where' st launches words w =
    (st, refl, w, λ path f. f, tt, sym (append-nil (texts st.written)))
run_entries-Ran launch (cmd ∷ list) name argv who where' st launches words w =
    let (st₁, first, ran) = run_entry-Ran launch cmd name argv who where' st launches words.0 w in
    let (st₂, rest, w', keeps, found, wrote) =
      run_entries-Ran launch list name argv who where' st₁ launches words.1
        (Change-WellFormed ran.change w) in
    (
      st₂,
      rw first rest,
      w',
      λ path f. keeps path (Found-Change path ran.change f),
      (λ pipe. keeps cmd (ran.running pipe), found),
      wrote ∙ rw ran.wrote (append_assoc (texts st.written) _ _),
    )

-- A command whose entries have a word each, while processes can be started and the list of hooks is
-- a well-formed one, ends well: a hook runs behind it for each entry that is a pipe, one that was
-- running already or a new one, the list is well-formed again, and the line of the command was
-- written once for each such entry.
pub hooks_cmd_switch-Serves :
    (launch : Launcher) (cmd : Bytes → Option (List Bytes)) (list : List Bytes)
    → (name : Bytes) (argv : List Bytes) (who : Bytes) (where' : Option Bytes) (st : HookState)
    → ((hs : List Hook) (path : Bytes) → (l : Launch) × (launch hs path ≡ some l))
    → cmd name ≡ some list
    → All (λ entry. 1 ≤ length (exec_of entry)) list
    → WellFormed st.ghook
    → (st' : HookState) × (hooks_cmd_switch launch cmd (name ∷ argv) who where' st ≡ ok st')
      × WellFormed st'.ghook
      × All (λ entry. starts_with b'|' entry ≡ true → Found st'.ghook entry) list
      × (texts st'.written ≡ texts st.written ++ copies (hooks_send (name ∷ argv) who where') list)
unfolding hooks_cmd_switch
hooks_cmd_switch-Serves launch cmd list name argv who where' st launches known words w =
    let (st', run, w', keeps, found, wrote) =
      run_entries-Ran launch list name argv who where' st launches words w in
    (st', rw (known, hooks_cmd_switch) run, w', found, wrote)
