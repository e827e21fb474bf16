-- ===== src/Hooks/Entry.antt =====
-- One entry of the configuration, as src/iyelld/hooks.c runs it when a process can be started.
use iyell.Base.{
  ◌≤◌, true, false, ok, List, [], ◌∷◌, ◌++◌, Option, none, some, ◌≡◌, inl, inr, refl, sym, ◌∙◌, ap,
  arith, length, Bool-cases, Option-cases, if◌then◌else◌, append-nil,
}
use iyell.CString.{Bytes, str_eq}
use iyell.CString.Split.{str_eq_refl}
use iyell.Hooks.{
  Hook, hooks_search, hooks_send, hooks_mangle_oneshot_argv, hooks_add, starts_with, tail_of,
  or_nothing,
}
use iyell.Hooks.Commands.{
  Launch, Launcher, HookState, Written, send_to_hook, exec_of, run_entry, hooks_cmd_pipe,
  hooks_cmd_oneshot, after_pipe, start_pipe, start_oneshot,
}
use iyell.Hooks.Running.{WellFormed, Change, run_entry-Change, hooks_search-pipe}

-- A hook runs for the path.
abbrev pub Found : List Hook → Bytes → Type 0
Found hs path = (h : Hook) × (hooks_search hs path ≡ some h)

-- What was written, without the addresses.
abbrev pub texts : List Written → List Bytes
texts [] = []
texts (w ∷ ws) = w.text ∷ texts ws

texts-append : (ws vs : List Written) → texts (ws ++ vs) ≡ texts ws ++ texts vs
texts-append [] vs = refl
texts-append (w ∷ ws) vs = ap (◌∷◌ w.text) (texts-append ws vs)

-- What one entry comes to, when a process can be started.
pub record Ran (cmd text : Bytes) (st st' : HookState) : Type 0 where
  pub change : Change cmd st.ghook st'.ghook
  pub running : starts_with b'|' cmd ≡ true → Found st'.ghook cmd
  pub wrote :
      texts st'.written ≡ texts st.written ++ (if starts_with b'|' cmd then text ∷ [] else [])

Ran-sent :
    (cmd : Bytes) (argv : List Bytes) (who : Bytes) (where' : Option Bytes) (h : Hook)
    → (st : HookState) → starts_with b'|' cmd ≡ true
    → h.has_write ≡ true
    → (st' : HookState) × (send_to_hook h argv who where' st ≡ ok st')
      × (st'.ghook ≡ st.ghook)
      × (texts st'.written
          ≡ texts st.written
            ++ (if starts_with b'|' cmd then hooks_send argv who where' ∷ [] else []))
unfolding send_to_hook
Ran-sent cmd argv who where' h st pipe writable = (
  record st {
    written =
        st.written ++ (record { address = h.address; text = hooks_send argv who where' } ∷ []);
  },
  rw writable refl,
  refl,
  rw pipe (texts-append st.written _),
)

oneshot-Ran :
    (launch : Launcher) (cmd name text x : Bytes) (argv exec : List Bytes) (who : Bytes)
    → (where' : Option Bytes) (st : HookState) → starts_with b'|' cmd ≡ false
    → (st' : HookState) × (start_oneshot launch cmd (x ∷ exec) (name ∷ argv) who where' st ≡ ok st')
      × (texts st'.written ≡ texts st.written ++ (if starts_with b'|' cmd then text ∷ [] else []))
unfolding start_oneshot hooks_cmd_oneshot hooks_mangle_oneshot_argv hooks_add
oneshot-Ran launch cmd name text x argv exec who where' st plain =
    elim (Option-cases (launch st.ghook cmd)) [
      | inl failed ↦
          (st, rw (failed, hooks_cmd_oneshot) refl, rw plain (sym (append-nil (texts st.written))))
      | inr (l, started) ↦ (
        record st {
          ghook =
              record { address = l.address; pid = l.pid; path = cmd; has_write = false } ∷ st.ghook;
          executed =
              st.executed
              ++ ((name ∷ (tail_of (x ∷ exec) ++ (who ∷ or_nothing where' ∷ argv))) ∷ []);
        },
        rw (started, hooks_cmd_oneshot) refl,
        rw plain (sym (append-nil (texts st.written))),
      )
    ]

pipe-Ran :
    (launch : Launcher) (cmd x : Bytes) (argv exec : List Bytes) (who : Bytes)
    → (where' : Option Bytes) (st : HookState) (l : Launch) → starts_with b'|' cmd ≡ true
    → launch st.ghook cmd ≡ some l
    → (st' : HookState) × (start_pipe launch cmd (x ∷ exec) argv who where' st ≡ ok st')
      × Found st'.ghook cmd
      × (texts st'.written
          ≡ texts st.written
            ++ (if starts_with b'|' cmd then hooks_send argv who where' ∷ [] else []))
unfolding start_pipe hooks_cmd_pipe after_pipe send_to_hook hooks_search hooks_add
pipe-Ran launch cmd x argv exec who where' st l pipe started =
    let h : Hook = record { address = l.address; pid = l.pid; path = cmd; has_write = true } in
    (
      record st {
        ghook = h ∷ st.ghook;
        executed = st.executed ++ ((x ∷ exec) ∷ []);
        written =
            st.written ++ (record { address = l.address; text = hooks_send argv who where' } ∷ []);
      },
      rw (started, hooks_cmd_pipe) refl,
      (h, rw (str_eq_refl cmd) refl),
      rw pipe (texts-append st.written _),
    )

some_words : (xs : List Bytes) → 1 ≤ length xs → (x : Bytes) × (r : List Bytes) × (xs ≡ x ∷ r)
some_words [] h = ground (arith, h)
some_words (x ∷ r) h = (x, r, refl)

module _ (launch : Launcher) (cmd : Bytes) (argv : List Bytes) (who : Bytes) (where' : Option Bytes)
    (st : HookState) where
  run_entry-found :
      (h : Hook)
      → starts_with b'|' cmd ≡ true
      → hooks_search st.ghook cmd ≡ some h
      → run_entry launch cmd argv who where' st ≡ send_to_hook h argv who where' st
  unfolding run_entry
  run_entry-found h pipe found = ground (arith, pipe, found)

  run_entry-absent :
      (exec : List Bytes)
      → starts_with b'|' cmd ≡ true
      → hooks_search st.ghook cmd ≡ none
      → exec_of cmd ≡ exec
      → run_entry launch cmd argv who where' st ≡ start_pipe launch cmd exec argv who where' st
  unfolding run_entry
  run_entry-absent exec pipe absent is = ground (arith, pipe, absent, is)

  run_entry-plain :
      (exec : List Bytes)
      → starts_with b'|' cmd ≡ false
      → exec_of cmd ≡ exec
      → run_entry launch cmd argv who where' st ≡ start_oneshot launch cmd exec argv who where' st
  unfolding run_entry
  run_entry-plain exec plain is = ground (arith, plain, is)

pub run_entry-Ran :
    (launch : Launcher) (cmd name : Bytes) (argv : List Bytes) (who : Bytes)
    → (where' : Option Bytes) (st : HookState)
    → ((hs : List Hook) (path : Bytes) → (l : Launch) × (launch hs path ≡ some l))
    → 1 ≤ length (exec_of cmd)
    → WellFormed st.ghook
    → (st' : HookState) × (run_entry launch cmd (name ∷ argv) who where' st ≡ ok st')
      × Ran cmd (hooks_send (name ∷ argv) who where') st st'
run_entry-Ran launch cmd name argv who where' st launches words w =
    let (x, exec, is) = some_words (exec_of cmd) words in
    let (l, started) = launches st.ghook cmd in
    let run = run_entry-Change launch cmd (name ∷ argv) who where' st in
    elim (Bool-cases (starts_with b'|' cmd)) [
      | inl pipe ↦ elim (Option-cases (hooks_search st.ghook cmd)) [
        | inl absent ↦
            let (st', e, found, wrote) =
              pipe-Ran launch cmd x (name ∷ argv) exec who where' st l pipe started in
            let whole : run_entry launch cmd (name ∷ argv) who where' st ≡ ok st' =
              run_entry-absent launch cmd (name ∷ argv) who where' st (x ∷ exec) pipe absent is
              ∙ e in
            (st', whole, record { change = run st' whole; running = λ _. found; wrote = wrote })
        | inr (h, found) ↦
            let writable = hooks_search-pipe st.ghook cmd h w found ∙ pipe in
            let (st', e, same, wrote) = Ran-sent cmd (name ∷ argv) who where' h st pipe writable in
            let whole : run_entry launch cmd (name ∷ argv) who where' st ≡ ok st' =
              run_entry-found launch cmd (name ∷ argv) who where' st h pipe found ∙ e in
            (
              st',
              whole,
              record { change = run st' whole; running = λ _. (h, rw same found); wrote = wrote },
            )
      ]
      | inr plain ↦
          let (st', e, wrote) =
            oneshot-Ran launch cmd name (hooks_send (name ∷ argv) who where') x argv exec who where'
              st plain in
          let whole : run_entry launch cmd (name ∷ argv) who where' st ≡ ok st' =
            run_entry-plain launch cmd (name ∷ argv) who where' st (x ∷ exec) plain is ∙ e in
          (st', whole, record { change = run st' whole; running = λ pipe. cc; wrote = wrote })
    ]

pub Found-Change :
    {cmd : Bytes} {hs hs' : List Hook} (path : Bytes)
    → Change cmd hs hs'
    → Found hs path
    → Found hs' path
unfolding hooks_search
Found-Change path Change.unchanged f = f
Found-Change {cmd} {hs} path (Change.added address pid pipe is absent) (h, f) =
    elim (Bool-cases (str_eq cmd path)) [
      | inl hit ↦
          (record { address = address; pid = pid; path = cmd; has_write = pipe }, rw hit refl)
      | inr miss ↦ (h, rw miss f)
    ]
