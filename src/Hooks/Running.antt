-- ===== src/Hooks/Running.antt =====
-- The hooks of src/iyelld/hooks.c that run: those a command leaves behind, and every list of hooks
-- that the program can come to.
use iyell.Base.{
  ℕ, Bool, true, false, ok, List, [], ◌∷◌, Option, none, some, ◌≡◌, inl, inr, refl, sym, ◌∙◌, ap,
  arith, Bool-cases, Option-cases, ◌==◌,
}
use iyell.CString.{Bytes, str_eq}
use iyell.CString.Split.{str_eq_iff}
use iyell.Hooks.{
  Hook, hooks_search, hooks_delete, hooks_add, hooks_mangle_oneshot_argv, starts_with,
}
use iyell.Hooks.Commands.{
  Launcher, HookState, hooks_cmd_pipe, hooks_cmd_oneshot, send_to_hook, exec_of, run_entry,
  after_pipe, start_pipe, start_oneshot,
}

-- The hooks with a writing end are the pipes, and no two pipes have one path.
abbrev pub WellFormed : List Hook → Type 0
WellFormed [] = Unit
WellFormed (h ∷ next) =
    (h.has_write ≡ starts_with b'|' h.path)
    × ((h.has_write ≡ true → hooks_search next h.path ≡ none) × WellFormed next)

-- A hook that is found has the path.
hooks_search-path :
    (hs : List Hook) (path : Bytes) (h : Hook) → hooks_search hs path ≡ some h → h.path ≡ path
unfolding hooks_search
hooks_search-path [] path h e = cc
hooks_search-path (x ∷ hs) path h e = elim (Bool-cases (str_eq x.path path)) [
  | inl hit ↦
      let same : x ≡ h = ground (arith, e, hit) in
      ap (λ (y : Hook). y.path) (sym same) ∙ (str_eq_iff x.path path).0 hit
  | inr miss ↦ hooks_search-path hs path h (ground (arith, e, miss))
]

pub hooks_search-pipe :
    (hs : List Hook) (path : Bytes) (h : Hook)
    → WellFormed hs
    → hooks_search hs path ≡ some h
    → h.has_write ≡ starts_with b'|' path
unfolding hooks_search
hooks_search-pipe [] path h w e = cc
hooks_search-pipe (x ∷ hs) path h w e = elim (Bool-cases (str_eq x.path path)) [
  | inl hit ↦
      let same : x ≡ h = ground (arith, e, hit) in
      rw (sym same) (w.0 ∙ ap (starts_with b'|') ((str_eq_iff x.path path).0 hit))
  | inr miss ↦ hooks_search-pipe hs path h w.1.1 (ground (arith, e, miss))
]

-- Deleting a node does not bring a path into the list.
search-hooks_delete :
    (hs : List Hook) (trash : ℕ) (path : Bytes)
    → hooks_search hs path ≡ none
    → hooks_search (hooks_delete hs trash).1 path ≡ none
unfolding hooks_search hooks_delete
search-hooks_delete [] trash path e = refl
search-hooks_delete (x ∷ hs) trash path e =
    let miss : str_eq x.path path ≡ false = ground (arith, e) in
    let rest : hooks_search hs path ≡ none = ground (arith, e) in
    let deleted = search-hooks_delete hs trash path rest in ground (arith, miss, rest, deleted)

pub hooks_delete-WellFormed :
    (hs : List Hook) (trash : ℕ) → WellFormed hs → WellFormed (hooks_delete hs trash).1
unfolding hooks_delete
hooks_delete-WellFormed [] trash w = tt
hooks_delete-WellFormed (x ∷ hs) trash w = elim (Bool-cases (x.address == trash)) [
  | inl hit ↦ rw hit w.1.1
  | inr miss ↦ rw miss (
    w.0,
    (
      λ pipe. search-hooks_delete hs trash x.path (w.1.0 pipe),
      hooks_delete-WellFormed hs trash w.1.1,
    ),
  )
]

-- What running one entry does to the list: nothing, or a new hook in front, and a new pipe only
-- where there was none.
pub data Change (path : Bytes) (hs : List Hook) : List Hook → Type 0 where
  unchanged : Change path hs hs
  added :
      (address pid : ℕ) (pipe : Bool)
      → pipe ≡ starts_with b'|' path
      → (pipe ≡ true → hooks_search hs path ≡ none)
      → Change path hs (record { address = address; pid = pid; path = path; has_write = pipe } ∷ hs)

pub Change-WellFormed :
    {path : Bytes} {hs hs' : List Hook} → Change path hs hs' → WellFormed hs → WellFormed hs'
Change-WellFormed unchanged w = w
Change-WellFormed (added address pid pipe is absent) w = (is, (absent, w))

send_to_hook-Change :
    (cmd : Bytes) (h : Hook) (argv : List Bytes) (who : Bytes) (where' : Option Bytes)
    → (st st' : HookState) → send_to_hook h argv who where' st ≡ ok st'
    → st'.ghook ≡ st.ghook
unfolding send_to_hook
send_to_hook-Change cmd h argv who where' st st' e = ground (arith, e)

start_pipe-Change :
    (launch : Launcher) (cmd : Bytes) (exec argv : List Bytes) (who : Bytes)
    → (where' : Option Bytes) (st st' : HookState) → starts_with b'|' cmd ≡ true
    → hooks_search st.ghook cmd ≡ none
    → start_pipe launch cmd exec argv who where' st ≡ ok st'
    → Change cmd st.ghook st'.ghook
unfolding start_pipe hooks_cmd_pipe after_pipe send_to_hook hooks_add
start_pipe-Change launch cmd [] argv who where' st st' pipe absent e = cc
start_pipe-Change launch cmd (x ∷ exec) argv who where' st st' pipe absent e =
    elim (Option-cases (launch st.ghook cmd)) [
      | inl failed ↦ ground (arith, e, failed)
      | inr (l, started) ↦
          let same : (record { address = l.address; pid = l.pid; path = cmd; has_write = true }
                ∷ st.ghook)
              ≡ st'.ghook =
            ground (arith, e, started) in
          rw (sym same) (Change.added l.address l.pid true (sym pipe) (λ _. absent))
    ]

start_oneshot-Change :
    (launch : Launcher) (cmd : Bytes) (exec argv : List Bytes) (who : Bytes)
    → (where' : Option Bytes) (st st' : HookState) → starts_with b'|' cmd ≡ false
    → start_oneshot launch cmd exec argv who where' st ≡ ok st'
    → Change cmd st.ghook st'.ghook
unfolding start_oneshot hooks_cmd_oneshot hooks_mangle_oneshot_argv hooks_add
start_oneshot-Change launch cmd [] argv who where' st st' plain e = cc
start_oneshot-Change launch cmd (x ∷ exec) [] who where' st st' plain e =
    elim (Option-cases (launch st.ghook cmd)) [
      | inl failed ↦
          let same : st.ghook ≡ st'.ghook = ground (arith, e, failed) in
          rw (sym same) Change.unchanged
      | inr (l, started) ↦ ground (arith, e, started)
    ]
start_oneshot-Change launch cmd (x ∷ exec) (name ∷ argv) who where' st st' plain e =
    elim (Option-cases (launch st.ghook cmd)) [
      | inl failed ↦
          let same : st.ghook ≡ st'.ghook = ground (arith, e, failed) in
          rw (sym same) Change.unchanged
      | inr (l, started) ↦
          let same : (record { address = l.address; pid = l.pid; path = cmd; has_write = false }
                ∷ st.ghook)
              ≡ st'.ghook =
            ground (arith, e, started) in
          rw (sym same) (Change.added l.address l.pid false (sym plain) (λ f. cc))
    ]

pub run_entry-Change :
    (launch : Launcher) (cmd : Bytes) (argv : List Bytes) (who : Bytes) (where' : Option Bytes)
    → (st st' : HookState) → run_entry launch cmd argv who where' st ≡ ok st'
    → Change cmd st.ghook st'.ghook
unfolding run_entry
run_entry-Change launch cmd argv who where' st st' e = elim (Bool-cases (starts_with b'|' cmd)) [
  | inl pipe ↦ elim (Option-cases (hooks_search st.ghook cmd)) [
    | inl absent ↦
        start_pipe-Change launch cmd (exec_of cmd) argv who where' st st' pipe absent
          (ground (arith, e, pipe, absent))
    | inr (h, found) ↦
        rw (sym (send_to_hook-Change cmd h argv who where' st st' (ground (arith, e, pipe, found))))
          Change.unchanged
  ]
  | inr plain ↦
      start_oneshot-Change launch cmd (exec_of cmd) argv who where' st st' plain
        (ground (arith, e, plain))
]
