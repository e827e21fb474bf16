-- ===== src/Quotes/Stale.antt =====
-- A line without arguments behind one with arguments, in the loop of `cmd_parse` of src/quotes/cmd.c.
use iyell.Base.{
  ℕ, suc, Bool, true, false, ok, fault, use_after_free, Fault, List, [], ◌∷◌, some, ◌≡◌, refl, ap,
  ◌∙◌, All,
}
use iyell.CString.{Bytes, contains}
use iyell.Event.{EvBuffer, evbuffer_length}
use iyell.Quotes.{
  Args, freed, kept, free_args, args_behind, Command, cmd_parse, cmd_switch, no_source,
}
use iyell.Quotes.Db.{Sqlite}
use iyell.Quotes.Replies.{Quotes}
use iyell.Quotes.Run.{read_args, run_command, run_found, run_line, run_lines}
use iyell.Quotes.Wire.{IsWord, command_of, hook_line, cmd_parse-hook_line}

-- The commands that look at their arguments.
unfoldable pub uses_args : Command → Bool
uses_args Command.add = true
uses_args Command.count = false
uses_args Command.del = true
uses_args Command.id = true
uses_args Command.info = true
uses_args Command.like = true
uses_args Command.interval = false
uses_args Command.help = false
uses_args Command.memory = false
uses_args Command.random = true
uses_args Command.search = true
uses_args Command.status = false

module _ {B : Type 0} ⦃ev : EvBuffer B⦄ (sql : Sqlite) where
  open ev use {evbuffer_readline}

  run_command-freed :
      (fp : Command) (nick channel : Bytes) (st : Quotes B)
      → uses_args fp ≡ true
      → run_command sql fp nick channel freed st ≡ fault use_after_free
  unfolding run_command read_args uses_args
  run_command-freed Command.add nick channel st h = refl
  run_command-freed Command.count nick channel st h = cc
  run_command-freed Command.del nick channel st h = refl
  run_command-freed Command.id nick channel st h = refl
  run_command-freed Command.info nick channel st h = refl
  run_command-freed Command.like nick channel st h = refl
  run_command-freed Command.interval nick channel st h = cc
  run_command-freed Command.help nick channel st h = cc
  run_command-freed Command.memory nick channel st h = cc
  run_command-freed Command.random nick channel st h = refl
  run_command-freed Command.search nick channel st h = refl
  run_command-freed Command.status nick channel st h = cc

  run_line-freed :
      (line nick channel cmd : Bytes) (fp : Command) (st : Quotes B)
      → cmd_parse freed line
        ≡ some (record { nick = nick; channel = channel; cmd = cmd; args = freed })
      → cmd_switch cmd ≡ some fp
      → uses_args fp ≡ true
      → run_line sql freed line st ≡ fault use_after_free
  unfolding run_line run_found
  run_line-freed line nick channel cmd fp st parsed found h =
      rw (parsed, run_line) rw found (run_command-freed fp nick channel st h)

  run_lines-second :
      (fuel n : ℕ) (old : Args) (line line' : Bytes) (st st' : Quotes B) (in' : B) (f : Fault)
      → run_line sql old line st ≡ ok st'
      → evbuffer_length in' ≡ suc n
      → (evbuffer_readline in').0 ≡ some line'
      → run_line sql (args_behind old (cmd_parse old line)) line' st' ≡ fault f
      → run_lines sql (suc (suc fuel)) old line st in' ≡ fault f
  unfolding run_lines
  run_lines-second fuel n old line line' st st' in' f first more next second =
      rw first rw more rw next rw second refl

  -- When a line that has arguments is followed in the buffer by one of two words, whose command looks
  -- at its arguments, this command reads those of the first line, which was freed: `args` is not
  -- reset for the second line. The first line has done its command; the words are not empty and hold
  -- no space, the senders and the channels hold no colon and are not both empty.
  pub run_lines-stale :
      (fuel n : ℕ) (old : Args) (name c w : Bytes) (words : List Bytes) (who chan : Bytes)
      → (name' c' who' chan' : Bytes) (fp : Command) (st st' : Quotes B) (in' : B)
      → All IsWord (name ∷ c ∷ w ∷ words)
      → (contains b':' who ≡ false) × (contains b':' chan ≡ false) × (no_source who chan ≡ false)
      → All IsWord (name' ∷ c' ∷ [])
      → (contains b':' who' ≡ false)
        × (contains b':' chan' ≡ false)
        × (no_source who' chan' ≡ false)
      → cmd_switch c' ≡ some fp
      → uses_args fp ≡ true
      → run_line sql old (hook_line (name ∷ c ∷ w ∷ words) who chan) st ≡ ok st'
      → evbuffer_length in' ≡ suc n
      → (evbuffer_readline in').0 ≡ some (hook_line (name' ∷ c' ∷ []) who' chan')
      → run_lines sql (suc (suc fuel)) old (hook_line (name ∷ c ∷ w ∷ words) who chan) st in'
        ≡ fault use_after_free
  unfolding kept free_args args_behind command_of
  run_lines-stale fuel n old name c w words who chan name' c' who' chan' fp st st' in' solid plain
        solid' plain' found h first more next =
      let argv = name ∷ c ∷ w ∷ words in
      let line = hook_line argv who chan in
      let line' = hook_line (name' ∷ c' ∷ []) who' chan' in
      let parsed = cmd_parse-hook_line old argv who chan solid (λ e. cc) plain.0 plain.1 plain.2 in
      let parsed' =
        cmd_parse-hook_line freed (name' ∷ c' ∷ []) who' chan' solid' (λ e. cc) plain'.0 plain'.1
          plain'.2 in
      let stale : args_behind old (cmd_parse old line) ≡ freed = ap (args_behind old) parsed in
      run_lines-second fuel n old line line' st st' in' use_after_free first more next (
        ap (λ a. run_line sql a line' st') stale
        ∙ run_line-freed line' who' chan' c' fp st' parsed' found h)
