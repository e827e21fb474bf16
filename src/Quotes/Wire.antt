-- ===== src/Quotes/Wire.antt =====
-- What src/iyelld/hooks.c writes to the hook program, and what src/quotes/cmd.c reads.
use iyell.Base.{
  ℕ, true, false, List, [], ◌∷◌, ◌++◌, Option, none, some, ◌≡◌, ◌≢◌, refl, sym, ◌∙◌, ap, arith, All,
  append_assoc, append-nil,
}
use iyell.CString.{Bytes, codes, contains, split}
use iyell.CString.Split.{Free-one, split-Free, split-Free_end}
use iyell.Hooks.{hooks_send, join_words, or_nothing}
use iyell.Quotes.{Args, kept, cmd_parse, skip_spaces, skip_word, split_command, no_source}

-- A word of a command, as `strtok` makes them: it is not empty and holds no space.
pub record IsWord (w : Bytes) : Type 0 where
  pub solid : contains b' ' w ≡ false
  pub filled : w ≢ []

-- What the words come to: the first is the name of the hook, the second the command.
unfoldable pub command_of : List Bytes → Bytes × Option Bytes
command_of [] = ([], none)
command_of (name ∷ []) = ([], none)
command_of (name ∷ cmd ∷ []) = (cmd, none)
command_of (name ∷ cmd ∷ w ∷ args) = (cmd, some (join_words (w ∷ args)))

skip_word-solid :
    (w rest : Bytes) → contains b' ' w ≡ false → skip_word (w ++ (b' ' ∷ rest)) ≡ b' ' ∷ rest
unfolding skip_word contains
skip_word-solid [] rest h = refl
skip_word-solid (c ∷ w) rest h = ground (arith, skip_word-solid w rest)

skip_word-end : (w : Bytes) → contains b' ' w ≡ false → skip_word w ≡ []
unfolding skip_word contains
skip_word-end [] h = refl
skip_word-end (c ∷ w) h = ground (arith, skip_word-end w)

skip_spaces-IsWord : (w rest : Bytes) → IsWord w → skip_spaces (w ++ rest) ≡ w ++ rest
unfolding skip_spaces contains
skip_spaces-IsWord [] rest h = absurd (h.filled refl)
skip_spaces-IsWord (c ∷ w) rest h = let solid = h.solid in ground arith

skip_spaces_word : (w : Bytes) → IsWord w → skip_spaces w ≡ w
skip_spaces_word w h =
    ap skip_spaces (sym (append-nil w)) ∙ skip_spaces-IsWord w [] h ∙ append-nil w

-- Behind the name of the hook and the space, the text is split at its first space.
split_command-name :
    (name text : Bytes)
    → IsWord name
    → split_command (name ++ (b' ' ∷ text)) ≡ split (codes " ") (skip_spaces text)
unfolding split_command
split_command-name name text h =
    rw (skip_spaces-IsWord name (b' ' ∷ text) h, skip_word-solid name text h.solid)
      (unfold skip_spaces in refl)

-- The command line is taken apart into the words that were joined.
split_command-join_words :
    (argv : List Bytes)
    → All IsWord argv
    → argv ≢ []
    → split_command (join_words argv) ≡ command_of argv
unfolding join_words command_of
split_command-join_words [] h ne = absurd (ne refl)
split_command-join_words (name ∷ []) h ne =
    unfold split_command split in
    rw (skip_spaces_word name h.0, skip_word-end name h.0.solid) (unfold skip_spaces in refl)
split_command-join_words (name ∷ cmd ∷ []) h ne =
    split_command-name name cmd h.0
    ∙ rw (skip_spaces_word cmd h.1.0)
        (split-Free_end (codes " ") cmd (Free-one b' ' cmd h.1.0.solid))
split_command-join_words (name ∷ cmd ∷ w ∷ args) h ne =
    split_command-name name _ h.0
    ∙ rw (skip_spaces-IsWord cmd (b' ' ∷ join_words (w ∷ args)) h.1.0) (
        split-Free (codes " ") cmd b' ' _ (Free-one b' ' cmd h.1.0.solid) (unfold contains in refl))

-- The line of `hooks_send` without its newline.
unfoldable pub hook_line : List Bytes → Bytes → Bytes → Bytes
hook_line argv who chan = who ++ (b':' ∷ (chan ++ (b':' ∷ join_words argv)))

hooks_send-hook_line :
    (argv : List Bytes) (who : Bytes) (where' : Option Bytes)
    → hooks_send argv who where' ≡ hook_line argv who (or_nothing where') ++ codes "\n"
unfolding hooks_send hook_line
hooks_send-hook_line argv who where' = simp append_assoc

pub join_words-filled :
    (argv : List Bytes)
    → All IsWord argv
    → argv ≢ []
    → (c : ℕ) × (t : Bytes) × (join_words argv ≡ c ∷ t)
unfolding join_words
join_words-filled [] h ne = absurd (ne refl)
join_words-filled ([] ∷ argv) h ne = absurd (h.0.filled refl)
join_words-filled ((c ∷ w) ∷ []) h ne = (c, w, refl)
join_words-filled ((c ∷ w) ∷ v ∷ argv) h ne = (c, w ++ (b' ' ∷ join_words (v ∷ argv)), refl)

-- Two fields in front of a text that is not empty.
cmd_parse-fields :
    (old : Args) (nick chan : Bytes) (c : ℕ) (t : Bytes)
    → contains b':' nick ≡ false
    → contains b':' chan ≡ false
    → no_source nick chan ≡ false
    → cmd_parse old (nick ++ (b':' ∷ (chan ++ (b':' ∷ c ∷ t))))
      ≡ some (record {
        nick = nick;
        channel = chan;
        cmd = (split_command (c ∷ t)).0;
        args = kept old (split_command (c ∷ t)).1;
      })
cmd_parse-fields old nick chan c t n k source =
    let here : contains b':' (codes ":") ≡ true = unfold contains in refl in
    let first =
      split-Free (codes ":") nick b':' (chan ++ (b':' ∷ c ∷ t)) (Free-one b':' nick n) here in
    let second = split-Free (codes ":") chan b':' (c ∷ t) (Free-one b':' chan k) here in
    unfold cmd_parse in rw (first, second, source)

pub cmd_parse-hook_line :
    (old : Args) (argv : List Bytes) (who chan : Bytes)
    → All IsWord argv
    → argv ≢ []
    → contains b':' who ≡ false
    → contains b':' chan ≡ false
    → no_source who chan ≡ false
    → cmd_parse old (hook_line argv who chan)
      ≡ some (record {
        nick = who;
        channel = chan;
        cmd = (command_of argv).0;
        args = kept old (command_of argv).1;
      })
unfolding hook_line
cmd_parse-hook_line old argv who chan words ne w k source =
    let (c, t, e) = join_words-filled argv words ne in
    let command = rw e at (split_command-join_words argv words ne) in
    rw e (cmd_parse-fields old who chan c t w k source ∙ rw command)

-- The words of a user, the sender and the channel reach the hook: the line that `hooks_send` writes
-- ends with its only added newline, and `cmd_parse` gives back the sender, the channel (empty in
-- private), the second word as the command and the other words as its arguments; without other words
-- the arguments are what they were before the line, which is NULL for the first one. The words are
-- not empty and hold no space, the sender and the channel hold no colon and are not both empty.
pub cmd_parse-hooks_send :
    (old : Args) (argv : List Bytes) (who : Bytes) (where' : Option Bytes)
    → All IsWord argv
    → argv ≢ []
    → contains b':' who ≡ false
    → contains b':' (or_nothing where') ≡ false
    → no_source who (or_nothing where') ≡ false
    → (line : Bytes) × (hooks_send argv who where' ≡ line ++ codes "\n")
      × (cmd_parse old line
          ≡ some (record {
            nick = who;
            channel = or_nothing where';
            cmd = (command_of argv).0;
            args = kept old (command_of argv).1;
          }))
cmd_parse-hooks_send old argv who where' words ne w k source = (
  hook_line argv who (or_nothing where'),
  hooks_send-hook_line argv who where',
  cmd_parse-hook_line old argv who (or_nothing where') words ne w k source,
)
