-- ===== src/Hooks.antt =====
-- src/iyelld/hooks.c: the list of running hooks, what is written to them and read from them.
-- A hook is a node of a linked list; the model's list has the nodes in order, and a node is known
-- by its address. `fork`, `execvp`, the pipes and the signals are not modelled.
pub mod Table
pub mod Commands
pub mod Running
pub mod Reach
pub mod Entry
pub mod Served
use iyell.Base.{
  ℕ, zero, suc, ◌+◌, Bool, true, false, not, ◌||◌, Run, ok, fault, null_pointer, out_of_bounds,
  assertion, ◌>>=◌, List, [], ◌∷◌, ◌++◌, Option, none, some, ◌==◌, if◌then◌else◌,
}
use iyell.CString.{Bytes, codes, str_eq, split}
use iyell.Event.{EvBuffer}
use iyell.Irc.{irc_cmd_privmsg, irc_send_raw}

-- `hook_t`: the address of the node, the path, and whether there is a writing end.
pub record Hook : Type 0 where
  pub address : ℕ
  pub pid : ℕ
  pub path : Bytes
  pub has_write : Bool

unfoldable pub hooks_add : List Hook → Hook → List Hook
hooks_add first new = new ∷ first

unfoldable pub hooks_count : List Hook → ℕ
hooks_count [] = 0
hooks_count (h ∷ next) = hooks_count next + 1

unfoldable pub hooks_search : List Hook → Bytes → Option Hook
hooks_search [] path = none
hooks_search (h ∷ next) path =
    let rest = hooks_search next path in if str_eq h.path path then some h else rest

-- 0, with the node unlinked, or 1.
unfoldable pub hooks_delete : List Hook → ℕ → ℕ × List Hook
hooks_delete [] trash = (1, [])
hooks_delete (current ∷ next) trash =
    let rest = hooks_delete next trash in
    if current.address == trash then (0, next) else (rest.0, current ∷ rest.1)

unfoldable pub hooks_init : List Hook → List Hook
hooks_init first = []

-- The loop pops the nodes until the list is empty.
unfoldable pub hooks_destroy : List Hook → List Hook
hooks_destroy [] = []
hooks_destroy (h ∷ next) = hooks_destroy next

-- The handlers unlink the hook and free its buffers. `bufferevent_disable(h->write, …)` wants a
-- writing end.
unfoldable pub hooks_oneshot_error : Bool → Hook → List Hook → Run (List Hook)
hooks_oneshot_error what_is_zero h ghook =
    if what_is_zero then ok ghook else ok (hooks_delete ghook h.address).1

unfoldable pub hooks_pipe_error : Hook → List Hook → Run (List Hook)
hooks_pipe_error h ghook =
    if h.has_write then ok (hooks_delete ghook h.address).1 else fault null_pointer

unfoldable pub starts_with : ℕ → Bytes → Bool
starts_with c [] = false
starts_with c (x ∷ s) = x == c

unfoldable pub hooks_generic_error : Bool → Hook → List Hook → Run (List Hook)
unfolding starts_with hooks_oneshot_error hooks_pipe_error
hooks_generic_error what_is_zero h ghook =
    if starts_with b'|' h.path
    then hooks_oneshot_error what_is_zero h ghook
    else hooks_pipe_error h ghook

-- `where` is empty in a private message.
unfoldable pub or_nothing : Option Bytes → Bytes
or_nothing none = []
or_nothing (some s) = s

-- The words with a space between them.
unfoldable pub join_words : List Bytes → Bytes
join_words [] = []
join_words (w ∷ []) = w
join_words (w ∷ v ∷ ws) = w ++ (b' ' ∷ join_words (v ∷ ws))

-- What `hooks_send` writes to the hook: "who:where:words\n".
unfoldable pub hooks_send : List Bytes → Bytes → Option Bytes → Bytes
unfolding or_nothing join_words
hooks_send argv who where' =
    who ++ (b':' ∷ (or_nothing where' ++ (b':' ∷ (join_words argv ++ (b'\n' ∷ [])))))

-- The vector of `hooks_mangle_oneshot_argv`: the command, the hook's own arguments, who, where,
-- and the words of the user.
unfoldable pub tail_of : List Bytes → List Bytes
tail_of [] = []
tail_of (x ∷ xs) = xs

unfoldable pub hooks_mangle_oneshot_argv :
    List Bytes → List Bytes → Bytes → Option Bytes → Run (List Bytes)
unfolding tail_of or_nothing
hooks_mangle_oneshot_argv exec [] who where' = fault assertion
hooks_mangle_oneshot_argv exec (cmd ∷ argv) who where' =
    ok (cmd ∷ (tail_of exec ++ (who ∷ or_nothing where' ∷ argv)))

-- Three fields, the first without what follows a `!`.
pub record Fields : Type 0 where
  pub recipient : Bytes
  pub channel : Bytes
  pub message : Bytes

unfoldable pub strip_mask : Bytes → Bytes
strip_mask s = (split (codes "!") s).0

unfoldable pub fields_of : Bytes → Bytes × Option Bytes → Option Fields
fields_of recipient (channel, none) = none
fields_of recipient (channel, some []) = none
fields_of recipient (channel, some (c ∷ message)) =
    some (record { recipient = strip_mask recipient; channel = channel; message = c ∷ message })

unfoldable pub after_recipient : Bytes × Option Bytes → Option Fields
unfolding fields_of strip_mask
after_recipient (recipient, none) = none
after_recipient (recipient, some s) = fields_of recipient (split (codes ":") s)

-- The loop over the line puts a zero at the first two colons.
unfoldable pub line_fields : Bytes → Option Fields
unfolding after_recipient
line_fields line = after_recipient (split (codes ":") line)

module _ {B : Type 0} ⦃ev : EvBuffer B⦄ where
  unfoldable pub reply : B → Bytes → Bytes → Bytes → B
  reply out recipient [] message = irc_cmd_privmsg out recipient message
  reply out [] (c ∷ channel) message = irc_cmd_privmsg out (c ∷ channel) message
  reply out (r ∷ recipient) (c ∷ channel) message = irc_send_raw out (
      codes "PRIVMSG "
      ++ ((c ∷ channel) ++ (codes " :" ++ ((r ∷ recipient) ++ (codes ": " ++ message)))))

  unfoldable pub normal_data : B → Option Fields → Bool × B
  unfolding reply
  normal_data out none = (false, out)
  normal_data out (some f) = (true, reply out f.recipient f.channel f.message)

  -- 0 is `true`, and -1 `false`.
  unfoldable pub hooks_parse_cmd : Bytes → B → Bool × B
  unfolding normal_data line_fields
  hooks_parse_cmd [] out = (false, out)
  hooks_parse_cmd (c ∷ []) out = if c == 1 then (false, irc_send_raw out []) else (false, out)
  hooks_parse_cmd (c ∷ d ∷ line) out =
      if c == 1
      then (true, irc_send_raw out (d ∷ line))
      else normal_data out (line_fields (c ∷ d ∷ line))
