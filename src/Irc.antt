-- ===== src/Irc.antt =====
-- src/iyelld/irc.c: the commands that are written to the server, one line each.
pub mod Lines
use iyell.Base.{
  ℕ, Run, ok, fault, null_pointer, ◌>>=◌, List, [], ◌∷◌, Option, none, some, ◌==◌, if◌then◌else◌,
}
use iyell.CString.{Bytes, codes}
use iyell.Conf.{Conf, hash_text_get_first}
use iyell.Event.{EvBuffer}

-- `strlen(p)` and a read of `*p` want a string.
unfoldable pub deref : Option Bytes → Run Bytes
deref none = fault null_pointer
deref (some s) = ok s

-- `if (*str == ':') str++;`
unfoldable pub skip_colon : Bytes → Bytes
skip_colon [] = []
skip_colon (c ∷ s) = if c == b':' then s else c ∷ s

unfoldable pub quit_text : Conf → Option Bytes → Option Bytes
quit_text conf (some message) = some message
quit_text conf none = hash_text_get_first conf.global (codes "quit_message")

unfoldable pub or_default : Bytes → Option Bytes → Bytes
or_default d none = d
or_default d (some s) = s

unfoldable pub user_name : Conf → Option Bytes → Bytes
unfolding or_default
user_name conf (some user) = user
user_name conf none =
    or_default (codes "iyell") (hash_text_get_first conf.global (codes "username"))

module _ {B : Type 0} ⦃ev : EvBuffer B⦄ where
  open ev use {evbuffer_add}

  unfoldable pub irc_cmd_nick : Conf → B → Option Bytes → Run B
  unfolding deref
  irc_cmd_nick conf out none = do
    tmp ← deref (hash_text_get_first conf.global (codes "nick"))
    ok (evbuffer_add (evbuffer_add (evbuffer_add out (codes "NICK ")) tmp) (codes "\n"))
  irc_cmd_nick conf out (some nick) =
      ok (evbuffer_add (evbuffer_add (evbuffer_add out (codes "NICK ")) nick) (codes "\n"))

  unfoldable pub irc_cmd_notice : B → Bytes → Bytes → B
  irc_cmd_notice out dest message =
      let out₁ = evbuffer_add (evbuffer_add out (codes "NOTICE ")) dest in
      evbuffer_add (evbuffer_add (evbuffer_add out₁ (codes " :")) message) (codes "\n")

  unfoldable pub irc_cmd_part : B → Bytes → B
  irc_cmd_part out channel =
      evbuffer_add (evbuffer_add (evbuffer_add out (codes "PART ")) channel) (codes "\n")

  unfoldable pub irc_cmd_ping : B → Bytes → B
  irc_cmd_ping out target =
      evbuffer_add (evbuffer_add (evbuffer_add out (codes "PING ")) target) (codes "\n")

  unfoldable pub irc_cmd_pass : Conf → B → B
  irc_cmd_pass conf out = elim (hash_text_get_first conf.global (codes "pass")) [
    | none ↦ out
    | some tmp ↦ evbuffer_add (evbuffer_add (evbuffer_add out (codes "PASS ")) tmp) (codes "\n")
  ]

  unfoldable pub irc_cmd_pong : B → Option Bytes → Run B
  unfolding deref skip_colon
  irc_cmd_pong out str = do
    s ← deref str
    ok (evbuffer_add (evbuffer_add (evbuffer_add out (codes "PONG ")) (skip_colon s)) (codes "\n"))

  unfoldable pub irc_cmd_privmsg : B → Bytes → Bytes → B
  irc_cmd_privmsg out dest message =
      let out₁ = evbuffer_add (evbuffer_add out (codes "PRIVMSG ")) dest in
      evbuffer_add (evbuffer_add (evbuffer_add out₁ (codes " :")) message) (codes "\n")

  add_trailing : B → Option Bytes → B
  add_trailing out none = out
  add_trailing out (some message) = evbuffer_add (evbuffer_add out (codes " :")) message

  unfoldable pub irc_cmd_quit : Conf → B → Option Bytes → B
  unfolding quit_text add_trailing
  irc_cmd_quit conf out message =
      evbuffer_add (add_trailing (evbuffer_add out (codes "QUIT")) (quit_text conf message))
        (codes "\n")

  unfoldable pub irc_cmd_user : Conf → B → Option Bytes → B
  unfolding user_name
  irc_cmd_user conf out user =
      let out₁ = evbuffer_add (evbuffer_add out (codes "USER ")) (user_name conf user) in
      elim (hash_text_get_first conf.global (codes "realname")) [
        | none ↦ evbuffer_add out₁ (codes " 0 * :iyell\n")
        | some tmp ↦
            evbuffer_add (evbuffer_add (evbuffer_add out₁ (codes " 0 * :")) tmp) (codes "\n")
      ]

  -- The loop over `tmp[i]`, with a comma after each channel but the last.
  unfoldable pub add_channels : B → List Bytes → B
  add_channels out [] = out
  add_channels out (x ∷ []) = evbuffer_add out x
  add_channels out (x ∷ y ∷ tmp) =
      add_channels (evbuffer_add (evbuffer_add out x) (codes ",")) (y ∷ tmp)

  join_all : B → Option (List Bytes) → B
  unfolding add_channels
  join_all out none = out
  join_all out (some []) = out
  join_all out (some (x ∷ tmp)) =
      evbuffer_add (add_channels (evbuffer_add out (codes "JOIN ")) (x ∷ tmp)) (codes "\n")

  unfoldable pub irc_cmd_join : Conf → B → Option Bytes → B
  unfolding join_all
  irc_cmd_join conf out none = join_all out (conf.global (codes "channels"))
  irc_cmd_join conf out (some channel) =
      evbuffer_add (evbuffer_add (evbuffer_add out (codes "JOIN ")) channel) (codes "\n")

  unfoldable pub irc_send_raw : B → Bytes → B
  irc_send_raw out str = evbuffer_add (evbuffer_add out str) (codes "\n")

  unfoldable pub send_all : B → List Bytes → B
  unfolding irc_send_raw
  send_all out [] = out
  send_all out (x ∷ tmp) = send_all (irc_send_raw out x) tmp

  perform : B → Option (List Bytes) → B
  unfolding send_all
  perform out none = out
  perform out (some tmp) = send_all out tmp

  unfoldable pub irc_send_helo : Conf → B → Run B
  unfolding perform irc_cmd_nick irc_cmd_user irc_cmd_pass
  irc_send_helo conf out = do
    out₁ ← irc_cmd_nick conf (irc_cmd_pass conf out) none
    ok (perform (irc_cmd_user conf out₁ none) (conf.global (codes "perform")))
