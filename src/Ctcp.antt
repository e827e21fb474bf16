-- ===== src/Ctcp.antt =====
-- src/iyelld/ctcp.c: client-to-client requests.
pub mod Reply
use Prim.Native.Nat.{◌^◌}
use iyell.Base.{
  ℕ, ◌-◌, ◌%◌, Bool, true, false, not, ◌||◌, Run, ok, fault, null_pointer, ◌>>=◌, List, [], ◌∷◌,
  ◌++◌, Option, none, some, ◌==◌, leb, if◌then◌else◌, length,
}
use iyell.CString.{Bytes, codes, str_eq, has_prefix, split, strsep}
use iyell.Conf.{Conf, hash_text_get_first}
use iyell.Daemon.{Daemon}
use iyell.Event.{EvBuffer}
use iyell.Irc.{deref}
use iyell.Number.{decimal}

-- `strstr(line, text) != NULL`
unfoldable pub contains_text : Bytes → Bytes → Bool
contains_text text [] = has_prefix text []
contains_text text (c ∷ line) = has_prefix text (c ∷ line) || contains_text text line

-- What `ctcp_parse` finds in a line: the sender, the command and its arguments.
pub record Request : Type 0 where
  pub from : Bytes
  pub cmd : Bytes
  pub args : Option Bytes

-- `from` is read after `strsep` has put a zero behind the command: the text up to there.
unfoldable pub request : Bytes → Bytes → Bytes × Option Bytes → Request
request line_before mark (cmd, rest) = record {
  from = (split (codes "!") (line_before ++ (mark ++ cmd))).0;
  cmd = cmd;
  args = (strsep (1 ∷ []) rest).0;
}

-- Behind the first byte 1. At the end of the line the pointer stays on that byte.
unfoldable pub from_mark : Bytes → Option Bytes → Option Request
unfolding request
from_mark before none = none
from_mark before (some []) = some (request before [] ([], some []))
from_mark before (some (c ∷ s)) = some (request before (1 ∷ []) (split (b' ' ∷ 1 ∷ []) (c ∷ s)))

-- The line has the mark, as `irc_parse` has seen.
unfoldable pub ctcp_request_of : Bytes → Option Request
unfolding from_mark contains_text
ctcp_request_of line =
    let r = split (1 ∷ []) line in
    if contains_text (codes "PRIVMSG") line then from_mark r.0 r.1 else none

unfoldable pub ping_text : Option Bytes → Bytes
ping_text none = codes "PING"
ping_text (some args) = if leb (length args) 1 then codes "PING" else codes "PING " ++ args

-- The time as an `unsigned int`; -1 is the largest.
unfoldable pub unsigned_time : Option ℕ → Bytes
unsigned_time none = decimal (2 ^ 32 - 1)
unsigned_time (some t) = decimal (t % 2 ^ 32)

module _ {B : Type 0} ⦃ev : EvBuffer B⦄ where
  open ev use {evbuffer_add}

  unfoldable pub ctcp_request : B → Bytes → Bytes → B
  ctcp_request out dest message =
      let out₁ = evbuffer_add (evbuffer_add out (codes "PRIVMSG ")) dest in
      let out₂ = evbuffer_add out₁ (b' ' ∷ b':' ∷ 1 ∷ []) in
      evbuffer_add (evbuffer_add out₂ message) (1 ∷ b'\n' ∷ [])

  unfoldable pub ctcp_reply : B → Bytes → Bytes → B
  ctcp_reply out dest message =
      let out₁ = evbuffer_add (evbuffer_add out (codes "NOTICE ")) dest in
      let out₂ = evbuffer_add out₁ (b' ' ∷ b':' ∷ 1 ∷ []) in
      evbuffer_add (evbuffer_add out₂ message) (1 ∷ b'\n' ∷ [])

  unfoldable pub ctcp_cmd_clientinfo : Bytes → Option Bytes → Daemon B → Daemon B
  ctcp_cmd_clientinfo from args d = record d {
    ircout = ctcp_reply d.ircout from (codes "CTCPINFO PING VERSION TIME USERINFO CLIENTINFO");
  }

  unfoldable pub ctcp_cmd_ping : Bytes → Option Bytes → Daemon B → Daemon B
  unfolding ping_text
  ctcp_cmd_ping from args d = record d { ircout = ctcp_reply d.ircout from (ping_text args) }

  unfoldable pub ctcp_self_ping : Conf → B → Run B
  unfolding deref
  ctcp_self_ping conf out = do
    to ← deref (hash_text_get_first conf.global (codes "nick"))
    ok (ctcp_request out to (codes "PING"))

  -- `%u` of the time as an `unsigned int`
  unfoldable pub ctcp_cmd_time : Bytes → Option Bytes → Daemon B → Daemon B
  ctcp_cmd_time from args d = record d {
    ircout = ctcp_reply d.ircout from (codes "TIME " ++ unsigned_time d.env.time);
  }

  unfoldable pub ctcp_cmd_userinfo : Bytes → Option Bytes → Daemon B → Daemon B
  ctcp_cmd_userinfo from args d = record d {
    ircout = ctcp_reply d.ircout from (codes "USERINFO iyell, bot");
  }

  -- `version` is the text of the macro, which src/include/main.h sets where the build does not.
  unfoldable pub ctcp_cmd_version : Bytes → Bytes → Option Bytes → Daemon B → Daemon B
  ctcp_cmd_version version from args d = elim d.env.uname [
    | none ↦ d
    | some (sysname, release, machine) ↦ record d {
      ircout = ctcp_reply d.ircout from (
          codes "VERSION iyell v"
          ++ (version
              ++ (codes " - running on "
                  ++ (sysname ++ (codes " " ++ (release ++ (codes " / " ++ machine)))))));
    }
  ]

  -- `ctcp_cmd`, the table of commands
  unfoldable pub dispatch : Request → Daemon B → Daemon B
  unfolding ctcp_cmd_clientinfo ctcp_cmd_ping ctcp_cmd_time ctcp_cmd_userinfo ctcp_cmd_version
  dispatch r d =
      if str_eq (codes "CLIENTINFO") r.cmd
      then ctcp_cmd_clientinfo r.from r.args d
      else if str_eq (codes "PING") r.cmd
      then ctcp_cmd_ping r.from r.args d
      else if str_eq (codes "TIME") r.cmd
      then ctcp_cmd_time r.from r.args d
      else if str_eq (codes "USERINFO") r.cmd
      then ctcp_cmd_userinfo r.from r.args d
      else if str_eq (codes "VERSION") r.cmd
      then ctcp_cmd_version (codes "0.7.0") r.from r.args d
      else d

  unfoldable pub ctcp_parse : Bytes → Daemon B → Daemon B
  unfolding dispatch ctcp_request_of
  ctcp_parse line d = elim (ctcp_request_of line) [ none ↦ d | some r ↦ dispatch r d ]
