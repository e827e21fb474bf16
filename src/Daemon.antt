-- ===== src/Daemon.antt =====
-- The state of iyelld: src/include/main.h, src/include/stats.h and the globals of
-- src/iyelld/network.c, with the timers that src/iyelld/sched.c registers.
pub mod Sched
pub mod Settled
use iyell.Base.{ℕ, Bool, List, Option}
use iyell.Base.Int.{ℤ}
use iyell.CString.{Bytes}
use iyell.Conf.{Conf}

-- `g_mode`: a field for each flag. Every flag is a bit of its own, so `|=`, `&= ~` and `&` with
-- one flag are a write and a read of its field.
pub record Mode : Type 0 where
  pub is_daemon : Bool
  pub verbose : Bool
  pub use_ssl : Bool
  pub starting : Bool
  pub shutdown : Bool
  pub connected : Bool
  pub nickused : Bool
  pub banned : Bool
  pub debug : Bool
  pub key : Bool
  pub syslog : Bool
  pub flood : Bool
  pub throttling : Bool
  pub throttled : Bool
  pub hooks : Bool
  pub sl3164_silent : Bool
  pub color : Bool

-- `stats_t`
pub record Stats : Type 0 where
  pub boot_timestamp : ℕ
  pub srv_in : ℕ
  pub srv_out : ℕ
  pub msg_in : ℕ
  pub msg_out : ℕ
  pub lines : ℕ
  pub bad_msg : ℕ
  pub oe_msg : ℕ
  pub good_msg : ℕ

-- The callbacks that are handed to `event_once`.
pub data Callback : Type 0 where
  try_nick_change irc_reconnect try_rejoin_after_ban net_throttled_write irc_shutdown : Callback

pub record Timer : Type 0 where
  pub callback : Callback
  pub seconds : ℕ

-- A datagram that was handed to a UDP socket.
pub record Datagram : Type 0 where
  pub host : Bytes
  pub port : Bytes
  pub payload : Bytes

-- A call of `hooks_cmd_switch`: the words of a command, the sender, and the channel if any.
pub record HookCall : Type 0 where
  pub argv : List Bytes
  pub who : Bytes
  pub where' : Option Bytes

-- What the system and the libraries answer: `time(NULL)` (`none` is -1), whether `event_once`
-- succeeds, whether a UDP socket can be opened to a host and port, and the RC4 of OpenSSL, which
-- takes a key and the data; the hour and the minute of `localtime`, what `localtime_r` and
-- `strftime` make of a time in the room that is left, the value of `errno` as the program has it,
-- and the system name, release and machine of `uname`.
pub record Env : Type 0 where
  pub time : Option ℕ
  pub event_once : Callback → ℕ → Bool
  pub net_create_udp_socket : Bytes → Bytes → Bool
  pub rc4 : Bytes → Bytes → Bytes
  pub localtime : ℕ → ℕ × ℕ
  pub strftime : ℤ → ℕ → Option Bytes
  pub errno : ℕ
  pub uname : Option (Bytes × Bytes × Bytes)

-- `last_command` is the static variable `last` of `cmd_switch`. The buffers are `ircin` and `ircout`; `stopped` says that `event_loopbreak` was called, and
-- `fd_closed` that the socket of the server was closed.
pub record Daemon (B : Type 0) : Type 0 where
  pub mode : Mode
  pub conf : Conf
  pub ircin : B
  pub ircout : B
  pub stats : Stats
  pub timers : List Timer
  pub transmitted : List Datagram
  pub hook_calls : List HookCall
  pub last_command : ℕ
  pub stopped : Bool
  pub fd_closed : Bool
  pub writing : Bool
  pub env : Env
