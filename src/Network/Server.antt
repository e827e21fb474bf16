-- ===== src/Network/Server.antt =====
-- The events of the connection in src/iyelld/network.c: what is read, what is written, and silence.
use iyell.Base.{
  ℕ, zero, suc, ◌+◌, Bool, true, false, Run, ok, ◌>>=◌, [], ◌∷◌, Option, none, some, length,
}
use iyell.CString.{Bytes}
use iyell.Ctcp.{ctcp_self_ping}
use iyell.Daemon.{Daemon}
use iyell.Event.{EvBuffer, evbuffer_length}
use iyell.Irc.{irc_cmd_quit}
use iyell.Network.{BurstState, net_irc_cleanup, net_irc_write, net_irc_throttled_write}
use iyell.Switch.{irc_parse}

-- The bits of an event: `EV_READ`, `EV_TIMEOUT` and `EV_WRITE`.
pub record Events : Type 0 where
  pub ev_read : Bool
  pub ev_timeout : Bool
  pub ev_write : Bool

module _ {B : Type 0} ⦃ev : EvBuffer B⦄ where
  open ev use {evbuffer_add}

  -- `if (EVBUFFER_LENGTH(ircout) > 0)`: `EV_WRITE` is added.
  add_write : Daemon B → Daemon B
  add_write d = elim (evbuffer_length d.ircout) [ zero ↦ d | suc _ ↦ record d { writing = true } ]

  -- `STATS_INC_SRV_IN(ret)` and `evbuffer_add(ircin, tmp, ret)`
  unfoldable pub received : Bytes → Daemon B → Daemon B
  received tmp d = record d {
    ircin = evbuffer_add d.ircin tmp;
    stats = let st = d.stats in record st { srv_in = st.srv_in + length tmp };
  }

  -- What `recv` or `ssl_recv` answers; `none` is an error.
  unfoldable pub net_irc_read : Option Bytes → Daemon B → Run (Daemon B)
  unfolding add_write received
  net_irc_read none d = ok (net_irc_cleanup d)
  net_irc_read (some []) d = ok (net_irc_cleanup d)
  net_irc_read (some (c ∷ tmp)) d = do d' ← irc_parse (received (c ∷ tmp) d); ok (add_write d')

  unfoldable pub net_irc_timeout : Daemon B → Run (Daemon B)
  net_irc_timeout d = do out ← ctcp_self_ping d.conf d.ircout; ok (record d { ircout = out })

  unfoldable pub write_event :
      (Bytes → Option ℕ) → BurstState → Daemon B → Run (Daemon B × BurstState)
  write_event send s d = elim d.mode.throttling [
    | true ↦ net_irc_throttled_write send s d
    | false ↦ net_irc_write send d >>= λ d'. ok (d', s)
  ]

  -- Without `EV_READ`; silence sets `EV_WRITE`.
  unfoldable pub timeout_or_write :
      (Bytes → Option ℕ) → Bool → Bool → BurstState → Daemon B → Run (Daemon B × BurstState)
  unfolding write_event
  timeout_or_write send true write s d = net_irc_timeout d >>= λ d'. write_event send s d'
  timeout_or_write send false true s d = write_event send s d
  timeout_or_write send false false s d = ok (d, s)

  unfoldable pub net_irc_event :
      Option Bytes
      → (Bytes → Option ℕ)
      → Events
      → BurstState
      → Daemon B
      → Run (Daemon B × BurstState)
  unfolding timeout_or_write
  net_irc_event recv send event s d = elim event.ev_read [
    | true ↦ net_irc_read recv d >>= λ d'. ok (d', s)
    | false ↦ timeout_or_write send event.ev_timeout event.ev_write s d
  ]

  -- The static variable `send` comes first: whether QUIT was written already.
  unfoldable pub irc_shutdown : Bool → Daemon B → Bool × Daemon B
  irc_shutdown true d = (true, d)
  irc_shutdown false d =
      (true, record d { ircout = irc_cmd_quit d.conf d.ircout none; writing = true })
