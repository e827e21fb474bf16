-- ===== src/Network/Connection.antt =====
-- Losing the connection and coming back, src/iyelld/network.c.
use iyell.Base.{ℕ, true, false, ◌||◌, ok, [], ◌∷◌, ◌++◌, ◌≡◌, refl, ◌∙◌, arith, length, drop}
use iyell.Base.Int.{positive_or}
use iyell.CString.{Bytes}
use iyell.Daemon.{Daemon, Callback}
use iyell.Daemon.Sched.{schedule_reconnection, event_once}
use iyell.Event.{EvBuffer, evbuffer_length}
use iyell.Info.{drain_all}
use iyell.Network.{descriptor, irc_disconnect, net_irc_cleanup, irc_reconnect}

pub drop_all : (s : Bytes) → drop (length s) s ≡ []
drop_all [] = refl
drop_all (c ∷ s) = drop_all s

module _ {B : Type 0} ⦃ev : EvBuffer B⦄ where
  open ev use {evbuffer_data, data-drain}

  pub data-drain_all : (b : B) → evbuffer_data (drain_all b) ≡ []
  unfolding drain_all evbuffer_length
  data-drain_all b = data-drain b (length (evbuffer_data b)) ∙ drop_all (evbuffer_data b)

  cleanup-buffers :
      (d : Daemon B)
      → ((net_irc_cleanup d).ircin ≡ drain_all d.ircin)
        × ((net_irc_cleanup d).ircout ≡ drain_all d.ircout)
  unfolding net_irc_cleanup irc_disconnect schedule_reconnection event_once
  cleanup-buffers d = ground arith

  cleanup-mode :
      (d : Daemon B)
      → ((net_irc_cleanup d).mode.connected ≡ false)
        × ((net_irc_cleanup d).fd_closed ≡ d.mode.connected || d.fd_closed)
  unfolding net_irc_cleanup irc_disconnect schedule_reconnection event_once
  cleanup-mode d = (ground arith, ground arith)

  cleanup-timers :
      (d : Daemon B)
      → d.mode.shutdown ≡ false
      → d.env.event_once Callback.irc_reconnect 15 ≡ true
      → (net_irc_cleanup d).timers
        ≡ d.timers ++ (record { callback = Callback.irc_reconnect; seconds = 15 } ∷ [])
  unfolding net_irc_cleanup irc_disconnect schedule_reconnection event_once positive_or
  cleanup-timers d running set = ground arith

  -- While the bot is not shutting down, a cleanup leaves both buffers empty and the bot not
  -- connected, closes the socket if the bot was connected, and asks for a reconnection in fifteen
  -- seconds when the timer can be set.
  pub net_irc_cleanup-Clears :
      (d : Daemon B)
      → d.mode.shutdown ≡ false
      → d.env.event_once Callback.irc_reconnect 15 ≡ true
      → let d' = net_irc_cleanup d in
        (evbuffer_data d'.ircin ≡ [])
        × (evbuffer_data d'.ircout ≡ [])
        × (d'.mode.connected ≡ false)
        × (d'.fd_closed ≡ d.mode.connected || d.fd_closed)
        × (d'.timers
            ≡ d.timers ++ (record { callback = Callback.irc_reconnect; seconds = 15 } ∷ []))
  net_irc_cleanup-Clears d running set =
      let (i, o) = cleanup-buffers d in
      let (c, f) = cleanup-mode d in
      (
        rw i (data-drain_all d.ircin),
        rw o (data-drain_all d.ircout),
        c,
        f,
        cleanup-timers d running set,
      )

  -- When the handshake fails on a fresh descriptor, two reconnections are registered, in fifteen and
  -- in sixty seconds, and the descriptor is not closed.
  pub irc_reconnect-twice :
      (d : Daemon B)
      → d.mode.connected ≡ false
      → d.mode.shutdown ≡ false
      → d.mode.use_ssl ≡ true
      → ((callback : Callback) (seconds : ℕ) → d.env.event_once callback seconds ≡ true)
      → (d' : Daemon B) × (irc_reconnect descriptor false d ≡ ok d')
        × (d'.fd_closed ≡ false)
        × (d'.timers
            ≡ (d.timers ++ (record { callback = Callback.irc_reconnect; seconds = 15 } ∷ []))
              ++ (record { callback = Callback.irc_reconnect; seconds = 60 } ∷ []))
  unfolding irc_reconnect net_irc_cleanup irc_disconnect schedule_reconnection event_once
      positive_or
  irc_reconnect-twice d off running ssl set =
      rw ssl rw running rw off rw (set Callback.irc_reconnect 15) rw (set Callback.irc_reconnect 60)
        (_, refl, refl, refl)
