-- ===== src/Network.antt =====
-- src/iyelld/network.c: the connection to the server, its output and its throttling.
pub mod Throttle
pub mod Connection
pub mod Progress
pub mod Server
pub mod Silence
use iyell.Base.{
  ℕ, zero, suc, ◌+◌, ◌-◌, Bool, true, false, not, ◌||◌, ◌&&◌, Run, ok, fault, assertion,
  null_pointer, ◌>>=◌, List, [], ◌∷◌, Option, none, some, ◌==◌, ltb, leb, if◌then◌else◌, length,
  take,
}
use iyell.Base.Int.{pos}
use iyell.CString.{Bytes, codes}
use iyell.Daemon.{Daemon, Callback}
use iyell.Daemon.Sched.{schedule_reconnection, event_once}
use iyell.Event.{EvBuffer, evbuffer_length}
use iyell.Info.{drain_all}
use iyell.Irc.{irc_send_helo}

-- What `irc_connect` answers: a descriptor, `ERROR` or `NOSERVER`.
pub data Connected : Type 0 where
  descriptor error noserver : Connected

-- The static variables of `net_irc_throttled_write`.
pub record BurstState : Type 0 where
  pub burst_count : ℕ
  pub last : ℕ

-- The scan for the bytes to send: their number, and the new burst count.
unfoldable pub scan_burst : Bytes → ℕ → ℕ × ℕ
scan_burst [] burst = (0, burst)
scan_burst (c ∷ data') burst =
    let r = scan_burst data' (if c == b'\n' then burst + 1 else burst) in
    if ltb burst 4 then (suc r.0, r.1) else (0, burst)

-- `if (current - last > 3) burst_count = 0;`
unfoldable pub reset_burst : ℕ → BurstState → ℕ
reset_burst current s = if ltb (s.last + 3) current then 0 else s.burst_count

-- `if ((burst_count > 0) && ((current - last) >= 1)) burst_count--;`
unfoldable pub decay_burst : ℕ → ℕ → ℕ → ℕ
decay_burst current last burst =
    if not (burst == 0) && leb (last + 1) current then burst - 1 else burst

module _ {B : Type 0} ⦃ev : EvBuffer B⦄ where
  open ev use {evbuffer_data, evbuffer_drain}

  -- Deletes the event of the server too.
  unfoldable pub irc_disconnect : Daemon B → Daemon B
  irc_disconnect d =
      if not d.mode.connected
      then d
      else record d { mode = let m = d.mode in record m { connected = false }; fd_closed = true }

  unfoldable pub net_irc_cleanup : Daemon B → Daemon B
  unfolding drain_all irc_disconnect
  net_irc_cleanup d =
      let d₁ = irc_disconnect d in
      let d₂ = record d₁ { ircin = drain_all d₁.ircin; ircout = drain_all d₁.ircout } in
      if d₂.mode.shutdown then record d₂ { stopped = true } else schedule_reconnection (pos 15) d₂

  -- Behind the new connection; the flag is whether the handshake succeeds.
  greet : Bool → Daemon B → Run (Daemon B)
  greet true d = do out ← irc_send_helo d.conf d.ircout; ok (record d { ircout = out })
  greet false d = ok (schedule_reconnection (pos 60) (net_irc_cleanup d))

  -- The answers of `irc_connect` and `ssl_handshake` are given.
  unfoldable pub irc_reconnect : Connected → Bool → Daemon B → Run (Daemon B)
  unfolding greet
  irc_reconnect error handshake d = ok (schedule_reconnection (pos 60) d)
  irc_reconnect noserver handshake d = ok (record d { stopped = true })
  irc_reconnect descriptor handshake d =
      greet (not d.mode.use_ssl || handshake) (record d { fd_closed = false; writing = false })

  -- `net_throttled_write` and `net_force_output`: `EV_WRITE` is put back.
  unfoldable pub net_throttled_write : Daemon B → Daemon B
  net_throttled_write d =
      let d' = record d { mode = let m = d.mode in record m { throttled = false } } in
      if evbuffer_length d'.ircout == 0 then d' else record d' { writing = true }

  -- A timer that cannot be set runs at once.
  unfoldable pub schedule_irc_write : ℕ → Daemon B → Daemon B
  unfolding net_throttled_write
  schedule_irc_write seconds d =
      if d.env.event_once Callback.net_throttled_write seconds
      then event_once Callback.net_throttled_write seconds d
      else net_throttled_write d

  -- `STATS_INC_SRV_OUT(ret)` and `evbuffer_drain(ircout, ret)`
  sent : ℕ → Daemon B → Daemon B
  sent ret d = record d {
    ircout = evbuffer_drain d.ircout ret;
    stats = let st = d.stats in record st { srv_out = st.srv_out + ret };
  }

  after_write : Daemon B → Daemon B
  after_write d =
      if d.mode.shutdown
      then record d { stopped = true }
      else if evbuffer_length d.ircout == 0
      then record d { writing = false }
      else d

  -- `ret` is what `send` or `ssl_send` answers for the bytes, `none` for an error.
  unfoldable pub net_irc_write : (Bytes → Option ℕ) → Daemon B → Run (Daemon B)
  unfolding sent after_write
  net_irc_write send d = elim (evbuffer_length d.ircout) [
    | zero ↦ fault assertion
    | suc _ ↦ elim (send (evbuffer_data d.ircout)) [
      | none ↦ ok (net_irc_cleanup d)
      | some zero ↦ ok (net_irc_cleanup d)
      | some (suc ret) ↦ ok (after_write (sent (suc ret) d))
    ]
  ]

  -- The label `nothing`: the event waits for input only, and a timer for the rest is set once.
  nothing : ℕ → ℕ → BurstState → Daemon B → Daemon B × BurstState
  unfolding decay_burst schedule_irc_write
  nothing current burst s d =
      let d₁ = record d { writing = false } in
      let d₂ = record d₁ { mode = let m = d₁.mode in record m { throttled = true } } in
      let wait = not (evbuffer_length d₁.ircout == 0) && not d₁.mode.throttled in
      (
        (if wait then schedule_irc_write 1 d₂ else d₁),
        record { burst_count = decay_burst current s.last burst; last = current },
      )

  send_burst : (Bytes → Option ℕ) → ℕ → ℕ × ℕ → BurstState → Daemon B → Daemon B × BurstState
  unfolding nothing sent
  send_burst send current (zero, burst) s d = nothing current burst s d
  send_burst send current (suc i, burst) s d = elim (send (take (suc i) (evbuffer_data d.ircout))) [
    | none ↦ (net_irc_cleanup d, record s { burst_count = burst })
    | some zero ↦ (net_irc_cleanup d, record s { burst_count = burst })
    | some (suc ret) ↦
        let d' = sent (suc ret) d in
        if d'.mode.shutdown
        then (record d' { stopped = true }, record s { burst_count = burst })
        else nothing current burst s d'
  ]

  on_clock : (Bytes → Option ℕ) → Option ℕ → BurstState → Daemon B → Run (Daemon B × BurstState)
  unfolding net_irc_write send_burst reset_burst scan_burst
  on_clock send none s d = do d' ← net_irc_write send d; ok (d', s)
  on_clock send (some current) s d =
      ok (send_burst send current (scan_burst (evbuffer_data d.ircout) (reset_burst current s)) s d)

  unfoldable pub net_irc_throttled_write :
      (Bytes → Option ℕ) → BurstState → Daemon B → Run (Daemon B × BurstState)
  unfolding on_clock
  net_irc_throttled_write send s d = elim (evbuffer_length d.ircout) [
    | zero ↦ fault assertion
    | suc _ ↦ on_clock send d.env.time s d
  ]
