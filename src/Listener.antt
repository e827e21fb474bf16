-- ===== src/Listener.antt =====
-- src/iyelld/network.c: the sockets on which messages arrive, from the clients and from syslog,
-- with `dgram_parse` of src/iyelld/info.c.
pub mod Delivery
pub mod Leak
pub mod Sockets
use iyell.Base.{
  ℕ, zero, suc, ◌+◌, ◌-◌, Bool, true, false, Run, ok, fault, null_pointer, ◌>>=◌, List, [], ◌∷◌,
  ◌++◌, Option, none, some, ltb, if◌then◌else◌, length,
}
use iyell.CString.{Bytes, codes}
use iyell.Conf.{Conf, hash_text_get_first, hash_text_is_true}
use iyell.Daemon.{Daemon}
use iyell.Event.{EvBuffer, evbuffer_length}
use iyell.Info.{info_parse, drain_all}
use iyell.Irc.{deref}
use iyell.SyslogParse.{sl_parse}

-- The families that a socket is bound in.
pub data Family : Type 0 where
  af_inet af_inet6 : Family

-- The buffers of the listeners, and the descriptors in their events, which are 0 until one is
-- started. `opened` has what `socket` answered, `closed` the arguments of `close` and `unlinked` those
-- of `unlink`, each with the last one at the end.
pub record Listeners (B : Type 0) : Type 0 where
  pub daemon : Daemon B
  pub dgram_in : B
  pub syslog_in : B
  pub unix_sock : B
  pub syslog4 : ℕ
  pub syslog6 : ℕ
  pub udp4 : ℕ
  pub udp6 : ℕ
  pub unix : ℕ
  pub opened : List ℕ
  pub closed : List ℕ
  pub unlinked : List Bytes

-- `sizeof(sun.sun_path)`
abbrev pub sun_path_size : ℕ
sun_path_size = 108

-- What comes of `getaddrinfo`, `socket` and `bind`: no socket, or one with its descriptor.
pub data Socket : Type 0 where
  no_socket : Socket
  not_bound : ℕ → Socket
  bound : ℕ → Socket

-- The socket for the port of a setting.
pub udp_socket : (Family → Bytes → Socket) → Conf → Family → Bytes → Socket
udp_socket answer conf family setting = elim (hash_text_get_first conf.global setting) [
  | none ↦ no_socket
  | some port ↦ answer family port
]

-- The Unix socket, at a path that fits.
pub unix_socket : (Bytes → Socket) → Conf → Socket
unix_socket answer conf = elim (hash_text_get_first conf.global (codes "unix_path")) [
  | none ↦ no_socket
  | some path ↦ if ltb (sun_path_size - 1) (length path) then no_socket else answer path
]

-- An event keeps its descriptor when the listener is not started.
pub started : Option ℕ → ℕ → ℕ
started none fd = fd
started (some ret) fd = ret

module _ {B : Type 0} where
  unfoldable pub net_udp_stop : ℕ → Listeners B → Listeners B
  net_udp_stop zero l = l
  net_udp_stop (suc n) l = record l { closed = l.closed ++ (suc n ∷ []) }

  unfoldable pub net_unix_stop : ℕ → Listeners B → Listeners B
  net_unix_stop zero l = l
  net_unix_stop (suc n) l =
      let l' = record l { closed = l.closed ++ (suc n ∷ []) } in
      elim (hash_text_get_first l.daemon.conf.global (codes "unix_path")) [
        | none ↦ l'
        | some path ↦ record l' { unlinked = l'.unlinked ++ (path ∷ []) }
      ]

  -- A socket that cannot be bound is left open.
  bind_udp : Socket → Listeners B → Option ℕ × Listeners B
  bind_udp no_socket l = (none, l)
  bind_udp (not_bound s) l = (none, record l { opened = l.opened ++ (s ∷ []) })
  bind_udp (bound s) l = (some s, record l { opened = l.opened ++ (s ∷ []) })

  -- `ERROR` is `none`.
  unfoldable pub net_udp_start :
      (Family → Bytes → Socket) → Family → Bytes → Listeners B → Option ℕ × Listeners B
  unfolding bind_udp
  net_udp_start answer family setting l =
      bind_udp (udp_socket answer l.daemon.conf family setting) l

  -- Here it is closed.
  bind_unix : Socket → Listeners B → Option ℕ × Listeners B
  bind_unix no_socket l = (none, l)
  bind_unix (not_bound s) l =
      (none, record l { opened = l.opened ++ (s ∷ []); closed = l.closed ++ (s ∷ []) })
  bind_unix (bound s) l = (some s, record l { opened = l.opened ++ (s ∷ []) })

  unfoldable pub net_unix_start : (Bytes → Socket) → Listeners B → Option ℕ × Listeners B
  unfolding bind_unix
  net_unix_start answer l = bind_unix (unix_socket answer l.daemon.conf) l

  start_syslog : (Family → Bytes → Socket) → Listeners B → Listeners B
  unfolding net_udp_start started
  start_syslog answer l =
      if hash_text_is_true l.daemon.conf.global (codes "syslog_listener")
      then (let r6 = net_udp_start answer af_inet6 (codes "syslog_port") l in
          let l6 = record r6.1 { syslog6 = started r6.0 l.syslog6 } in
          let r4 = net_udp_start answer af_inet (codes "syslog_port") l6 in
          record r4.1 { syslog4 = started r4.0 l.syslog4 })
      else l

  start_udp : (Family → Bytes → Socket) → Listeners B → Listeners B
  unfolding net_udp_start started
  start_udp answer l =
      if hash_text_is_true l.daemon.conf.global (codes "udp_listener")
      then (let r6 = net_udp_start answer af_inet6 (codes "udp_port") l in
          let l6 = record r6.1 { udp6 = started r6.0 l.udp6 } in
          let r4 = net_udp_start answer af_inet (codes "udp_port") l6 in
          record r4.1 { udp4 = started r4.0 l.udp4 })
      else l

  start_unix : (Bytes → Socket) → Listeners B → Listeners B
  unfolding net_unix_start started
  start_unix answer l =
      if hash_text_is_true l.daemon.conf.global (codes "unix_listener")
      then (let r = net_unix_start answer l in record r.1 { unix = started r.0 l.unix })
      else l

  unfoldable pub start_listeners :
      (Family → Bytes → Socket) → (Bytes → Socket) → Listeners B → Listeners B
  unfolding start_syslog start_udp start_unix
  start_listeners answer answer_unix l =
      start_unix answer_unix (start_udp answer (start_syslog answer l))

  unfoldable pub stop_listeners : Listeners B → Listeners B
  unfolding net_udp_stop net_unix_stop
  stop_listeners l =
      let is_set = hash_text_is_true l.daemon.conf.global in
      let l₁ =
        if is_set (codes "syslog_listener")
        then net_udp_stop l.syslog6 (net_udp_stop l.syslog4 l)
        else l in
      let l₂ =
        if is_set (codes "udp_listener")
        then net_udp_stop l₁.udp6 (net_udp_stop l₁.udp4 l₁)
        else l₁ in
      if is_set (codes "unix_listener") then net_unix_stop l₂.unix l₂ else l₂

unfoldable pub udp_get_key : Conf → Option Bytes
udp_get_key conf = hash_text_get_first conf.global (codes "udp_key")

module _ {B : Type 0} ⦃ev : EvBuffer B⦄ where
  open ev use {evbuffer_data, evbuffer_add, evbuffer_overwrite}

  -- `info_rc4_cipher(EVBUFFER_DATA(in), key, EVBUFFER_LENGTH(in))`
  unfoldable pub info_rc4_cipher : (Bytes → Bytes → Bytes) → B → Option Bytes → Run B
  unfolding deref
  info_rc4_cipher rc4 b key = do
    key' ← deref key
    ok (evbuffer_overwrite b (rc4 key' (evbuffer_data b)))

  unfoldable pub dgram_parse : Daemon B → B → Run (Daemon B × B)
  unfolding udp_get_key info_rc4_cipher
  dgram_parse d b = do b' ← info_rc4_cipher d.env.rc4 b (udp_get_key d.conf); info_parse d b'

  -- `STATS_INC_MSG_IN(ret)`
  unfoldable pub count_in : ℕ → Daemon B → Daemon B
  count_in ret d = record d { stats = let st = d.stats in record st { msg_in = st.msg_in + ret } }

  -- `if (EVBUFFER_LENGTH(ircout) > 0) net_force_output(&ev_irc);`
  unfoldable pub force_output : Daemon B → Daemon B
  force_output d = elim (evbuffer_length d.ircout) [
    | zero ↦ d
    | suc _ ↦ record d { writing = true }
  ]

  -- A packet that is not empty: what `parse` makes of the buffer with the packet in it.
  unfoldable pub parse_packet :
      (Daemon B → B → Run (Daemon B × B)) → Bytes → Daemon B → B → Run (Daemon B × B)
  unfolding count_in force_output
  parse_packet parse tmp d b = do
    r ← parse (count_in (length tmp) d) (evbuffer_add b tmp)
    ok (force_output r.0, r.1)

  -- `net_dgram4_read` and `net_dgram6_read`, which differ in the address that they print. The
  -- packet is what `recvfrom` answers, `none` for an error.
  unfoldable pub net_dgram_read : ℕ → Option Bytes → Listeners B → Run (Listeners B)
  unfolding net_udp_stop parse_packet
  net_dgram_read fd none l =
      ok (let l' = net_udp_stop fd l in record l' { dgram_in = drain_all l'.dgram_in })
  net_dgram_read fd (some []) l =
      ok (let l' = net_udp_stop fd l in record l' { dgram_in = drain_all l'.dgram_in })
  net_dgram_read fd (some (c ∷ tmp)) l = do
    r ← parse_packet dgram_parse (c ∷ tmp) l.daemon l.dgram_in
    ok (record l { daemon = r.0; dgram_in = r.1 })

  -- `net_sl4_read` and `net_sl6_read`
  unfoldable pub net_sl_read : ℕ → Option Bytes → Listeners B → Run (Listeners B)
  unfolding net_udp_stop parse_packet
  net_sl_read fd none l =
      ok (let l' = net_udp_stop fd l in record l' { syslog_in = drain_all l'.syslog_in })
  net_sl_read fd (some []) l =
      ok (let l' = net_udp_stop fd l in record l' { syslog_in = drain_all l'.syslog_in })
  net_sl_read fd (some (c ∷ tmp)) l = do
    r ← parse_packet sl_parse (c ∷ tmp) l.daemon l.syslog_in
    ok (record l { daemon = r.0; syslog_in = r.1 })

  unfoldable pub net_unix_read : ℕ → Option Bytes → Listeners B → Run (Listeners B)
  unfolding net_unix_stop parse_packet
  net_unix_read fd none l =
      ok (let l' = net_unix_stop fd l in record l' { unix_sock = drain_all l'.unix_sock })
  net_unix_read fd (some []) l = ok l
  net_unix_read fd (some (c ∷ tmp)) l = do
    r ← parse_packet info_parse (c ∷ tmp) l.daemon l.unix_sock
    ok (record l { daemon = r.0; unix_sock = r.1 })
