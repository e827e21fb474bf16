-- ===== src/Info.antt =====
-- src/iyelld/info.c: messages from the clients, which are checked and forwarded.
pub mod Delivery
pub mod Total
pub mod Relay
use Prim.Native.Nat.{◌^◌}
use iyell.Base.{
  ℕ, zero, suc, ◌+◌, ◌-◌, ◌<◌, Bool, true, false, not, Run, ok, fault, null_pointer,
  signed_overflow, exhausted, ◌>>=◌, List, [], ◌∷◌, Option, none, some, ◌==◌, ltb, leb,
  if◌then◌else◌, length,
}
use iyell.Base.Int.{ℤ, pos, negsuc}
use iyell.CString.{Bytes, codes, strsep, split}
use iyell.Conf.{Conf, Section, hash_text_get_first, hash_text_is_true}
use iyell.Daemon.{Daemon, Env}
use iyell.Event.{EvBuffer, evbuffer_length}
use iyell.Irc.{deref, irc_cmd_privmsg}
use iyell.Number.{strtol}
use iyell.Transmit.{info_transmit}

-- What `info_check_timestamp` returns: -1, 0 and 1.
pub data Check : Type 0 where
  unreadable exceeded valid : Check

abbrev pub default_offset : ℕ
default_offset = 900

unfoldable pub is_zero : ℤ → Bool
is_zero (pos n) = n == 0
is_zero (negsuc n) = false

-- `labs(current - packet)`, where the difference fits in a `long`
unfoldable pub distance : ℕ → ℤ → ℕ
distance current (pos p) = (current - p) + (p - current)
distance current (negsuc n) = current + suc n

unfoldable pub exceeds : ℕ → ℤ → Bool
exceeds n (pos offset) = ltb offset n
exceeds n (negsuc _) = true

configured_offset : Option Bytes → ℤ
configured_offset none = pos default_offset
configured_offset (some tmp) = strtol tmp

check_packet : ℕ → ℤ → ℤ → Run Check
check_packet current offset packet =
    if is_zero offset
    then ok unreadable
    else if is_zero packet
    then ok unreadable
    else if leb (2 ^ 63) (distance current packet)
    then fault signed_overflow
    else ok (if exceeds (distance current packet) offset then exceeded else valid)

unfoldable pub info_check_timestamp : Conf → Option ℕ → Bytes → Run Check
unfolding is_zero distance exceeds configured_offset check_packet
info_check_timestamp conf none t = ok unreadable
info_check_timestamp conf (some current) t =
    check_packet current (configured_offset (hash_text_get_first conf.global (codes "offset")))
      (strtol t)

-- What one line comes to: it is counted as good, or the `error` label is reached.
pub data Verdict : Type 0 where
  good bad : Verdict

module _ {B : Type 0} ⦃ev : EvBuffer B⦄ where
  open ev use {evbuffer_data, evbuffer_drain, evbuffer_readline}

  -- The loop of `find_target_bots`.
  unfoldable pub transmit_all : List Bytes → Bytes → Bytes → Daemon B → Run (Daemon B)
  transmit_all [] type message d = ok d
  transmit_all (bot ∷ tmp) type message d = do
    d' ← info_transmit bot type message d
    transmit_all tmp type message d'

  unfoldable pub find_target_bots : Bytes → Bytes → Daemon B → Run (Bool × Daemon B)
  unfolding transmit_all
  find_target_bots type message d = elim (d.conf.transmit type) [
    | none ↦ ok (false, d)
    | some tmp ↦ do d' ← transmit_all tmp type message d; ok (true, d')
  ]

  -- The loop of `find_target_channels`.
  unfoldable pub privmsg_all : List Bytes → Bytes → B → B
  privmsg_all [] message out = out
  privmsg_all (chan ∷ tmp) message out = privmsg_all tmp message (irc_cmd_privmsg out chan message)

  unfoldable pub find_target_channels : Bytes → Bytes → Daemon B → Bool × Daemon B
  unfolding privmsg_all
  find_target_channels type message d = elim (d.conf.forward type) [
    | none ↦ (false, d)
    | some tmp ↦ (true, record d { ircout = privmsg_all tmp message d.ircout })
  ]

  unfoldable pub info_direct_forward : Bytes → Bytes → Daemon B → Daemon B
  info_direct_forward [] message d = d
  info_direct_forward (c ∷ type) message d =
      if hash_text_is_true d.conf.global (codes "allow_direct")
      then record d { ircout = irc_cmd_privmsg d.ircout (c ∷ type) message }
      else d

  to_targets : Bytes → Bytes → Daemon B → Run (Daemon B)
  to_targets type message d = do
    r ← find_target_bots type message (find_target_channels type message d).1
    ok r.1

  unfoldable pub info_forward : Bytes → Bytes → Daemon B → Run (Daemon B)
  unfolding to_targets find_target_bots find_target_channels info_direct_forward
  info_forward [] message d = to_targets [] message d
  info_forward (c ∷ type) message d =
      if c == b'=' then ok (info_direct_forward type message d) else to_targets (c ∷ type) message d

  on_check : Check → Bytes → Bytes → Daemon B → Run (Verdict × Daemon B)
  on_check exceeded ap tmp d =
      ok (good, record d { stats = let st = d.stats in record st { oe_msg = st.oe_msg + 1 } })
  on_check valid ap tmp d = do d' ← info_forward ap tmp d; ok (good, d')
  on_check unreadable ap tmp d = ok (bad, d)

  -- The body of the loop on one line. `split` is `strsep` on a string; an empty field is refused.
  check_fields : Bytes → Option Bytes × Option Bytes → Daemon B → Run (Verdict × Daemon B)
  unfolding on_check
  check_fields ap (none, tmp) d = ok (bad, d)
  check_fields ap (some [], tmp) d = ok (bad, d)
  check_fields ap (some ts, none) d = ok (bad, d)
  check_fields ap (some ts, some []) d = ok (bad, d)
  check_fields ap (some ts, some tmp) d = do
    ret ← info_check_timestamp d.conf d.env.time ts
    on_check ret ap tmp d

  unfoldable pub info_line : Bytes → Daemon B → Run (Verdict × Daemon B)
  unfolding check_fields
  info_line line d =
      let (ap, tmp) = split (codes ":") line in check_fields ap (strsep (codes ":") tmp) d

  -- `evbuffer_drain(in, EVBUFFER_LENGTH(in))`
  unfoldable pub drain_all : B → B
  drain_all b = evbuffer_drain b (evbuffer_length b)

  -- The `error` label.
  unfoldable pub refuse : Daemon B → B → Daemon B × B
  unfolding drain_all
  refuse d b =
      (record d { stats = let st = d.stats in record st { bad_msg = st.bad_msg + 1 } }, drain_all b)

  unfoldable pub count_good : Daemon B → Daemon B
  count_good d = record d { stats = let st = d.stats in record st { good_msg = st.good_msg + 1 } }

  -- The loop from `parseline`, on a line and what the buffer holds behind it.
  unfoldable pub parse_lines : ℕ → Bytes → Daemon B → B → Run (Daemon B × B)
  unfolding refuse drain_all count_good
  parse_lines zero line d b = fault exhausted
  parse_lines (suc fuel) line d b = info_line line d >>= λ r. elim r.0 [
    | bad ↦ ok (refuse r.1 b)
    | good ↦
        let b' = evbuffer_drain b (length line + 1) in
        let d' = count_good r.1 in
        let next = evbuffer_readline b' in
        elim (evbuffer_length b') [
          | zero ↦ ok (d', b')
          | suc _ ↦ elim next.0 [
            | none ↦ ok (d', drain_all next.1)
            | some line' ↦ parse_lines fuel line' d' next.1
          ]
        ]
  ]

  unfoldable pub info_parse : Daemon B → B → Run (Daemon B × B)
  unfolding parse_lines
  info_parse d b =
      if not d.mode.connected then ok (d, drain_all b) else elim (evbuffer_readline b).0 [
        | none ↦ ok (refuse d (evbuffer_readline b).1)
        | some line ↦ parse_lines (evbuffer_length b) line d (evbuffer_readline b).1
      ]
