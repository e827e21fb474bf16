-- ===== src/Info/Delivery.antt =====
-- What becomes of a message that a client sends to src/iyelld/info.c.
use iyell.Base.{
  ℕ, ◌+◌, ◌≤◌, ◌<◌, true, false, ◌&&◌, ok, ◌>>=◌, List, [], ◌∷◌, ◌++◌, none, some, ◌≡◌, ◌≢◌, ◌⊎◌,
  refl, sym, ◌∙◌, ap, arith, if◌then◌else◌, length, leb, ◌==◌, append_assoc, append-nil, All,
}
use iyell.Base.Int.{pos}
use iyell.CString.{Bytes, codes, strsep, contains, is_digit}
use iyell.CString.Split.{Free, split-Free}
use iyell.Conf.{Conf, hash_text_get_first}
use iyell.Daemon.{Daemon}
use iyell.Event.{EvBuffer}
use iyell.Irc.{irc_cmd_privmsg}
use iyell.Irc.Lines.{privmsg_line, data-irc_cmd_privmsg}
use iyell.Number.{decimal, long_max}
use iyell.Number.RoundTrip.{strtol-decimal, decimal-All, decimal_onto-head}
use iyell.Info.{
  exceeded, valid, good, check_packet, configured_offset, is_zero, distance, exceeds,
  info_check_timestamp, privmsg_all, find_target_bots, find_target_channels, to_targets,
  info_forward, on_check, check_fields, info_line,
}

is_zero-pos : (n : ℕ) → 1 ≤ n → is_zero (pos n) ≡ false
unfolding is_zero
is_zero-pos n h = ground arith

-- A timestamp is valid exactly when it is at most the configured offset away from the clock, on
-- either side, for a positive offset and a positive timestamp that fit in a `long`.
pub info_check_timestamp-window :
    (conf : Conf) (current p o : ℕ)
    → hash_text_get_first conf.global (codes "offset") ≡ some (decimal o)
    → 1 ≤ o
    → o ≤ long_max
    → 1 ≤ p
    → p ≤ long_max
    → current ≤ long_max
    → info_check_timestamp conf (some current) (decimal p)
      ≡ ok (if leb p (current + o) && leb current (p + o) then valid else exceeded)
unfolding info_check_timestamp configured_offset check_packet distance exceeds
info_check_timestamp-window conf current p o set o_pos o_max p_pos p_max c_max =
    rw set rw (strtol-decimal o o_max) rw (strtol-decimal p p_max) rw (is_zero-pos o o_pos) rw
      (is_zero-pos p p_pos) (ground arith)

-- The text that carries a message to channels, one line for each.
unfoldable pub privmsg_lines : List Bytes → Bytes → Bytes
privmsg_lines [] message = []
privmsg_lines (chan ∷ tmp) message = privmsg_line chan message ++ privmsg_lines tmp message

-- `type:timestamp:message`, as the client prints it
abbrev pub client_line : Bytes → ℕ → Bytes → Bytes
client_line type p message = type ++ (b':' ∷ (decimal p ++ (b':' ∷ message)))

digits-Free : (s : Bytes) → All (λ c. is_digit c ≡ true) s → Free (codes ":") s
unfolding contains is_digit
digits-Free [] h = tt
digits-Free (c ∷ s) h = (let digit = h.0 in ground (arith, digit), digits-Free s h.1)

pub decimal-Free : (p : ℕ) → Free (codes ":") (decimal p)
decimal-Free p = digits-Free (decimal p) (decimal-All p)

length-decimal : (p : ℕ) → 1 ≤ length (decimal p)
unfolding decimal
length-decimal p = let (d, t, lt, e) = decimal_onto-head p p [] in rw e (omega arith)

module _ {B : Type 0} ⦃ev : EvBuffer B⦄ where
  open ev use {evbuffer_data, data-add}

  pub data-privmsg_all :
      (tmp : List Bytes) (message : Bytes) (out : B)
      → evbuffer_data (privmsg_all tmp message out) ≡ evbuffer_data out ++ privmsg_lines tmp message
  unfolding privmsg_all privmsg_lines
  data-privmsg_all [] message out = sym (append-nil _)
  data-privmsg_all (chan ∷ tmp) message out =
      data-privmsg_all tmp message (irc_cmd_privmsg out chan message)
      ∙ rw (data-irc_cmd_privmsg out chan message) (simp append_assoc)

  check_fields-digits :
      (ap ts message : Bytes) (x : ℕ) (d : Daemon B)
      → 1 ≤ length ts
      → check_fields ap (some ts, some (x ∷ message)) d
        ≡ (info_check_timestamp d.conf d.env.time ts >>= λ ret. on_check ret ap (x ∷ message) d)
  unfolding check_fields
  check_fields-digits type [] message x d h = ground (arith, h)
  check_fields-digits type (c ∷ ts) message x d h = refl

  on_check-valid :
      (c x : ℕ) (type message : Bytes) (chans : List Bytes) (d : Daemon B)
      → (c == b'=') ≡ false
      → d.conf.forward (c ∷ type) ≡ some chans
      → d.conf.transmit (c ∷ type) ≡ none
      → on_check valid (c ∷ type) (x ∷ message) d
        ≡ ok (good, record d { ircout = privmsg_all chans (x ∷ message) d.ircout })
  unfolding on_check info_forward to_targets find_target_channels find_target_bots
  on_check-valid c x type message chans d plain channels bots =
      ground (arith, plain, channels, bots)

  info_line-client_line :
      (c x p : ℕ) (type message : Bytes) (d : Daemon B)
      → Free (codes ":") (c ∷ type)
      → info_line (client_line (c ∷ type) p (x ∷ message)) d ≡ (
          info_check_timestamp d.conf d.env.time (decimal p) >>= λ ret.
          on_check ret (c ∷ type) (x ∷ message) d)
  unfolding info_line strsep contains
  info_line-client_line c x p type message d free =
      rw (split-Free (codes ":") (c ∷ type) b':' (decimal p ++ (b':' ∷ x ∷ message)) free refl) rw
        (split-Free (codes ":") (decimal p) b':' (x ∷ message) (decimal-Free p) refl)
        (check_fields-digits (c ∷ type) (decimal p) message x d (length-decimal p))

  -- A client's message whose type has channels and no bots, and whose timestamp is within the
  -- offset, is good: what it adds to the output buffer is one PRIVMSG line for each channel of its
  -- type, with the message unchanged, and it changes nothing else.
  pub info_line-delivers :
      (c x p o current : ℕ) (type message : Bytes) (chans : List Bytes) (d : Daemon B)
      → Free (codes ":") (c ∷ type)
      → c ≢ b'='
      → d.conf.forward (c ∷ type) ≡ some chans
      → d.conf.transmit (c ∷ type) ≡ none
      → hash_text_get_first d.conf.global (codes "offset") ≡ some (decimal o)
      → d.env.time ≡ some current
      → 1 ≤ o
      → o ≤ long_max
      → 1 ≤ p
      → p ≤ long_max
      → current ≤ long_max
      → p ≤ current + o
      → current ≤ p + o
      → (out : B) × (info_line (client_line (c ∷ type) p (x ∷ message)) d
          ≡ ok (good, record d { ircout = out }))
        × (evbuffer_data out ≡ evbuffer_data d.ircout ++ privmsg_lines chans (x ∷ message))
  info_line-delivers c x p o current type message chans d free plain channels bots set clock o_pos
        o_max p_pos p_max c_max late early =
      let window =
        info_check_timestamp-window d.conf current p o set o_pos o_max p_pos p_max c_max in
      let verdict : info_check_timestamp d.conf d.env.time (decimal p) ≡ ok valid =
        ap (λ t. info_check_timestamp d.conf t (decimal p)) clock ∙ window ∙ ground arith in
      let different : (c == b'=') ≡ false = ground arith in
      (
        privmsg_all chans (x ∷ message) d.ircout,
        info_line-client_line c x p type message d free
            ∙ (rw verdict (on_check-valid c x type message chans d different channels bots)),
        data-privmsg_all chans (x ∷ message) d.ircout,
      )

  -- The same message outside of the offset is counted and not forwarded.
  pub info_line-exceeded :
      (c x p o current : ℕ) (type message : Bytes) (d : Daemon B)
      → Free (codes ":") (c ∷ type)
      → hash_text_get_first d.conf.global (codes "offset") ≡ some (decimal o)
      → d.env.time ≡ some current
      → 1 ≤ o
      → o ≤ long_max
      → 1 ≤ p
      → p ≤ long_max
      → current ≤ long_max
      → (current + o < p) ⊎ (p + o < current)
      → info_line (client_line (c ∷ type) p (x ∷ message)) d
        ≡ ok (good, record d { stats = let st = d.stats in record st { oe_msg = st.oe_msg + 1 } })
  unfolding on_check
  info_line-exceeded c x p o current type message d free set clock o_pos o_max p_pos p_max c_max
        outside =
      let window =
        info_check_timestamp-window d.conf current p o set o_pos o_max p_pos p_max c_max in
      let verdict : info_check_timestamp d.conf d.env.time (decimal p) ≡ ok exceeded =
        ap (λ t. info_check_timestamp d.conf t (decimal p)) clock ∙ window ∙ ground arith in
      info_line-client_line c x p type message d free ∙ (rw verdict refl)
