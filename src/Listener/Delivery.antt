-- ===== src/Listener/Delivery.antt =====
-- What a UDP socket of src/iyelld/network.c makes of a client's datagram.
use iyell.Base.{
  ℕ, ◌+◌, ◌≤◌, true, false, ok, ◌>>=◌, List, [], ◌∷◌, ◌++◌, none, some, ◌≡◌, ◌≢◌, refl, sym, ◌∙◌,
  ap, arith, length, length-append,
}
use iyell.CString.{Bytes, codes, contains}
use iyell.CString.Split.{Free}
use iyell.Conf.{hash_text_get_first}
use iyell.Daemon.{Daemon}
use iyell.Event.{EvBuffer, evbuffer_length}
use iyell.Info.{good, info_line, info_parse, count_good}
use iyell.Info.Delivery.{client_line, privmsg_lines, info_line-delivers}
use iyell.Info.Relay.{info_parse-last}
use iyell.Irc.{deref}
use iyell.Irc.Lines.{privmsg_line}
use iyell.Number.{decimal, long_max}
use iyell.Listener.{
  Listeners, udp_get_key, info_rc4_cipher, dgram_parse, count_in, force_output, parse_packet,
  net_dgram_read,
}

privmsg_lines-some :
    (chan : Bytes) (chans : List Bytes) (message out : Bytes)
    → 1 ≤ length (out ++ privmsg_lines (chan ∷ chans) message)
unfolding privmsg_lines privmsg_line
privmsg_lines-some chan chans message out =
    omega (arith, length-append out (privmsg_lines (chan ∷ chans) message))

module _ {B : Type 0} ⦃ev : EvBuffer B⦄ where
  open ev use {evbuffer_data, evbuffer_add, evbuffer_overwrite, data-add, data-overwrite}

  -- The bytes were added to the output, which waits to be written; the buffer of the datagrams is
  -- empty again, and the settings are as before.
  pub record Delivered (l l' : Listeners B) (added : Bytes) : Type 0 where
    pub same_conf : l'.daemon.conf ≡ l.daemon.conf
    pub same_mode : l'.daemon.mode ≡ l.daemon.mode
    pub same_env : l'.daemon.env ≡ l.daemon.env
    pub drained : evbuffer_data l'.dgram_in ≡ []
    pub output : evbuffer_data l'.daemon.ircout ≡ evbuffer_data l.daemon.ircout ++ added
    pub writes : l'.daemon.writing ≡ true

  force_output-writes :
      (d : Daemon B)
      → 1 ≤ length (evbuffer_data d.ircout)
      → force_output d ≡ record d { writing = true }
  unfolding force_output evbuffer_length
  force_output-writes d h = ground (arith, h)

  net_dgram_read-some :
      (fd : ℕ) (datagram : Bytes) (l : Listeners B)
      → 1 ≤ length datagram
      → net_dgram_read fd (some datagram) l ≡ (
          parse_packet dgram_parse datagram l.daemon l.dgram_in >>= λ r.
          ok (record l { daemon = r.0; dgram_in = r.1 }))
  unfolding net_dgram_read
  net_dgram_read-some fd [] l h = ground (arith, h)
  net_dgram_read-some fd (c ∷ tmp) l h = refl

  dgram_parse-key :
      (d : Daemon B) (b : B) (key : Bytes)
      → hash_text_get_first d.conf.global (codes "udp_key") ≡ some key
      → dgram_parse d b ≡ info_parse d (evbuffer_overwrite b (d.env.rc4 key (evbuffer_data b)))
  unfolding dgram_parse udp_get_key info_rc4_cipher deref
  dgram_parse-key d b key h = rw h refl

  -- A packet that deciphers to one line is parsed as this line.
  parse_packet-line :
      (line datagram key : Bytes) (d d' : Daemon B) (b : B)
      → d.mode.connected ≡ true
      → evbuffer_data b ≡ []
      → hash_text_get_first d.conf.global (codes "udp_key") ≡ some key
      → d.env.rc4 key datagram ≡ line ++ codes "\n"
      → length datagram ≡ length (line ++ codes "\n")
      → contains b'\n' line ≡ false
      → contains b'\r' line ≡ false
      → info_line line (count_in (length datagram) d) ≡ ok (good, d')
      → (b' : B) × (parse_packet dgram_parse datagram d b ≡ ok (force_output (count_good d'), b'))
        × (evbuffer_data b' ≡ [])
  unfolding parse_packet count_in contains
  parse_packet-line line datagram key d d' b on empty set deciphers same newline return verdict =
      let added = evbuffer_add b datagram in
      let received : evbuffer_data added ≡ datagram = data-add b datagram ∙ rw empty refl in
      let clear : d.env.rc4 key (evbuffer_data added) ≡ line ++ codes "\n" =
        ap (d.env.rc4 key) received ∙ deciphers in
      let text : evbuffer_data (evbuffer_overwrite added (d.env.rc4 key (evbuffer_data added)))
          ≡ line ++ codes "\n" =
        data-overwrite added _ (ap length clear ∙ sym same ∙ sym (ap length received)) ∙ clear in
      let (b', parsed, empty') =
        info_parse-last line [] (count_in (length datagram) d) d' _ on newline return refl
          (omega arith) text verdict in
      (
        b',
        rw (dgram_parse-key (count_in (length datagram) d) added key set) (rw parsed refl),
        empty',
      )

  Delivered-line :
      (l : Listeners B) (n : ℕ) (out b' : B) (chan : Bytes) (chans : List Bytes) (message : Bytes)
      → evbuffer_data out ≡ evbuffer_data l.daemon.ircout ++ privmsg_lines (chan ∷ chans) message
      → evbuffer_data b' ≡ []
      → Delivered l
          (record l {
            daemon = force_output (count_good (record (count_in n l.daemon) { ircout = out }));
            dgram_in = b';
          })
          (privmsg_lines (chan ∷ chans) message)
  unfolding count_good count_in
  Delivered-line l n out b' chan chans message e empty =
      let some_out : 1 ≤ length (evbuffer_data out) =
        rw e (privmsg_lines-some chan chans message (evbuffer_data l.daemon.ircout)) in
      rw (force_output-writes (count_good (record (count_in n l.daemon) { ircout = out })) some_out)
        (record {
          same_conf = refl;
          same_mode = refl;
          same_env = refl;
          drained = empty;
          output = e;
          writes = refl;
        })

  -- A datagram that deciphers to one message of a client adds a PRIVMSG line for each channel of
  -- the message's type.
  pub net_dgram_read-Delivered :
      (c x p o current fd : ℕ) (type message chan datagram key : Bytes) (chans : List Bytes)
      → (l : Listeners B) → l.daemon.mode.connected ≡ true
      → evbuffer_data l.dgram_in ≡ []
      → hash_text_get_first l.daemon.conf.global (codes "udp_key") ≡ some key
      → l.daemon.env.rc4 key datagram ≡ client_line (c ∷ type) p (x ∷ message) ++ codes "\n"
      → length datagram ≡ length (client_line (c ∷ type) p (x ∷ message) ++ codes "\n")
      → contains b'\n' (client_line (c ∷ type) p (x ∷ message)) ≡ false
      → contains b'\r' (client_line (c ∷ type) p (x ∷ message)) ≡ false
      → Free (codes ":") (c ∷ type)
      → c ≢ b'='
      → l.daemon.conf.forward (c ∷ type) ≡ some (chan ∷ chans)
      → l.daemon.conf.transmit (c ∷ type) ≡ none
      → hash_text_get_first l.daemon.conf.global (codes "offset") ≡ some (decimal o)
      → l.daemon.env.time ≡ some current
      → 1 ≤ o
      → o ≤ long_max
      → 1 ≤ p
      → p ≤ long_max
      → current ≤ long_max
      → p ≤ current + o
      → current ≤ p + o
      → (l' : Listeners B) × (net_dgram_read fd (some datagram) l ≡ ok l')
        × Delivered l l' (privmsg_lines (chan ∷ chans) (x ∷ message))
  unfolding count_in
  net_dgram_read-Delivered c x p o current fd type message chan datagram key chans l on empty set
        deciphers same newline return free plain channels bots offset clock o_pos o_max p_pos p_max
        c_max late early =
      let (out, verdict, output) =
        info_line-delivers c x p o current type message (chan ∷ chans)
          (count_in (length datagram) l.daemon) free plain channels bots offset clock o_pos o_max
          p_pos p_max c_max late early in
      let (b', parsed, empty') =
        parse_packet-line (client_line (c ∷ type) p (x ∷ message)) datagram key l.daemon _
          l.dgram_in on empty set deciphers same newline return verdict in
      let some_bytes : 1 ≤ length datagram =
        omega (arith, same, length-append (client_line (c ∷ type) p (x ∷ message)) (codes "\n")) in
      (
        _,
        net_dgram_read-some fd datagram l some_bytes ∙ rw parsed refl,
        Delivered-line l (length datagram) out b' chan chans (x ∷ message) output empty',
      )
