-- ===== src/Tests/Delivery.antt =====
-- Messages of clients, of other bots and of syslog on examples.
use iyell.Base.{
  ◌+◌, Bool, ◌&&◌, ok, fault, out_of_bounds, [], ◌∷◌, ◌++◌, some, ◌≡◌, inr, refl, arith,
  if◌then◌else◌, leb, get_elem?,
}
use iyell.CString.{Bytes, codes, str_eq, contains}
use iyell.Conf.{hash_text_get_first}
use iyell.Daemon.{Daemon}
use iyell.Info.{good, valid, exceeded, info_line, info_check_timestamp, info_parse, count_good}
use iyell.Info.Delivery.{
  client_line, privmsg_lines, info_line-delivers, info_line-exceeded, info_check_timestamp-window,
}
use iyell.Info.Relay.{info_parse-skips}
use iyell.Info.Total.{Finishes, info_parse-Finishes}
use iyell.Number.{decimal, is_space}
use iyell.Syslog.{
  facilities, severities, c_severities, sl_find_target_channels, build_data, sl_forward,
}
use iyell.Syslog.Targets.{channels_of, any_set, sl_find_target_channels-keys}
use iyell.SyslogParse.{sl_line, starts_with_month}
use iyell.SyslogParse.Short.{packet, sl_line-packet}
use iyell.Transmit.{info_transmit, parse_bot}
use iyell.Transmit.Overflow.{info_transmit-overflows}
use iyell.Tests.Buffer.{list_buffer}
use iyell.Tests.Samples.{conf, daemon}

info_line-delivers_example :
    (out : Bytes) × (info_line (client_line (codes "warn") 1234567000 (codes "hi")) daemon
      ≡ ok (good, record daemon { ircout = out }))
    × (out ≡ daemon.ircout ++ privmsg_lines (codes "#a" ∷ codes "#b" ∷ []) (codes "hi"))
unfolding contains hash_text_get_first decimal str_eq
info_line-delivers_example =
    info_line-delivers b'w' b'h' 1234567000 900 1234567890 (codes "arn") (codes "i")
      (codes "#a" ∷ codes "#b" ∷ []) daemon (refl, (refl, (refl, (refl, tt)))) (omega arith) refl
      refl refl refl (omega arith) (omega arith) (omega arith) (omega arith) (omega arith)
      (omega arith) (omega arith)

info_line-exceeded_example :
    info_line (client_line (codes "warn") 1234560000 (codes "hi")) daemon
    ≡ ok (
      good,
      record daemon { stats = let st = daemon.stats in record st { oe_msg = st.oe_msg + 1 } },
    )
unfolding contains hash_text_get_first decimal str_eq
info_line-exceeded_example =
    info_line-exceeded b'w' b'h' 1234560000 900 1234567890 (codes "arn") (codes "i") daemon
      (refl, (refl, (refl, (refl, tt)))) refl refl (omega arith) (omega arith) (omega arith)
      (omega arith) (omega arith) (inr (omega arith))

info_check_timestamp-window_example :
    info_check_timestamp conf (some 1000) (decimal 1900)
    ≡ ok (if leb 1900 (1000 + 900) && leb 1000 (1900 + 900) then valid else exceeded)
unfolding hash_text_get_first decimal str_eq
info_check_timestamp-window_example =
    info_check_timestamp-window conf 1000 1900 900 refl (omega arith) (omega arith) (omega arith)
      (omega arith) (omega arith)

abbrev old_line : Bytes
old_line = client_line (codes "warn") 1234560000 (codes "hi")

abbrev two_lines : Bytes
two_lines = old_line ++ (b'\n' ∷ (codes "warn:1:ho" ++ codes "\n"))

abbrev counted : Daemon Bytes
counted = record daemon { stats = let st = daemon.stats in record st { oe_msg = st.oe_msg + 1 } }

info_parse-skips_example :
    (b' : Bytes) × (info_parse daemon two_lines ≡ ok (count_good counted, b')) × (b' ≡ [])
unfolding contains hash_text_get_first decimal str_eq
info_parse-skips_example =
    info_parse-skips old_line (codes "warn:1:ho") daemon counted two_lines refl refl refl refl
      (omega arith) refl
      (info_line-exceeded b'w' b'h' 1234560000 900 1234567890 (codes "arn") (codes "i") daemon
        (refl, (refl, (refl, (refl, tt)))) refl refl (omega arith) (omega arith) (omega arith)
        (omega arith) (omega arith) (inr (omega arith)))

info_parse-Finishes_example : Finishes (info_parse daemon (codes "warn:1:ho\n"))
info_parse-Finishes_example = info_parse-Finishes daemon (codes "warn:1:ho\n")

info_transmit-overflows_example :
    info_transmit (codes "[host] port:5900") (codes "warn") (codes "hi") daemon
    ≡ fault out_of_bounds
unfolding parse_bot
info_transmit-overflows_example =
    info_transmit-overflows (codes "[host] port:5900") (codes "host") (codes "5900") (codes "warn")
      (codes "hi") 1234567890 daemon refl refl (omega arith)

sl_line-packet_example :
    sl_line (packet 34 (codes "su") (codes "no")) daemon
    ≡ sl_forward 34 (codes "su") (codes "no") daemon
unfolding contains starts_with_month is_space
sl_line-packet_example =
    sl_line-packet 34 b's' b'n' (codes "u") (codes "o") daemon (omega arith) (refl, (refl, tt))
      (omega arith) refl (refl, (refl, tt)) (omega arith) refl

sl_find_target_channels-keys_example :
    (f : Bytes) × (s : Bytes) × (color : Bytes) × (found : Bool) × (d' : Daemon Bytes) × (get_elem?
        facilities 4
      ≡ some f)
    × (get_elem? severities 2 ≡ some s)
    × (get_elem? c_severities 2 ≡ some color)
    × (sl_find_target_channels 4 2 (codes "su") (codes "no") daemon ≡ ok (found, d'))
    × (let keys =
          codes "*.*" ∷ (f ++ codes ".*") ∷ (codes "*." ++ s) ∷ (f ++ (codes "." ++ s)) ∷ [] in
        (d'.ircout
          ≡ daemon.ircout
            ++ privmsg_lines
                (channels_of conf.forward keys)
                (build_data daemon.mode.color color (codes "su") (codes "no")))
        × (found ≡ any_set conf.forward keys))
sl_find_target_channels-keys_example =
    sl_find_target_channels-keys 4 2 (codes "su") (codes "no") daemon (omega arith) (omega arith)
