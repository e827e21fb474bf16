-- ===== src/Tests/Clients.antt =====
-- The client and a bot that reads its datagrams, on an example.
use iyell.Base.{
  ℕ, zero, suc, ok, true, [], ◌∷◌, ◌++◌, List, some, ◌≡◌, refl, ap, arith, length, map,
}
use iyell.CString.{Bytes, codes, contains, split, str_eq}
use iyell.Client.{
  Host, Settings, Opt, set_file, set_intro, set_type, set_verbose, default_settings, checkopt,
  set_options, udp, socket, goes_on, read_password, fgets, line_of, is_path, client,
}
use iyell.Client.Delivery.{datagram}
use iyell.Client.Reception.{Fits, receive_all, delivered_lines, client-Delivered}
use iyell.Conf.{hash_text_get_first}
use iyell.Daemon.{Daemon}
use iyell.Listener.{Listeners}
use iyell.Number.{decimal}
use iyell.SyslogParse.{c_string}
use iyell.Transmit.{scan_until}
use iyell.Tests.Buffer.{list_buffer}
use iyell.Tests.Samples.{daemon, env}

-- A cipher that is its own inverse: even bytes and odd bytes change places.
abbrev swap : ℕ → ℕ
swap zero = 1
swap (suc zero) = 0
swap (suc (suc n)) = suc (suc (swap n))

swap-swap : (n : ℕ) → swap (swap n) ≡ n
swap-swap zero = refl
swap-swap (suc zero) = refl
swap-swap (suc (suc n)) = ap (λ m. suc (suc m)) (swap-swap n)

abbrev cipher : Bytes → Bytes → Bytes
cipher key s = map swap s

cipher-cipher : (s : Bytes) → cipher (codes "k") (cipher (codes "k") s) ≡ s
cipher-cipher [] = refl
cipher-cipher (c ∷ s) = rw (swap-swap c) (ap (λ r. c ∷ r) (cipher-cipher s))

length-cipher : (s : Bytes) → length (cipher (codes "k") s) ≡ length s
length-cipher [] = refl
length-cipher (c ∷ s) = ap suc (length-cipher s)

abbrev host : Host
host = record {
  time = some 1234567000;
  fopen = λ g_file. some (codes "k\n");
  rc4 = cipher;
  getaddrinfo = λ address port. socket true;
  connects = λ path. true;
}

abbrev options : List Opt
options =
    set_type (codes "warn") ∷ set_verbose ∷ set_file (codes "key") ∷ set_intro (codes "note:") ∷ []

abbrev settings : Settings
settings = record default_settings {
  file = some (codes "key");
  intro = some (codes "note:");
  type = some (codes "warn");
  verbose = true;
}

abbrev bot : Daemon Bytes
bot = record daemon { env = record env { rc4 = cipher } }

abbrev listeners : Listeners Bytes
listeners = record {
  daemon = bot;
  dgram_in = [];
  syslog_in = [];
  unix_sock = [];
  syslog4 = 0;
  syslog6 = 0;
  udp4 = 5;
  udp6 = 6;
  unix = 0;
  opened = [];
  closed = [];
  unlinked = [];
}

up-Fits : Fits (codes "warn") 1234567000 settings.intro (codes "up")
unfolding contains decimal
up-Fits = record { nonempty = omega arith; no_newline = refl; no_return = refl; fits = omega arith }

down-Fits : Fits (codes "warn") 1234567000 settings.intro (codes "down")
unfolding contains decimal
down-Fits = record {
  nonempty = omega arith;
  no_newline = refl;
  no_return = refl;
  fits = omega arith;
}

client-Delivered_example :
    let datagrams =
      map (datagram host settings (codes "warn") (codes "k")) (codes "up" ∷ codes "down" ∷ []) in
    (l' : Listeners Bytes) × (client host options (codes "up" ∷ codes "down" ∷ [])
      ≡ ok (goes_on (map (udp settings.address settings.port) datagrams)))
    × (receive_all 5 datagrams listeners ≡ ok l')
    × (l'.daemon.ircout
        ≡ daemon.ircout
          ++ delivered_lines
              (codes "#a" ∷ codes "#b" ∷ [])
              settings.intro
              (codes "up" ∷ codes "down" ∷ []))
    × (l'.daemon.writing ≡ true)
unfolding contains hash_text_get_first decimal str_eq checkopt set_options read_password fgets
    line_of c_string scan_until split is_path
client-Delivered_example =
    client-Delivered host options settings (codes "up") (codes "down" ∷ []) b'w' 1234567000 900
      1234567890 5 (codes "arn") (codes "k") (codes "#a") (codes "#b" ∷ []) listeners refl refl refl
      refl refl refl cipher-cipher length-cipher (up-Fits, (down-Fits, tt)) refl refl
      (refl, (refl, (refl, (refl, tt)))) (omega arith) refl refl refl refl refl refl refl
      (omega arith) (omega arith) (omega arith) (omega arith) (omega arith) (omega arith)
      (omega arith)
