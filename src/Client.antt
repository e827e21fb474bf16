-- ===== src/Client.antt =====
-- src/iyell/main.c and src/iyell/opt.c: the client, which sends the messages of its command line to a bot.
pub mod Delivery
pub mod Reception
use iyell.Base.{
  ℕ, zero, suc, ◌-◌, Bool, true, false, Run, ok, fault, null_pointer, ◌>>=◌, List, [], ◌∷◌, ◌++◌,
  Option, none, some, ◌==◌, ltb, if◌then◌else◌, length, take,
}
use iyell.Base.Int.{ℤ}
use iyell.CString.{Bytes, codes, split}
use iyell.Irc.{deref}
use iyell.CommandText.{buff_size}
use iyell.Listener.{sun_path_size}
use iyell.SyslogParse.{c_string}
use iyell.Number.{print_long}
use iyell.Transmit.{time_long}

-- What `getopt_long` answers, an option each, with `optarg`.
pub data Opt : Type 0 where
  set_address set_file set_intro set_port set_type : Bytes → Opt
  set_debug set_verbose help show_version unknown : Opt

-- The variables that the options set.
pub record Settings : Type 0 where
  pub address : Bytes
  pub port : Bytes
  pub file : Option Bytes
  pub intro : Option Bytes
  pub type : Option Bytes
  pub debug : Bool
  pub verbose : Bool

abbrev pub default_settings : Settings
default_settings = record {
  address = codes "localhost";
  port = codes "25879";
  file = none;
  intro = none;
  type = none;
  debug = false;
  verbose = false;
}

-- The loop of `checkopt`; `none` when `usage` or `version` ends the program.
unfoldable pub set_options : List Opt → Settings → Option Settings
set_options [] g = some g
set_options (set_address optarg ∷ rest) g = set_options rest (record g { address = optarg })
set_options (set_file optarg ∷ rest) g = set_options rest (record g { file = some optarg })
set_options (set_intro optarg ∷ rest) g = set_options rest (record g { intro = some optarg })
set_options (set_port optarg ∷ rest) g = set_options rest (record g { port = optarg })
set_options (set_type optarg ∷ rest) g = set_options rest (record g { type = some optarg })
set_options (set_debug ∷ rest) g = set_options rest (record g { debug = true })
set_options (set_verbose ∷ rest) g = set_options rest (record g { verbose = true })
set_options (help ∷ rest) g = none
set_options (show_version ∷ rest) g = none
set_options (unknown ∷ rest) g = set_options rest g

unfoldable pub checkopt : List Opt → Option Settings
unfolding set_options
checkopt options = set_options options default_settings

-- What becomes of a host and a port: `getaddrinfo` fails, no address has a socket, or there is one,
-- and then the flag is whether the datagram is handed to it.
pub data Lookup : Type 0 where
  not_found no_socket : Lookup
  socket : Bool → Lookup

-- The answers of the system to the client: `time(NULL)`, what a file holds if it can be opened,
-- the RC4 of OpenSSL, addresses, and whether a Unix socket can be opened, connected and written to.
pub record Host : Type 0 where
  pub time : Option ℕ
  pub fopen : Bytes → Option Bytes
  pub rc4 : Bytes → Bytes → Bytes
  pub getaddrinfo : Bytes → Bytes → Lookup
  pub connects : Bytes → Bool

-- A datagram that was handed to a socket: UDP to a host and a port, or Unix at a path.
pub data Sent : Type 0 where
  udp : Bytes → Bytes → Bytes → Sent
  unix : Bytes → Bytes → Sent

-- The program goes on, or it called `exit(ERROR)` or `exit(NOERROR)`, with what was sent so far.
pub data Step : Type 0 where
  goes_on fails quits : List Sent → Step

-- The first `room` bytes, or those through the first newline if that comes earlier.
unfoldable pub line_of : ℕ → Bytes → Bytes
line_of zero s = []
line_of (suc room) [] = []
line_of (suc room) (c ∷ s) = let r = line_of room s in if c == b'\n' then c ∷ [] else c ∷ r

-- `fgets(buffer, size, f)` at the start of a file; `none` is `NULL`, at the end of the file.
unfoldable pub fgets : ℕ → Bytes → Option Bytes
unfolding line_of
fgets size [] = none
fgets size (c ∷ s) = some (line_of (size - 1) (c ∷ s))

-- `none` when the program fails.
unfoldable pub read_password : Host → Option Bytes → Option Bytes
unfolding fgets c_string
read_password h none = none
read_password h (some g_file) = elim (h.fopen g_file) [
  | none ↦ none
  | some f ↦ elim (fgets buff_size f) [
    | none ↦ none
    | some buffer ↦ some (split (codes "\n") (c_string buffer)).0
  ]
]

-- `"%s:%ld:%s\n"`, or `"%s:%ld:%s %s\n"` with an introduction
unfoldable pub message_text : Bytes → Option ℕ → Option Bytes → Bytes → Bytes
unfolding time_long
message_text type now none str =
    type ++ (codes ":" ++ (print_long (time_long now) ++ (codes ":" ++ (str ++ codes "\n"))))
message_text type now (some intro) str =
    type
    ++ (codes ":"
        ++ (print_long (time_long now)
            ++ (codes ":" ++ (intro ++ (codes " " ++ (str ++ codes "\n"))))))

-- Without a socket, `res` is `NULL` where its family is read.
unfoldable pub send_udp : Host → Settings → Bytes → List Sent → Run Step
send_udp h g str sent = elim (h.getaddrinfo g.address g.port) [
  | not_found ↦ ok (fails sent)
  | no_socket ↦ fault null_pointer
  | socket taken ↦ ok (goes_on (if taken then sent ++ (udp g.address g.port str ∷ []) else sent))
]

unfoldable pub send_unix : Host → Settings → Bytes → List Sent → Step
send_unix h g str sent =
    if ltb (sun_path_size - 1) (length g.address)
    then fails sent
    else if h.connects g.address
    then goes_on (sent ++ (unix g.address str ∷ []))
    else fails sent

-- `g_address[0] == '/'`; the zero at the end of a string is no `/`.
unfoldable pub is_path : Bytes → Bool
is_path [] = false
is_path (c ∷ s) = c == b'/'

-- `asprintf` and `malloc` succeed.
unfoldable pub send_message : Host → Settings → Bytes → Bytes → List Sent → Run Step
unfolding message_text send_unix send_udp read_password is_path
send_message h g type str sent =
    let msg = message_text type h.time g.intro str in
    if is_path g.address then ok (send_unix h g msg sent) else elim (read_password h g.file) [
      | none ↦ ok (fails sent)
      | some password ↦ send_udp h g (h.rc4 password msg) sent
    ]

-- The loop over the arguments.
unfoldable pub send_messages : Host → Settings → Bytes → List Bytes → List Sent → Run Step
unfolding send_message
send_messages h g type [] sent = ok (goes_on sent)
send_messages h g type (arg ∷ argv) sent = send_message h g type arg sent >>= λ r. elim r [
  | goes_on sent' ↦ send_messages h g type argv sent'
  | fails sent' ↦ ok (fails sent')
  | quits sent' ↦ ok (quits sent')
]

on_type : Host → Settings → Option Bytes → List Bytes → Run Step
unfolding send_messages is_path
on_type h g none argv = ok (fails [])
on_type h g (some type) argv = elim (is_path g.address) [
  | true ↦ send_messages h g type argv []
  | false ↦ elim g.file [ none ↦ ok (fails []) | some g_file ↦ send_messages h g type argv [] ]
]

-- `main`, on the options and the arguments that are left.
unfoldable pub client : Host → List Opt → List Bytes → Run Step
unfolding checkopt on_type
client h options argv = elim (checkopt options) [
  | none ↦ ok (quits [])
  | some g ↦ elim argv [ [] ↦ ok (quits []) | arg ∷ rest ↦ on_type h g g.type (arg ∷ rest) ]
]
