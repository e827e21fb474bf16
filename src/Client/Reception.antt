-- ===== src/Client/Reception.antt =====
-- What the bot makes of the datagrams of src/iyell/main.c, up to the channels.
use iyell.Base.{
  ℕ, ◌+◌, ◌≤◌, true, false, Run, ok, ◌>>=◌, List, [], ◌∷◌, ◌++◌, Option, none, some, ◌≡◌, ◌≢◌, refl,
  ◌∙◌, ap, arith, length, append_assoc, append-nil, map, take, All,
}
use iyell.CString.{Bytes, codes, contains, is_digit}
use iyell.CString.Split.{Free}
use iyell.Conf.{Conf, hash_text_get_first}
use iyell.Daemon.{Env, Mode}
use iyell.Event.{EvBuffer}
use iyell.Info.Delivery.{client_line, privmsg_lines}
use iyell.CommandText.{buff_size}
use iyell.Listener.{Listeners, net_dgram_read}
use iyell.Listener.Delivery.{Delivered, net_dgram_read-Delivered}
use iyell.Number.{decimal, long_max}
use iyell.Client.{
  Host, Settings, Opt, udp, socket, goes_on, message_text, is_path, read_password, on_type,
  checkopt, client, send_messages,
}
use iyell.Client.Delivery.{
  body, datagram, to_bot, message_text-client_line, client_line-without, take-all,
  send_messages-udp,
}

-- A message that the bot reads as it was given: it is not empty, has no line end, and its datagram
-- fits into the buffer of the bot.
pub record Fits (type : Bytes) (p : ℕ) (intro : Option Bytes) (str : Bytes) : Type 0 where
  pub nonempty : 1 ≤ length (body intro str)
  pub no_newline : contains b'\n' (body intro str) ≡ false
  pub no_return : contains b'\r' (body intro str) ≡ false
  pub fits : length (client_line type p (body intro str) ++ codes "\n") ≤ buff_size

-- The PRIVMSG lines of all messages.
unfoldable pub delivered_lines : List Bytes → Option Bytes → List Bytes → Bytes
delivered_lines chans intro [] = []
delivered_lines chans intro (str ∷ argv) =
    privmsg_lines chans (body intro str) ++ delivered_lines chans intro argv

module _ {B : Type 0} ⦃ev : EvBuffer B⦄ where
  -- The datagrams arrive one after the other, each cut to the size of the buffer that it is read to.
  unfoldable pub receive_all : ℕ → List Bytes → Listeners B → Run (Listeners B)
  receive_all fd [] l = ok l
  receive_all fd (datagram ∷ rest) l =
      net_dgram_read fd (some (take buff_size datagram)) l >>= λ l'. receive_all fd rest l'

-- What the client and the bot agree on.
module _ (h : Host) (c p o current : ℕ) (type key chan : Bytes) (chans : List Bytes) (conf : Conf)
    (env : Env) where
  record Agree : Type 0 where
    now : h.time ≡ some p
    inverse : (s : Bytes) → env.rc4 key (h.rc4 key s) ≡ s
    same_length : (s : Bytes) → length (h.rc4 key s) ≡ length s
    set : hash_text_get_first conf.global (codes "udp_key") ≡ some key
    type_newline : contains b'\n' (c ∷ type) ≡ false
    type_return : contains b'\r' (c ∷ type) ≡ false
    free : Free (codes ":") (c ∷ type)
    plain : c ≢ b'='
    channels : conf.forward (c ∷ type) ≡ some (chan ∷ chans)
    bots : conf.transmit (c ∷ type) ≡ none
    offset : hash_text_get_first conf.global (codes "offset") ≡ some (decimal o)
    bot_clock : env.time ≡ some current
    o_pos : 1 ≤ o
    o_max : o ≤ long_max
    p_pos : 1 ≤ p
    p_max : p ≤ long_max
    c_max : current ≤ long_max
    late : p ≤ current + o
    early : current ≤ p + o

text_of_line :
    (h : Host) (p : ℕ) (type : Bytes) (intro : Option Bytes) (str : Bytes)
    → h.time ≡ some p
    → message_text type h.time intro str ≡ client_line type p (body intro str) ++ codes "\n"
text_of_line h p type intro str now =
    ap (λ t. message_text type t intro str) now ∙ message_text-client_line type p intro str

module _ {B : Type 0} ⦃ev : EvBuffer B⦄ (h : Host) (g : Settings) (c p o current fd : ℕ)
    (type key chan : Bytes) (chans : List Bytes) (conf : Conf) (env : Env) where
  open ev use {evbuffer_data}

  -- A bot that has the key, is connected, forwards the type to the channels and has nothing of an
  -- earlier datagram left.
  record Ready (l : Listeners B) : Type 0 where
    conf_is : l.daemon.conf ≡ conf
    env_is : l.daemon.env ≡ env
    on : l.daemon.mode.connected ≡ true
    empty : evbuffer_data l.dgram_in ≡ []

  -- One message, for a body that is given with its first byte.
  read-Delivered :
      (x : ℕ) (message datagram' : Bytes) (l : Listeners B)
      → Agree h c p o current type key chan chans conf env
      → Ready l
      → datagram' ≡ h.rc4 key (client_line (c ∷ type) p (x ∷ message) ++ codes "\n")
      → contains b'\n' (x ∷ message) ≡ false
      → contains b'\r' (x ∷ message) ≡ false
      → (l' : Listeners B) × (net_dgram_read fd (some datagram') l ≡ ok l')
        × Delivered l l' (privmsg_lines (chan ∷ chans) (x ∷ message))
  unfolding contains is_digit
  read-Delivered x message datagram' l a r e newline return =
      let line = client_line (c ∷ type) p (x ∷ message) ++ codes "\n" in
      let deciphers : l.daemon.env.rc4 key datagram' ≡ line =
        ap (λ (v : Env). v.rc4 key datagram') r.env_is ∙ ap (env.rc4 key) e ∙ a.inverse line in
      net_dgram_read-Delivered c x p o current fd type message chan datagram' key chans l r.on
        r.empty
        (ap (λ (v : Conf). hash_text_get_first v.global (codes "udp_key")) r.conf_is ∙ a.set)
        deciphers (ap length e ∙ a.same_length line)
        (client_line-without b'\n' p (c ∷ type) (x ∷ message) refl refl a.type_newline newline)
        (client_line-without b'\r' p (c ∷ type) (x ∷ message) refl refl a.type_return return) a.free
        a.plain (ap (λ (v : Conf). v.forward (c ∷ type)) r.conf_is ∙ a.channels)
        (ap (λ (v : Conf). v.transmit (c ∷ type)) r.conf_is ∙ a.bots)
        (ap (λ (v : Conf). hash_text_get_first v.global (codes "offset")) r.conf_is ∙ a.offset)
        (ap (λ (v : Env). v.time) r.env_is ∙ a.bot_clock) a.o_pos a.o_max a.p_pos a.p_max a.c_max
        a.late a.early

  body-Delivered :
      (message datagram' : Bytes) (l : Listeners B)
      → Agree h c p o current type key chan chans conf env
      → Ready l
      → 1 ≤ length message
      → datagram' ≡ h.rc4 key (client_line (c ∷ type) p message ++ codes "\n")
      → contains b'\n' message ≡ false
      → contains b'\r' message ≡ false
      → (l' : Listeners B) × (net_dgram_read fd (some datagram') l ≡ ok l')
        × Delivered l l' (privmsg_lines (chan ∷ chans) message)
  body-Delivered [] datagram' l a r some_body e newline return = ground (arith, some_body)
  body-Delivered (x ∷ message) datagram' l a r some_body e newline return =
      read-Delivered x message datagram' l a r e newline return

  one-Delivered :
      (str : Bytes) (l : Listeners B)
      → Agree h c p o current type key chan chans conf env
      → Ready l
      → Fits (c ∷ type) p g.intro str
      → (l' : Listeners B) × (net_dgram_read fd
            (some (take buff_size (datagram h g (c ∷ type) key str)))
            l
          ≡ ok l')
        × Delivered l l' (privmsg_lines (chan ∷ chans) (body g.intro str))
  one-Delivered str l a r f =
      let line = client_line (c ∷ type) p (body g.intro str) ++ codes "\n" in
      let e : datagram h g (c ∷ type) key str ≡ h.rc4 key line =
        ap (h.rc4 key) (text_of_line h p (c ∷ type) g.intro str a.now) in
      let whole : take buff_size (datagram h g (c ∷ type) key str)
          ≡ datagram h g (c ∷ type) key str =
        take-all buff_size (datagram h g (c ∷ type) key str)
          (omega (arith, f.fits, ap length e, a.same_length line)) in
      body-Delivered (body g.intro str) (take buff_size (datagram h g (c ∷ type) key str)) l a r
        f.nonempty (whole ∙ e) f.no_newline f.no_return

  Ready-Delivered : (l l' : Listeners B) (added : Bytes) → Ready l → Delivered l l' added → Ready l'
  Ready-Delivered l l' added r d = record {
    conf_is = d.same_conf ∙ r.conf_is;
    env_is = d.same_env ∙ r.env_is;
    on = ap (λ (m : Mode). m.connected) d.same_mode ∙ r.on;
    empty = d.drained;
  }

  Delivered-both :
      (l l₁ l₂ : Listeners B) (s t : Bytes)
      → Delivered l l₁ s
      → Delivered l₁ l₂ t
      → Delivered l l₂ (s ++ t)
  Delivered-both l l₁ l₂ s t d e = record {
    same_conf = e.same_conf ∙ d.same_conf;
    same_mode = e.same_mode ∙ d.same_mode;
    same_env = e.same_env ∙ d.same_env;
    drained = e.drained;
    output = e.output ∙ rw d.output (append_assoc (evbuffer_data l.daemon.ircout) s t);
    writes = e.writes;
  }

  receive_all-Delivered :
      (str : Bytes) (argv : List Bytes) (l : Listeners B)
      → Agree h c p o current type key chan chans conf env
      → Ready l
      → All (Fits (c ∷ type) p g.intro) (str ∷ argv)
      → (l' : Listeners B) × (receive_all fd (map (datagram h g (c ∷ type) key) (str ∷ argv)) l
          ≡ ok l')
        × Delivered l l' (delivered_lines (chan ∷ chans) g.intro (str ∷ argv))
  unfolding receive_all delivered_lines
  receive_all-Delivered str [] l a r f =
      let (l₁, run, d) = one-Delivered str l a r f.0 in
      (l₁, rw run refl, rw (append-nil (privmsg_lines (chan ∷ chans) (body g.intro str))) d)
  receive_all-Delivered str (next ∷ argv) l a r f =
      let (l₁, run, d) = one-Delivered str l a r f.0 in
      let (l₂, run', d') = receive_all-Delivered next argv l₁ a (Ready-Delivered l l₁ _ r d) f.1 in
      (l₂, rw run run', Delivered-both l l₁ l₂ _ _ d d')

on_type-some :
    (h : Host) (g : Settings) (type key : Bytes) (argv : List Bytes)
    → is_path g.address ≡ false
    → read_password h g.file ≡ some key
    → on_type h g (some type) argv ≡ send_messages h g type argv []
unfolding on_type read_password
on_type-some h g type key argv remote password = ground (arith, remote, password)

client-type :
    (h : Host) (options : List Opt) (g : Settings) (type key str : Bytes) (argv : List Bytes)
    → checkopt options ≡ some g
    → g.type ≡ some type
    → is_path g.address ≡ false
    → read_password h g.file ≡ some key
    → client h options (str ∷ argv) ≡ send_messages h g type (str ∷ argv) []
unfolding client
client-type h options g type key str argv parsed typed remote password =
    rw (parsed, client)
      (ap (λ t. on_type h g t (str ∷ argv)) typed
        ∙ on_type-some h g type key (str ∷ argv) remote password)

map-udp :
    (h : Host) (g : Settings) (type key : Bytes) (argv : List Bytes)
    → map (to_bot h g type key) argv ≡ map (udp g.address g.port) (map (datagram h g type key) argv)
map-udp h g type key [] = refl
map-udp h g type key (str ∷ argv) =
    ap (λ r. to_bot h g type key str ∷ r) (map-udp h g type key argv)

module _ {B : Type 0} ⦃ev : EvBuffer B⦄ where
  open ev use {evbuffer_data}

  -- From the command line to the channels: a client with a type, a host and a password sends one
  -- datagram for each message, and when a bot that is connected and has the same key reads these
  -- datagrams, it adds the PRIVMSG lines of each message to its output, one for each channel of the
  -- type, in the order of the messages, and waits to write them. RC4 with a key is taken to be its
  -- own inverse and to keep the length; the messages fit in the bot's buffer and have no line ends,
  -- the type has channels and no bots, and the two clocks differ by the offset at most.
  pub client-Delivered :
      (h : Host) (options : List Opt) (g : Settings) (str : Bytes) (argv : List Bytes)
      → (c p o current fd : ℕ) (type key chan : Bytes) (chans : List Bytes) (l : Listeners B)
      → checkopt options ≡ some g
      → g.type ≡ some (c ∷ type)
      → is_path g.address ≡ false
      → read_password h g.file ≡ some key
      → h.getaddrinfo g.address g.port ≡ socket true
      → h.time ≡ some p
      → ((s : Bytes) → l.daemon.env.rc4 key (h.rc4 key s) ≡ s)
      → ((s : Bytes) → length (h.rc4 key s) ≡ length s)
      → All (Fits (c ∷ type) p g.intro) (str ∷ argv)
      → contains b'\n' (c ∷ type) ≡ false
      → contains b'\r' (c ∷ type) ≡ false
      → Free (codes ":") (c ∷ type)
      → c ≢ b'='
      → l.daemon.mode.connected ≡ true
      → evbuffer_data l.dgram_in ≡ []
      → hash_text_get_first l.daemon.conf.global (codes "udp_key") ≡ some key
      → l.daemon.conf.forward (c ∷ type) ≡ some (chan ∷ chans)
      → l.daemon.conf.transmit (c ∷ type) ≡ none
      → hash_text_get_first l.daemon.conf.global (codes "offset") ≡ some (decimal o)
      → l.daemon.env.time ≡ some current
      → 1 ≤ o
      → o ≤ long_max
      → 1 ≤ p
      → p ≤ long_max
      → current ≤ long_max
      → p ≤ current + o
      → current ≤ p + o
      → let datagrams = map (datagram h g (c ∷ type) key) (str ∷ argv) in
        (l' : Listeners B) × (client h options (str ∷ argv)
          ≡ ok (goes_on (map (udp g.address g.port) datagrams)))
        × (receive_all fd datagrams l ≡ ok l')
        × (evbuffer_data l'.daemon.ircout
            ≡ evbuffer_data l.daemon.ircout ++ delivered_lines (chan ∷ chans) g.intro (str ∷ argv))
        × (l'.daemon.writing ≡ true)
  client-Delivered h options g str argv c p o current fd type key chan chans l parsed typed remote
        password resolves now inverse same fits newline return free plain on empty set channels bots
        offset bot_clock o_pos o_max p_pos p_max c_max late early =
      let (l', run, d) =
        receive_all-Delivered h g c p o current fd type key chan chans l.daemon.conf l.daemon.env
          str argv l
          (record {
            now = now;
            inverse = inverse;
            same_length = same;
            set = set;
            type_newline = newline;
            type_return = return;
            free = free;
            plain = plain;
            channels = channels;
            bots = bots;
            offset = offset;
            bot_clock = bot_clock;
            o_pos = o_pos;
            o_max = o_max;
            p_pos = p_pos;
            p_max = p_max;
            c_max = c_max;
            late = late;
            early = early;
          })
          (record { conf_is = refl; env_is = refl; on = on; empty = empty }) fits in
      (
        l',
        client-type h options g (c ∷ type) key str argv parsed typed remote password
            ∙ send_messages-udp h g (c ∷ type) key (str ∷ argv) [] remote password resolves
            ∙ ap (λ s. ok (goes_on s)) (map-udp h g (c ∷ type) key (str ∷ argv)),
        run,
        d.output,
        d.writes,
      )
