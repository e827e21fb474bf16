-- ===== src/Syslog.antt =====
-- src/iyelld/rfc3164.c: syslog messages, which go to the channels and bots of their priority.
pub mod Targets
use iyell.Base.{
  ℕ, zero, suc, ◌+◌, ◌*◌, ◌/◌, ◌%◌, Bool, true, false, ◌||◌, Run, ok, fault, out_of_bounds, ◌>>=◌,
  List, [], ◌∷◌, ◌++◌, Option, none, some, ◌==◌, ltb, if◌then◌else◌, get_elem?, length, take,
}
use iyell.CString.{Bytes, codes, split, contains}
use iyell.Conf.{Conf, Section}
use iyell.Daemon.{Daemon, Mode}
use iyell.Event.{EvBuffer}
use iyell.Info.{privmsg_all, transmit_all}

abbrev pub facilities : List Bytes
facilities =
    codes "kern"
    ∷ codes "user"
    ∷ codes "mail"
    ∷ codes "daemon"
    ∷ codes "auth"
    ∷ codes "syslog"
    ∷ codes "lpr"
    ∷ codes "news"
    ∷ codes "uucp"
    ∷ codes "cron"
    ∷ codes "auth"
    ∷ codes "ftp"
    ∷ codes "ntp"
    ∷ codes "authpriv"
    ∷ codes "authpriv"
    ∷ codes "cron"
    ∷ codes "local0"
    ∷ codes "local1"
    ∷ codes "local2"
    ∷ codes "local3"
    ∷ codes "local4"
    ∷ codes "local5"
    ∷ codes "local6"
    ∷ codes "local7"
    ∷ []

abbrev pub severities : List Bytes
severities =
    codes "emerg"
    ∷ codes "alert"
    ∷ codes "crit"
    ∷ codes "err"
    ∷ codes "warning"
    ∷ codes "notice"
    ∷ codes "info"
    ∷ codes "debug"
    ∷ []

abbrev pub c_severities : List Bytes
c_severities =
    codes "5"
    ∷ codes "5"
    ∷ codes "4"
    ∷ codes "7"
    ∷ codes "8"
    ∷ codes "9"
    ∷ codes "11"
    ∷ codes "15"
    ∷ []

abbrev pub rfc3164_pri_txt : ℕ
rfc3164_pri_txt = 16

abbrev pub rfc3164_max : ℕ
rfc3164_max = 1024

-- A read of a table.
unfoldable pub at : List Bytes → ℕ → Run Bytes
at table i = elim (get_elem? table i) [ none ↦ fault out_of_bounds | some s ↦ ok s ]

-- `sprintf(search, …)` into an array of `RFC3164_PRI_TXT + 1` bytes
unfoldable pub sprintf_search : Bytes → Run Bytes
sprintf_search text = if ltb rfc3164_pri_txt (length text) then fault out_of_bounds else ok text

-- The keys that are looked up, in their order: everything, all severities, all facilities, and
-- this facility and severity.
unfoldable pub searches : Bytes → Bytes → Run (List Bytes)
unfolding sprintf_search
searches facility severity = do
  s₁ ← sprintf_search (facility ++ codes ".*")
  s₂ ← sprintf_search (codes "*." ++ severity)
  s₃ ← sprintf_search (facility ++ (codes "." ++ severity))
  ok (codes "*.*" ∷ s₁ ∷ s₂ ∷ s₃ ∷ [])

-- `asprintf(&data, …)`: with colours, or plain
unfoldable pub build_data : Bool → Bytes → Bytes → Bytes → Bytes
build_data false color tag msg = codes "[" ++ (tag ++ (codes "] " ++ msg))
build_data true color tag msg =
    3 ∷ (color ++ (2 ∷ b'[' ∷ 2 ∷ 3 ∷ (tag ++ (3 ∷ (color ++ (2 ∷ b']' ∷ 2 ∷ 3 ∷ b' ' ∷ msg))))))

-- A slash in front of nothing is dropped.
unfoldable pub cons_unless : Bool → ℕ → Bytes → Bytes
cons_unless slash c (x ∷ s) = c ∷ x ∷ s
cons_unless slash c [] = if slash then [] else c ∷ []

-- The tag up to the bracket before a process number.
unfoldable pub cut_tag : Bytes → Bytes
cut_tag tag = (split (codes "[") tag).0

-- `basename` of the C library, in three parts: the text with no slash at its end, what stands
-- behind the last slash, and the path of the root.
unfoldable pub drop_slashes : Bytes → Bytes
drop_slashes [] = []
drop_slashes (c ∷ s) = cons_unless (c == b'/') c (drop_slashes s)

unfoldable pub last_part : Bytes → Bytes
last_part [] = []
last_part (c ∷ s) =
    let r = last_part s in if contains b'/' s then r else if c == b'/' then s else c ∷ s

unfoldable pub basename : Bytes → Bytes
unfolding drop_slashes last_part
basename s = elim (drop_slashes s) [ [] ↦ codes "/" | c ∷ t ↦ last_part (c ∷ t) ]

-- "/usr/sbin/cron[31501]" becomes "cron".
unfoldable pub clean_tag : Bytes → Bytes
unfolding cut_tag basename
clean_tag tag = elim (cut_tag tag) [
  | [] ↦ []
  | c ∷ t ↦ if c == b'/' then basename (c ∷ t) else c ∷ t
]

module _ {B : Type 0} ⦃ev : EvBuffer B⦄ where
  -- The four lookups of `sl_find_target_channels`; the flag is `found`.
  unfoldable pub forward_searches : List Bytes → Bytes → Bool → Daemon B → Bool × Daemon B
  forward_searches [] msg found d = (found, d)
  forward_searches (s ∷ ss) msg found d =
      let hit : Bool = elim (d.conf.forward s) [ none ↦ found | some _ ↦ true ] in
      let d' : Daemon B = elim (d.conf.forward s) [
        | none ↦ d
        | some tmp ↦ record d { ircout = privmsg_all tmp msg d.ircout }
      ] in
      forward_searches ss msg hit d'

  -- 0 is `true`, and -1, when no setting is found, `false`.
  unfoldable pub sl_find_target_channels : ℕ → ℕ → Bytes → Bytes → Daemon B → Run (Bool × Daemon B)
  unfolding forward_searches at searches build_data
  sl_find_target_channels facility severity tag msg d = do
    color ← at c_severities severity
    f ← at facilities facility
    s ← at severities severity
    keys ← searches f s
    ok (forward_searches keys (build_data d.mode.color color tag msg) false d)

  -- The four lookups of `sl_find_target_bots`.
  unfoldable pub transmit_searches :
      List Bytes → Bytes → Bytes → Bool → Daemon B → Run (Bool × Daemon B)
  transmit_searches [] type msg found d = ok (found, d)
  transmit_searches (s ∷ ss) type msg found d =
      let none_set = transmit_searches ss type msg found d in
      elim (d.conf.transmit s) [
        | none ↦ none_set
        | some tmp ↦ do d' ← transmit_all tmp type msg d; transmit_searches ss type msg true d'
      ]

  unfoldable pub sl_find_target_bots : ℕ → ℕ → Bytes → Bytes → Daemon B → Run (Bool × Daemon B)
  unfolding transmit_searches at searches build_data
  sl_find_target_bots facility severity tag msg d = do
    f ← at facilities facility
    s ← at severities severity
    type ← sprintf_search (f ++ (codes "." ++ s))
    color ← at c_severities severity
    keys ← searches f s
    transmit_searches keys type (build_data d.mode.color color tag msg) false d

  -- Behind the check of the priority and the cleaning of the tag.
  unfoldable pub forward_targets : ℕ → Bytes → Bytes → Daemon B → Run (Daemon B)
  forward_targets pri tag msg d = do
    r ← sl_find_target_channels (pri / 8) (pri % 8) tag msg d
    q ← sl_find_target_bots (pri / 8) (pri % 8) tag msg r.1
    ok q.1

  unfoldable pub sl_forward : ℕ → Bytes → Bytes → Daemon B → Run (Daemon B)
  unfolding forward_targets clean_tag
  sl_forward pri tag msg d =
      if ltb 7 (pri % 8) || ltb 23 (pri / 8)
      then ok d
      else forward_targets pri (clean_tag tag) msg d

  unfoldable pub sl_forward_with_host : ℕ → Bytes → Bytes → Bytes → Daemon B → Run (Daemon B)
  unfolding cut_tag
  sl_forward_with_host pri tag msg host d =
      let short = cut_tag tag in
      if ltb rfc3164_max (length short + length host + 2)
      then ok d
      else sl_forward pri (short ++ (codes "@" ++ host)) msg d
