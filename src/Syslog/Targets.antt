-- ===== src/Syslog/Targets.antt =====
-- Where src/iyelld/rfc3164.c sends a message of a facility and a severity.
use iyell.Base.{
  ℕ, zero, suc, ◌≤◌, ◌<◌, Bool, true, false, ◌||◌, ok, List, [], ◌∷◌, ◌++◌, Option, none, some, ◌≡◌,
  refl, sym, ◌∙◌, arith, length, get_elem?, All, append_assoc, append-nil, length-append,
  Option-cases, inl, inr,
}
use iyell.CString.{Bytes, codes}
use iyell.Conf.{Section}
use iyell.Daemon.{Daemon}
use iyell.Event.{EvBuffer}
use iyell.Info.{privmsg_all}
use iyell.Info.Delivery.{privmsg_lines, data-privmsg_all}
use iyell.Syslog.{
  facilities, severities, c_severities, at, sprintf_search, searches, build_data, forward_searches,
  sl_find_target_channels,
}

abbrev targets : Option (List Bytes) → List Bytes
targets none = []
targets (some tmp) = tmp

abbrev is_set : Option (List Bytes) → Bool
is_set none = false
is_set (some tmp) = true

-- The channels of the keys, in the order of the keys.
abbrev pub channels_of : Section → List Bytes → List Bytes
channels_of forward [] = []
channels_of forward (s ∷ ss) = targets (forward s) ++ channels_of forward ss

-- One of the keys is set.
abbrev pub any_set : Section → List Bytes → Bool
any_set forward [] = false
any_set forward (s ∷ ss) = is_set (forward s) || any_set forward ss

at-All :
    (P : Bytes → Type 0) (table : List Bytes) (i : ℕ)
    → All P table
    → i < length table
    → (s : Bytes) × (get_elem? table i ≡ some s) × P s
at-All P [] i h lt = ground (arith, lt)
at-All P (s ∷ table) zero h lt = (s, refl, h.0)
at-All P (s ∷ table) (suc i) h lt = at-All P table i h.1 (omega (arith, lt))

short_facilities : All (λ s. length s ≤ 8) facilities
short_facilities = omega arith

short_severities : All (λ s. length s ≤ 7) severities
short_severities = omega arith

short_colors : All (λ s. length s ≤ 2) c_severities
short_colors = omega arith

searches-fit :
    (f s : Bytes)
    → length f ≤ 8
    → length s ≤ 7
    → searches f s
      ≡ ok (codes "*.*" ∷ (f ++ codes ".*") ∷ (codes "*." ++ s) ∷ (f ++ (codes "." ++ s)) ∷ [])
unfolding searches sprintf_search
searches-fit f s small_f small_s =
    let one = length-append f (codes ".*") in
    let two = length-append f (codes "." ++ s) in ground (arith, one, two, small_f, small_s)

privmsg_lines-append :
    (xs ys : List Bytes) (message : Bytes)
    → privmsg_lines (xs ++ ys) message ≡ privmsg_lines xs message ++ privmsg_lines ys message
unfolding privmsg_lines
privmsg_lines-append [] ys message = refl
privmsg_lines-append (x ∷ xs) ys message =
    rw (privmsg_lines-append xs ys message) (simp append_assoc)

module _ {B : Type 0} ⦃ev : EvBuffer B⦄ where
  open ev use {evbuffer_data}

  forward_searches-unset :
      (s : Bytes) (ss : List Bytes) (msg : Bytes) (found : Bool) (d : Daemon B)
      → d.conf.forward s ≡ none
      → forward_searches (s ∷ ss) msg found d ≡ forward_searches ss msg found d
  unfolding forward_searches
  forward_searches-unset s ss msg found d h = rw (h, forward_searches) refl

  forward_searches-set :
      (s : Bytes) (ss tmp : List Bytes) (msg : Bytes) (found : Bool) (d : Daemon B)
      → d.conf.forward s ≡ some tmp
      → forward_searches (s ∷ ss) msg found d
        ≡ forward_searches ss msg true (record d { ircout = privmsg_all tmp msg d.ircout })
  unfolding forward_searches
  forward_searches-set s ss tmp msg found d h = rw (h, forward_searches) refl

  forward_searches-lines :
      (ss : List Bytes) (msg : Bytes) (found : Bool) (d : Daemon B)
      → (evbuffer_data (forward_searches ss msg found d).1.ircout
          ≡ evbuffer_data d.ircout ++ privmsg_lines (channels_of d.conf.forward ss) msg)
        × ((forward_searches ss msg found d).0 ≡ found || any_set d.conf.forward ss)
  unfolding forward_searches privmsg_lines
  forward_searches-lines [] msg found d = (sym (append-nil _), ground arith)
  forward_searches-lines (s ∷ ss) msg found d = elim (Option-cases (d.conf.forward s)) [
    | inl unset ↦
        let (lines, hit) = forward_searches-lines ss msg found d in
        (
          rw (forward_searches-unset s ss msg found d unset) rw unset lines,
          rw (forward_searches-unset s ss msg found d unset) rw unset hit,
        )
    | inr (tmp, set) ↦
        let d' = record d { ircout = privmsg_all tmp msg d.ircout } in
        let (lines, hit) = forward_searches-lines ss msg true d' in
        let step = forward_searches-set s ss tmp msg found d set in
        (
          rw step rw set (
              lines
              ∙ rw (data-privmsg_all tmp msg d.ircout) rw
                  (privmsg_lines-append tmp (channels_of d.conf.forward ss) msg)
                  (simp append_assoc)),
          rw step rw set (hit ∙ ground arith),
        )
  ]

  -- For a facility below 24 and a severity below 8, no table is read and no search key is printed
  -- out of its bounds: the message, decorated, goes to the channels of the keys `*.*`, `facility.*`,
  -- `*.severity` and `facility.severity`, in this order, one line for each, and the result says
  -- whether one of the keys is set.
  pub sl_find_target_channels-keys :
      (facility severity : ℕ) (tag msg : Bytes) (d : Daemon B)
      → facility < 24
      → severity < 8
      → (f : Bytes) × (s : Bytes) × (color : Bytes) × (found : Bool) × (d' : Daemon B) × (get_elem?
            facilities facility
          ≡ some f)
        × (get_elem? severities severity ≡ some s)
        × (get_elem? c_severities severity ≡ some color)
        × (sl_find_target_channels facility severity tag msg d ≡ ok (found, d'))
        × (let keys =
              codes "*.*" ∷ (f ++ codes ".*") ∷ (codes "*." ++ s) ∷ (f ++ (codes "." ++ s)) ∷ [] in
            (evbuffer_data d'.ircout
              ≡ evbuffer_data d.ircout
                ++ privmsg_lines
                    (channels_of d.conf.forward keys)
                    (build_data d.mode.color color tag msg))
            × (found ≡ any_set d.conf.forward keys))
  unfolding sl_find_target_channels at
  sl_find_target_channels-keys facility severity tag msg d fac sev =
      let (f, at_f, small_f) =
        at-All (λ s. length s ≤ 8) facilities facility short_facilities fac in
      let (s, at_s, small_s) =
        at-All (λ s. length s ≤ 7) severities severity short_severities sev in
      let (color, at_c, small_c) =
        at-All (λ s. length s ≤ 2) c_severities severity short_colors sev in
      let keys =
        codes "*.*" ∷ (f ++ codes ".*") ∷ (codes "*." ++ s) ∷ (f ++ (codes "." ++ s)) ∷ [] in
      let data' = build_data d.mode.color color tag msg in
      let r = forward_searches keys data' false d in
      (
        f,
        s,
        color,
        r.0,
        r.1,
        at_f,
        at_s,
        at_c,
        rw at_c rw at_f rw at_s rw (searches-fit f s small_f small_s) refl,
        forward_searches-lines keys data' false d,
      )
