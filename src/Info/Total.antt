-- ===== src/Info/Total.antt =====
-- Termination of the parsing loop of src/iyelld/info.c.
use iyell.Base.{
  ℕ, zero, suc, ◌+◌, ◌≤◌, ◌<◌, true, Run, ok, fault, exhausted, ◌>>=◌, List, [], ◌∷◌, Option, none,
  some, ◌≡◌, ◌≢◌, refl, sym, ◌∙◌, ap, arith, length, drop, Bool-cases, inl, inr,
}
use iyell.CString.{Bytes, split, codes}
use iyell.Conf.{Conf}
use iyell.Daemon.{Daemon}
use iyell.Event.{EvBuffer, evbuffer_length}
use iyell.Irc.{deref}
use iyell.Info.{
  Check, exceeded, valid, unreadable, Verdict, good, bad, check_packet, info_check_timestamp,
  transmit_all, find_target_bots, find_target_channels, to_targets, info_forward, on_check,
  check_fields, info_line, drain_all, refuse, count_good, parse_lines, info_parse,
}
use iyell.Transmit.{info_transmit, sprintf_into}

-- The run does not end for want of fuel.
abbrev pub Finishes {ℓ} : {A : Type ℓ} → Run A → Type ℓ
Finishes m = m ≢ fault exhausted

bind-Finishes {ℓ κ} :
    {A : Type ℓ} {B : Type κ} (m : Run A) (f : A → Run B)
    → Finishes m
    → ((a : A) → Finishes (f a))
    → Finishes (m >>= f)
bind-Finishes (ok a) f h k = k a
bind-Finishes (fault e) f h k = λ bad. h (cc)

ok-Finishes {ℓ} : {A : Type ℓ} (a : A) → Finishes (ok a)
ok-Finishes a = λ e. cc

length-drop : (n : ℕ) (s : Bytes) → length (drop n s) ≤ length s
length-drop zero s = omega arith
length-drop (suc n) [] = omega arith
length-drop (suc n) (c ∷ s) = omega (arith, length-drop n s)

check-Finishes :
    (conf : Conf) (time : Option ℕ) (t : Bytes) → Finishes (info_check_timestamp conf time t)
unfolding info_check_timestamp check_packet
check-Finishes conf none t = λ e. cc
check-Finishes conf (some current) t = λ e. ground (arith, e)

module _ {B : Type 0} ⦃ev : EvBuffer B⦄ where
  open ev use {evbuffer_data, evbuffer_drain, evbuffer_readline, data-drain, readline_shrinks}

  info_transmit-Finishes :
      (bot type message : Bytes) (d : Daemon B) → Finishes (info_transmit bot type message d)
  unfolding info_transmit sprintf_into deref
  info_transmit-Finishes bot type message d = λ e. ground (arith, e)

  transmit_all-Finishes :
      (tmp : List Bytes) (type message : Bytes) (d : Daemon B)
      → Finishes (transmit_all tmp type message d)
  unfolding transmit_all
  transmit_all-Finishes [] type message d = λ e. cc
  transmit_all-Finishes (bot ∷ tmp) type message d =
      bind-Finishes (info_transmit bot type message d) _ (info_transmit-Finishes bot type message d)
        (λ d'. transmit_all-Finishes tmp type message d')

  some_targets-Finishes :
      (targets : Option (List Bytes)) (type message : Bytes) (d : Daemon B)
      → d.conf.transmit type ≡ targets
      → Finishes (find_target_bots type message d)
  unfolding find_target_bots
  some_targets-Finishes none type message d h = λ e. ground (arith, e, h)
  some_targets-Finishes (some tmp) type message d h =
      let found : find_target_bots type message d
          ≡ (transmit_all tmp type message d >>= λ d'. ok (true, d')) =
        ground (arith, h) in
      let finishes : Finishes (transmit_all tmp type message d >>= λ d'. ok (true, d')) =
        bind-Finishes (transmit_all tmp type message d) _ (transmit_all-Finishes tmp type message d)
          (λ (d' : Daemon B). ok-Finishes (true, d')) in
      λ e. finishes (sym found ∙ e)

  to_targets-Finishes : (type message : Bytes) (d : Daemon B) → Finishes (to_targets type message d)
  unfolding to_targets
  to_targets-Finishes type message d =
      let d₁ = (find_target_channels type message d).1 in
      bind-Finishes (find_target_bots type message d₁) _
        (some_targets-Finishes (d₁.conf.transmit type) type message d₁ refl) (λ r e. cc)

  info_forward-Finishes :
      (type message : Bytes) (d : Daemon B) → Finishes (info_forward type message d)
  unfolding info_forward
  info_forward-Finishes [] message d = to_targets-Finishes [] message d
  info_forward-Finishes (c ∷ type) message d =
      let rest = to_targets-Finishes (c ∷ type) message d in λ e. ground (arith, e, rest)

  on_check-Finishes :
      (ret : Check) (ap tmp : Bytes) (d : Daemon B) → Finishes (on_check ret ap tmp d)
  unfolding on_check
  on_check-Finishes exceeded ap tmp d = λ e. cc
  on_check-Finishes valid ap tmp d =
      bind-Finishes (info_forward ap tmp d) _ (info_forward-Finishes ap tmp d) (λ d' e. cc)
  on_check-Finishes unreadable ap tmp d = λ e. cc

  check_fields-Finishes :
      (ap : Bytes) (r : Option Bytes × Option Bytes) (d : Daemon B) → Finishes (check_fields ap r d)
  unfolding check_fields
  check_fields-Finishes ap (none, tmp) d = λ e. cc
  check_fields-Finishes ap (some [], tmp) d = λ e. cc
  check_fields-Finishes ap (some (c ∷ ts), none) d = λ e. cc
  check_fields-Finishes ap (some (c ∷ ts), some []) d = λ e. cc
  check_fields-Finishes ap (some (c ∷ ts), some (x ∷ tmp)) d =
      bind-Finishes (info_check_timestamp d.conf d.env.time (c ∷ ts)) _
        (check-Finishes d.conf d.env.time (c ∷ ts)) (λ ret. on_check-Finishes ret ap (x ∷ tmp) d)

  info_line-Finishes : (line : Bytes) (d : Daemon B) → Finishes (info_line line d)
  unfolding info_line
  info_line-Finishes line d = check_fields-Finishes (split (codes ":") line).0 _ d

  -- The end of a round of the loop.
  next_round-Finishes :
      (fuel n : ℕ) (next : Option Bytes) (d : Daemon B) (b b' : B)
      → ((line : Bytes) → next ≡ some line → Finishes (parse_lines fuel line d b'))
      → Finishes {A = Daemon B × B} (elim n [
        | zero ↦ ok (d, b)
        | suc _ ↦ elim next [
          | none ↦ ok (d, drain_all b')
          | some line' ↦ parse_lines fuel line' d b'
        ]
      ])
  next_round-Finishes fuel zero next d b b' h = λ e. cc
  next_round-Finishes fuel (suc n) none d b b' h = λ e. cc
  next_round-Finishes fuel (suc n) (some line) d b b' h = h line refl

  parse_lines-Finishes :
      (fuel : ℕ) (line : Bytes) (d : Daemon B) (b : B)
      → length (evbuffer_data b) < fuel
      → Finishes (parse_lines fuel line d b)
  unfolding parse_lines
  parse_lines-Finishes zero line d b h = omega arith
  parse_lines-Finishes (suc fuel) line d b h =
      bind-Finishes (info_line line d) _ (info_line-Finishes line d)
        (go (λ line' d' b'' small. parse_lines-Finishes fuel line' d' b'' small))
    where
      b' : B
      b' = evbuffer_drain b (length line + 1)

      shorter : length (evbuffer_data b') ≤ fuel
      shorter = omega (
        arith,
        ap length (data-drain b (length line + 1)),
        length-drop (length line + 1) (evbuffer_data b),
      )

      go :
          ((line' : Bytes) (d' : Daemon B) (b'' : B)
            → length (evbuffer_data b'') < fuel
            → Finishes (parse_lines fuel line' d' b''))
          → (r : Verdict × Daemon B)
          → Finishes {A = Daemon B × B} (elim r.0 [
            | bad ↦ ok (refuse r.1 b)
            | good ↦ elim (evbuffer_length b') [
              | zero ↦ ok (count_good r.1, b')
              | suc _ ↦ elim (evbuffer_readline b').0 [
                | none ↦ ok (count_good r.1, drain_all (evbuffer_readline b').1)
                | some line' ↦ parse_lines fuel line' (count_good r.1) (evbuffer_readline b').1
              ]
            ]
          ])
      go again (bad, d') = λ e. cc
      go again (good, d') =
          next_round-Finishes fuel (evbuffer_length b') (evbuffer_readline b').0 (count_good d') b'
            (evbuffer_readline b').1
            (λ line' e.
              again line' (count_good d') (evbuffer_readline b').1
                (omega (arith, shorter, readline_shrinks b' line' e)))

  first_line-Finishes :
      (next : Option Bytes) (d : Daemon B) (b b' : B)
      → ((line : Bytes) → next ≡ some line → length (evbuffer_data b') < evbuffer_length b)
      → Finishes {A = Daemon B × B} (elim next [
        | none ↦ ok (refuse d b')
        | some line ↦ parse_lines (evbuffer_length b) line d b'
      ])
  first_line-Finishes none d b b' h = λ e. cc
  first_line-Finishes (some line) d b b' h =
      parse_lines-Finishes (evbuffer_length b) line d b' (h line refl)

  -- The model of `info_parse` never runs out of fuel: each round reads a line, which makes the
  -- buffer shorter, and the fuel is the length of the buffer.
  pub info_parse-Finishes : (d : Daemon B) (b : B) → Finishes (info_parse d b)
  unfolding info_parse evbuffer_length
  info_parse-Finishes d b =
      let lines =
        first_line-Finishes (evbuffer_readline b).0 d b (evbuffer_readline b).1
          (λ line e. readline_shrinks b line e) in
      elim (Bool-cases d.mode.connected) [ inl on ↦ rw on lines | inr off ↦ rw off (λ e. cc) ]
