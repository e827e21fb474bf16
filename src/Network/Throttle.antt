-- ===== src/Network/Throttle.antt =====
-- How much one throttled write of src/iyelld/network.c sends.
use iyell.Base.{
  ℕ, zero, suc, ◌+◌, ◌≤◌, Bool, true, false, ok, [], ◌∷◌, ◌++◌, Option, none, some, ◌≡◌, ◌⊎◌, inl,
  inr, refl, ◌∙◌, ap, arith, >>=-ok, ◌==◌, ltb, if◌then◌else◌, Bool-cases, length, take, drop,
  take-append-drop, sym,
}
use iyell.CString.{Bytes}
use iyell.Daemon.{Daemon}
use iyell.Daemon.Sched.{event_once}
use iyell.Event.{EvBuffer, evbuffer_length}
use iyell.Network.{
  BurstState, scan_burst, reset_burst, decay_burst, net_irc_write, net_irc_throttled_write,
  on_clock, send_burst, nothing, sent, schedule_irc_write, net_throttled_write,
}

-- The newlines of a text.
abbrev pub lines : Bytes → ℕ
lines [] = 0
lines (c ∷ s) = (if c == b'\n' then 1 else 0) + lines s

-- The scan stops at the end of the data or when the count has reached four; it counts the newlines
-- of what it takes.
pub record Scanned (data' : Bytes) (burst : ℕ) (i : ℕ) (after : ℕ) : Type 0 where
  pub counted : lines (take i data') + burst ≡ after
  pub bounded : after ≤ 4
  pub inside : i ≤ length data'
  pub stops : (i ≡ length data') ⊎ (after ≡ 4)

pub scan_burst-Scanned :
    (data' : Bytes) (burst : ℕ)
    → burst ≤ 4
    → Scanned data' burst (scan_burst data' burst).0 (scan_burst data' burst).1
unfolding scan_burst
scan_burst-Scanned [] burst h = record {
  counted = omega arith;
  bounded = h;
  inside = omega arith;
  stops = inl refl;
}
scan_burst-Scanned (c ∷ data') burst h = elim (Bool-cases (ltb burst 4)) [
  | inl more ↦
      let rest =
        scan_burst-Scanned data' (if c == b'\n' then burst + 1 else burst) (ground arith) in
      rw more (record {
        counted = (let counted = rest.counted in ground arith);
        bounded = rest.bounded;
        inside = omega (arith, rest.inside);
        stops = elim rest.stops [ inl e ↦ inl (ap suc e) | inr e ↦ inr e ];
      })
  | inr full ↦ rw full (record {
    counted = omega arith;
    bounded = h;
    inside = omega arith;
    stops = inr (ground arith);
  })
]

pub reset_burst-le : (current : ℕ) (s : BurstState) → s.burst_count ≤ 4 → reset_burst current s ≤ 4
unfolding reset_burst
reset_burst-le current s h = ground arith

module _ {B : Type 0} ⦃ev : EvBuffer B⦄ where
  open ev use {evbuffer_data, evbuffer_drain, data-drain}

  send_burst_congr :
      (send send' : Bytes → Option ℕ) (current : ℕ) (i after : ℕ) (s : BurstState) (d : Daemon B)
      → send (take i (evbuffer_data d.ircout)) ≡ send' (take i (evbuffer_data d.ircout))
      → send_burst send current (i, after) s d ≡ send_burst send' current (i, after) s d
  unfolding send_burst
  send_burst_congr send send' current zero after s d h = refl
  send_burst_congr send send' current (suc i) after s d h = rw (h, send_burst) refl

  -- What a call hands to `send`.
  abbrev pub payload : ℕ → BurstState → Daemon B → Bytes
  payload current s d =
      take (scan_burst (evbuffer_data d.ircout) (reset_burst current s)).0 (evbuffer_data d.ircout)

  on_clock_congr :
      (send send' : Bytes → Option ℕ) (current : ℕ) (s : BurstState) (d : Daemon B)
      → send (payload current s d) ≡ send' (payload current s d)
      → on_clock send (some current) s d ≡ on_clock send' (some current) s d
  unfolding on_clock
  on_clock_congr send send' current s d h = ap ok (send_burst_congr send send' current _ _ s d h)

  throttled_congr :
      (send send' : Bytes → Option ℕ) (current : ℕ) (s : BurstState) (d : Daemon B)
      → d.env.time ≡ some current
      → send (payload current s d) ≡ send' (payload current s d)
      → net_irc_throttled_write send s d ≡ net_irc_throttled_write send' s d
  unfolding net_irc_throttled_write evbuffer_length
  throttled_congr send send' current s d clock h =
      let same : on_clock send d.env.time s d ≡ on_clock send' d.env.time s d =
        ap (λ t. on_clock send t s d) clock
        ∙ on_clock_congr send send' current s d h
        ∙ sym (ap (λ t. on_clock send' t s d) clock) in
      ground (arith, same)

  -- A call of the throttled write when the clock answers, with a burst count of four at most, passes
  -- to `send` at most one text, the beginning of the output buffer, in which the newlines and the burst count (0 after more than three quiet seconds) are
  -- four together at most: what the call does depends on the answer of `send` to this text alone.
  pub net_irc_throttled_write-payload :
      (send send' : Bytes → Option ℕ) (s : BurstState) (current : ℕ) (d : Daemon B)
      → s.burst_count ≤ 4
      → d.env.time ≡ some current
      → send (payload current s d) ≡ send' (payload current s d)
      → (net_irc_throttled_write send s d ≡ net_irc_throttled_write send' s d)
        × (lines (payload current s d) + reset_burst current s ≤ 4)
        × ((rest : Bytes) × (payload current s d ++ rest ≡ evbuffer_data d.ircout))
  net_irc_throttled_write-payload send send' s current d h clock same =
      let out = evbuffer_data d.ircout in
      let burst = reset_burst current s in
      let scanned = scan_burst-Scanned out burst (reset_burst-le current s h) in
      (
        throttled_congr send send' current s d clock same,
        omega (arith, scanned.counted, scanned.bounded),
        (drop (scan_burst out burst).0 out, take-append-drop (scan_burst out burst).0 out),
      )

  nothing-ircout :
      (current after : ℕ) (s : BurstState) (d : Daemon B)
      → (nothing current after s d).0.ircout ≡ d.ircout
  unfolding nothing schedule_irc_write net_throttled_write event_once
  nothing-ircout current after s d = ground arith

  stop-ircout :
      (down : Bool) (current after : ℕ) (s s' : BurstState) (d : Daemon B)
      → (if down then (record d { stopped = true }, s') else nothing current after s d).0.ircout
        ≡ d.ircout
  stop-ircout true current after s s' d = refl
  stop-ircout false current after s s' d = nothing-ircout current after s d

  data-send_burst :
      (send : Bytes → Option ℕ) (current i after n : ℕ) (s : BurstState) (d : Daemon B)
      → 1 ≤ length (take i (evbuffer_data d.ircout))
      → send (take i (evbuffer_data d.ircout)) ≡ some (suc n)
      → evbuffer_data (send_burst send current (i, after) s d).0.ircout
        ≡ drop (suc n) (evbuffer_data d.ircout)
  unfolding send_burst sent
  data-send_burst send current zero after n s d some_text taken = ground (arith, some_text)
  data-send_burst send current (suc i) after n s d some_text taken =
      let same : (send_burst send current (suc i, after) s d).0.ircout
          ≡ evbuffer_drain d.ircout (suc n) =
        rw (taken, send_burst)
          (stop-ircout d.mode.shutdown current after s (record s { burst_count = after })
            (sent (suc n) d)) in
      rw same (data-drain d.ircout (suc n))

  on_clock_eq :
      (send : Bytes → Option ℕ) (current : ℕ) (s : BurstState) (d : Daemon B)
      {r : Daemon B × BurstState}
      → on_clock send (some current) s d ≡ ok r
      → send_burst send current (scan_burst (evbuffer_data d.ircout) (reset_burst current s)) s d
        ≡ r
  unfolding on_clock
  on_clock_eq send current s d e = cc

  nothing-bounded :
      (current after : ℕ) (s : BurstState) (d : Daemon B)
      → after ≤ 4
      → (nothing current after s d).1.burst_count ≤ 4
  unfolding nothing decay_burst
  nothing-bounded current after s d h = ground arith

  send_burst-bounded :
      (send : Bytes → Option ℕ) (current i after : ℕ) (s : BurstState) (d : Daemon B)
      → after ≤ 4
      → (send_burst send current (i, after) s d).1.burst_count ≤ 4
  unfolding send_burst
  send_burst-bounded send current zero after s d h = nothing-bounded current after s d h
  send_burst-bounded send current (suc i) after s d h =
      ground (arith, λ (d' : Daemon B). nothing-bounded current after s d' h)

  on_clock-bounded :
      (send : Bytes → Option ℕ) (time : Option ℕ) (s : BurstState) (d : Daemon B)
      {r : Daemon B × BurstState}
      → s.burst_count ≤ 4
      → on_clock send time s d ≡ ok r
      → r.1.burst_count ≤ 4
  unfolding on_clock
  on_clock-bounded send none s d {r} h e =
      let (a, second) = >>=-ok (net_irc_write send d) (λ d'. ok (d', s)) e in
      let same : s ≡ r.1 = cc in rw (sym same) h
  on_clock-bounded send (some current) s d {r} h e =
      let scanned =
        scan_burst-Scanned (evbuffer_data d.ircout) (reset_burst current s)
          (reset_burst-le current s h) in
      let same : send_burst send current
            (scan_burst (evbuffer_data d.ircout) (reset_burst current s)) s d
          ≡ r =
        cc in
      rw (sym same) (send_burst-bounded send current _ _ s d scanned.bounded)

  nonempty :
      (send : Bytes → Option ℕ) (s s' : BurstState) (d d' : Daemon B)
      → net_irc_throttled_write send s d ≡ ok (d', s')
      → on_clock send d.env.time s d ≡ ok (d', s')
  unfolding net_irc_throttled_write evbuffer_length
  nonempty send s s' d d' e = ground (arith, e)

  -- The burst count stays at four at most, whatever `send` and the clock answer.
  pub net_irc_throttled_write-bounded :
      (send : Bytes → Option ℕ) (s s' : BurstState) (d d' : Daemon B)
      → s.burst_count ≤ 4
      → net_irc_throttled_write send s d ≡ ok (d', s')
      → s'.burst_count ≤ 4
  net_irc_throttled_write-bounded send s s' d d' h e =
      on_clock-bounded send d.env.time s d h (nonempty send s s' d d' e)

  -- Nothing is lost or sent twice: when the text for `send` is not empty and `send` takes its first
  -- bytes, exactly these bytes leave the output buffer.
  pub net_irc_throttled_write-keeps :
      (send : Bytes → Option ℕ) (s s' : BurstState) (current n : ℕ) (d d' : Daemon B)
      → d.env.time ≡ some current
      → 1 ≤ length (payload current s d)
      → send (payload current s d) ≡ some (suc n)
      → net_irc_throttled_write send s d ≡ ok (d', s')
      → evbuffer_data d'.ircout ≡ drop (suc n) (evbuffer_data d.ircout)
  net_irc_throttled_write-keeps send s s' current n d d' clock some_text taken e =
      let scanned = scan_burst (evbuffer_data d.ircout) (reset_burst current s) in
      let run = ap (λ t. on_clock send t s d) (sym clock) ∙ nonempty send s s' d d' e in
      let result = on_clock_eq send current s d run in
      ap (λ (r : Daemon B × BurstState). evbuffer_data r.0.ircout) (sym result)
      ∙ data-send_burst send current scanned.0 scanned.1 n s d some_text taken
