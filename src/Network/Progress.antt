-- ===== src/Network/Progress.antt =====
-- The throttled writes of src/iyelld/network.c, one after the other, until the output is sent.
use iyell.Base.{
  ℕ, zero, suc, ◌+◌, ◌≤◌, ◌<◌, true, false, Run, ok, ◌>>=◌, [], ◌∷◌, Option, some, ◌≡◌, ◌⊎◌, inl,
  inr, refl, sym, ◌∙◌, ap, arith, length, take, drop,
}
use iyell.CString.{Bytes}
use iyell.Daemon.{Daemon, Callback}
use iyell.Daemon.Sched.{event_once}
use iyell.Event.{EvBuffer, evbuffer_length}
use iyell.Network.{
  BurstState, scan_burst, reset_burst, decay_burst, net_irc_throttled_write, on_clock, send_burst,
  nothing, sent, schedule_irc_write, net_throttled_write,
}
use iyell.Network.Throttle.{Scanned, scan_burst-Scanned, reset_burst-le}

-- A socket that takes all bytes.
abbrev pub takes_all : Bytes → Option ℕ
takes_all s = some (length s)

length-take : (n : ℕ) (s : Bytes) → n ≤ length s → length (take n s) ≡ n
length-take zero s h = refl
length-take (suc n) [] h = omega (arith, h)
length-take (suc n) (c ∷ s) h = omega (arith, length-take n s (omega (arith, h)))

length-drop : (n : ℕ) (s : Bytes) → n ≤ length s → length (drop n s) + n ≡ length s
length-drop zero s h = omega arith
length-drop (suc n) [] h = omega (arith, h)
length-drop (suc n) (c ∷ s) h = omega (arith, length-drop n s (omega (arith, h)))

reset_burst-below : (now : ℕ) (s : BurstState) → reset_burst now s ≤ s.burst_count
unfolding reset_burst
reset_burst-below now s = ground arith

drops-some :
    (out : Bytes) (burst i after extra : ℕ)
    → Scanned out burst i after
    → burst ≤ 3 + extra
    → 1 ≤ length out
    → length (drop i out) + 1 ≤ length out + extra
drops-some out burst zero after extra scanned below some_bytes = elim scanned.stops [
  | inl e ↦ absurd (omega (arith, e, some_bytes))
  | inr full ↦ omega (arith, full, scanned.counted, below)
]
drops-some out burst (suc i) after extra scanned below some_bytes =
    omega (arith, length-drop (suc i) out scanned.inside)

nil_or_some : (s : Bytes) → (s ≡ []) ⊎ (1 ≤ length s)
nil_or_some [] = inl refl
nil_or_some (c ∷ s) = inr (omega arith)

module _ {B : Type 0} where
  -- The daemon, at a second.
  abbrev pub at : ℕ → Daemon B → Daemon B
  at now d = record d { env = let e = d.env in record e { time = some now } }

module _ {B : Type 0} ⦃ev : EvBuffer B⦄ where
  open ev use {evbuffer_data, data-drain}

  -- Behind a call: the timer that it has set, if any, wakes the daemon up a second later, and when
  -- there is something to write, `rest` follows.
  awake :
      (ℕ → BurstState → Daemon B → Run (Daemon B × BurstState))
      → ℕ
      → Daemon B × BurstState
      → Run (Daemon B × BurstState)
  awake rest now r = elim r.0.mode.throttled [
    | false ↦ ok r
    | true ↦
        let d' = net_throttled_write (at (now + 1) r.0) in
        elim d'.writing [ false ↦ ok (d', r.1) | true ↦ rest (now + 1) r.1 d' ]
  ]

  -- So many throttled writes at most, a second apart.
  unfoldable pub write_on : ℕ → ℕ → BurstState → Daemon B → Run (Daemon B × BurstState)
  unfolding awake
  write_on zero now s d = ok (d, s)
  write_on (suc calls) now s d =
      net_irc_throttled_write takes_all s (at now d) >>= awake (write_on calls) now

  -- What a call leaves when it has sent what it could.
  record Rests (now : ℕ) (r : Daemon B × BurstState) (data' : Bytes) : Type 0 where
    data_is : evbuffer_data r.0.ircout ≡ data'
    burst : r.1.burst_count ≤ 3
    last_is : r.1.last ≡ now
    up : r.0.mode.shutdown ≡ false
    timer : (callback : Callback) (seconds : ℕ) → r.0.env.event_once callback seconds ≡ true
    done : data' ≡ [] → r.0.mode.throttled ≡ false
    wakes : 1 ≤ length data' → r.0.mode.throttled ≡ true

  nothing-Rests :
      (now after : ℕ) (s : BurstState) (d : Daemon B)
      → after ≤ 4
      → s.last < now
      → d.mode.shutdown ≡ false
      → d.mode.throttled ≡ false
      → ((callback : Callback) (seconds : ℕ) → d.env.event_once callback seconds ≡ true)
      → Rests now (nothing now after s d) (evbuffer_data d.ircout)
  unfolding nothing decay_burst schedule_irc_write event_once evbuffer_length
  nothing-Rests now after s d bounded earlier up idle set =
      let timer = set Callback.net_throttled_write 1 in
      record {
        data_is = ground (arith, timer);
        burst = ground (arith, earlier);
        last_is = refl;
        up = ground (arith, timer, up);
        timer = λ callback seconds. (let t = set callback seconds in ground (arith, t, timer));
        done = λ e. ground (arith, e, idle);
        wakes = λ e. ground (arith, e, idle, timer);
      }

  send_burst-taken :
      (send : Bytes → Option ℕ) (now i n after : ℕ) (s : BurstState) (d : Daemon B)
      → send (take (suc i) (evbuffer_data d.ircout)) ≡ some (suc n)
      → d.mode.shutdown ≡ false
      → send_burst send now (suc i, after) s d ≡ nothing now after s (sent (suc n) d)
  unfolding send_burst sent
  send_burst-taken send now i n after s d taken up = rw (taken, send_burst) rw up refl

  send_burst-Rests :
      (now i after : ℕ) (s : BurstState) (d : Daemon B)
      → after ≤ 4
      → s.last < now
      → d.mode.shutdown ≡ false
      → d.mode.throttled ≡ false
      → ((callback : Callback) (seconds : ℕ) → d.env.event_once callback seconds ≡ true)
      → i ≤ length (evbuffer_data d.ircout)
      → Rests now (send_burst takes_all now (i, after) s d) (drop i (evbuffer_data d.ircout))
  unfolding send_burst sent
  send_burst-Rests now zero after s d bounded earlier up idle set inside =
      nothing-Rests now after s d bounded earlier up idle set
  send_burst-Rests now (suc i) after s d bounded earlier up idle set inside =
      let taken : takes_all (take (suc i) (evbuffer_data d.ircout)) ≡ some (suc i) =
        ap some (length-take (suc i) (evbuffer_data d.ircout) inside) in
      let rest = nothing-Rests now after s (sent (suc i) d) bounded earlier up idle set in
      rw (send_burst-taken takes_all now i i after s d taken up)
        (rw (sym (data-drain d.ircout (suc i))) rest)

  -- With bytes to send, and the burst count below four when `extra` is 0, a call makes what is left
  -- shorter, or has lowered the count.
  call-Rests :
      (now extra : ℕ) (s : BurstState) (d : Daemon B)
      → s.burst_count ≤ 3 + extra
      → extra ≤ 1
      → s.last < now
      → d.mode.shutdown ≡ false
      → d.mode.throttled ≡ false
      → ((callback : Callback) (seconds : ℕ) → d.env.event_once callback seconds ≡ true)
      → 1 ≤ length (evbuffer_data d.ircout)
      → (r : Daemon B × BurstState) × (data' : Bytes) × (net_irc_throttled_write takes_all s
            (at now d)
          ≡ ok r)
        × Rests now r data'
        × (length data' + 1 ≤ length (evbuffer_data d.ircout) + extra)
  unfolding net_irc_throttled_write on_clock evbuffer_length
  call-Rests now extra s d bounded small earlier up idle set some_bytes =
      let out = evbuffer_data d.ircout in
      let burst = reset_burst now s in
      let (i, after) = scan_burst out burst in
      let scanned =
        scan_burst-Scanned out burst (reset_burst-le now s (omega (arith, bounded, small))) in
      (
        send_burst takes_all now (scan_burst out burst) s (at now d),
        drop i out,
        ground (arith, some_bytes),
        send_burst-Rests now i after s (at now d) scanned.bounded earlier up idle set
            scanned.inside,
        drops-some out burst i after extra scanned (omega (arith, reset_burst-below now s, bounded))
            some_bytes,
      )

  abbrev woken : Daemon B → Daemon B
  woken d = record d { mode = let m = d.mode in record m { throttled = false }; writing = true }

  net_throttled_write-woken :
      (d : Daemon B) → 1 ≤ length (evbuffer_data d.ircout) → net_throttled_write d ≡ woken d
  unfolding net_throttled_write evbuffer_length
  net_throttled_write-woken d h = ground (arith, h)

  awake-done :
      (rest : ℕ → BurstState → Daemon B → Run (Daemon B × BurstState)) (now : ℕ)
      → (r : Daemon B × BurstState) → r.0.mode.throttled ≡ false
      → awake rest now r ≡ ok r
  unfolding awake
  awake-done rest now r h = rw h refl

  awake-woken :
      (rest : ℕ → BurstState → Daemon B → Run (Daemon B × BurstState)) (now : ℕ)
      → (r : Daemon B × BurstState) → r.0.mode.throttled ≡ true
      → 1 ≤ length (evbuffer_data r.0.ircout)
      → awake rest now r ≡ rest (now + 1) r.1 (woken (at (now + 1) r.0))
  unfolding awake
  awake-woken rest now r h full =
      let same = net_throttled_write-woken (at (now + 1) r.0) full in
      rw (h, awake) rw same (ap (rest (now + 1) r.1) same)

  write_on-Rests :
      (calls now extra : ℕ) (s : BurstState) (d : Daemon B)
      → s.burst_count ≤ 3 + extra
      → extra ≤ 1
      → s.last < now
      → d.mode.shutdown ≡ false
      → d.mode.throttled ≡ false
      → ((callback : Callback) (seconds : ℕ) → d.env.event_once callback seconds ≡ true)
      → 1 ≤ length (evbuffer_data d.ircout)
      → length (evbuffer_data d.ircout) + extra ≤ calls
      → (r : Daemon B × BurstState) × (write_on calls now s d ≡ ok r)
        × (evbuffer_data r.0.ircout ≡ [])
  unfolding write_on
  write_on-Rests zero now extra s d bounded small earlier up idle set some_bytes enough =
      ground (arith, some_bytes, enough)
  write_on-Rests (suc calls) now extra s d bounded small earlier up idle set some_bytes enough =
      let (r, data', run, rests, shorter) =
        call-Rests now extra s d bounded small earlier up idle set some_bytes in
      elim (nil_or_some data') [
        | inl empty ↦ (
          r,
          rw run (awake-done (write_on calls) now r (rests.done empty)),
          rests.data_is ∙ empty,
        )
        | inr more ↦
            let full : 1 ≤ length (evbuffer_data r.0.ircout) = rw rests.data_is more in
            let (r', run', empty) =
              write_on-Rests calls (now + 1) 0 r.1 (woken (at (now + 1) r.0))
                (omega (arith, rests.burst)) (omega arith) (omega (arith, rests.last_is)) rests.up
                refl rests.timer full (omega (arith, shorter, enough, ap length rests.data_is)) in
            (r', rw run (awake-woken (write_on calls) now r (rests.wakes more) full ∙ run'), empty)
      ]

  -- The output is sent in the end: when the socket takes everything and timers can be set, repeated
  -- throttled writes, each a second after the one before it and each but the first started by the
  -- timer of the one before, leave the output buffer empty, with one write for each byte and one
  -- more at most.
  pub write_on-Empties :
      (calls now : ℕ) (s : BurstState) (d : Daemon B)
      → s.burst_count ≤ 4
      → s.last < now
      → d.mode.shutdown ≡ false
      → d.mode.throttled ≡ false
      → ((callback : Callback) (seconds : ℕ) → d.env.event_once callback seconds ≡ true)
      → 1 ≤ length (evbuffer_data d.ircout)
      → length (evbuffer_data d.ircout) + 1 ≤ calls
      → (r : Daemon B × BurstState) × (write_on calls now s d ≡ ok r)
        × (evbuffer_data r.0.ircout ≡ [])
  write_on-Empties calls now s d bounded earlier up idle set some_bytes enough =
      write_on-Rests calls now 1 s d bounded (omega arith) earlier up idle set some_bytes enough
