-- ===== src/Switch/Total.antt =====
-- Termination of the parsing loop of src/iyelld/irc.c.
use iyell.Base.{
  ℕ, zero, suc, ◌<◌, Run, ok, fault, exhausted, ◌>>=◌, Option, none, some, ◌≡◌, refl, sym, ap,
  arith, length,
}
use iyell.CString.{Bytes}
use iyell.Daemon.{Daemon}
use iyell.Event.{EvBuffer, evbuffer_length}
use iyell.Info.Total.{Finishes}
use iyell.Switch.{irc_line, count_line, irc_lines, irc_parse}
use iyell.Daemon.Settled.{Settles}
use iyell.Switch.Settled.{line-Settles}

module _ {B : Type 0} ⦃ev : EvBuffer B⦄ where
  open ev use {evbuffer_data, evbuffer_readline, readline_shrinks}

  bind-Settles :
      (b : B) (m : Run (Daemon B)) (f : Daemon B → Run (Daemon B))
      → Settles b m
      → ((d : Daemon B) → d.ircin ≡ b → Finishes (f d))
      → Finishes (m >>= f)
  bind-Settles b (ok d) f h k = k d (h.keeps d refl)
  bind-Settles b (fault e) f h k = λ bad. h.ends (let same : e ≡ exhausted = cc in ap fault same)

  count_line-ircin : (d : Daemon B) → (count_line d).ircin ≡ d.ircin
  unfolding count_line
  count_line-ircin d = refl

  next_line-Finishes :
      (fuel n : ℕ) (next : Option Bytes) (d : Daemon B) (b' : B)
      → ((line : Bytes)
          → next ≡ some line
          → Finishes (irc_lines fuel line (record d { ircin = b' })))
      → Finishes {A = Daemon B} (elim n [
        | zero ↦ ok d
        | suc _ ↦ elim next [
          | none ↦ ok (record d { ircin = b' })
          | some line' ↦ irc_lines fuel line' (record d { ircin = b' })
        ]
      ])
  next_line-Finishes fuel zero next d b' h = λ e. cc
  next_line-Finishes fuel (suc n) none d b' h = λ e. cc
  next_line-Finishes fuel (suc n) (some line) d b' h = h line refl

  irc_lines-Finishes :
      (fuel : ℕ) (line : Bytes) (d : Daemon B)
      → length (evbuffer_data d.ircin) < fuel
      → Finishes (irc_lines fuel line d)
  unfolding irc_lines
  irc_lines-Finishes zero line d h = omega arith
  irc_lines-Finishes (suc fuel) line d h =
      bind-Settles d.ircin (irc_line line (count_line d)) _
        (rw (sym (count_line-ircin d)) (line-Settles line (count_line d)))
        (λ d₁ same.
          next_line-Finishes fuel (evbuffer_length d₁.ircin) (evbuffer_readline d₁.ircin).0 d₁
            (evbuffer_readline d₁.ircin).1
            (λ line' e.
              irc_lines-Finishes fuel line' (record d₁ { ircin = (evbuffer_readline d₁.ircin).1 })
                (omega (
                  arith,
                  readline_shrinks d₁.ircin line' e,
                  ap (λ b. length (evbuffer_data b)) same,
                ))))

  first_line-Finishes :
      (next : Option Bytes) (d : Daemon B) (b' : B)
      → ((line : Bytes) → next ≡ some line → length (evbuffer_data b') < evbuffer_length d.ircin)
      → Finishes {A = Daemon B} (elim next [
        | none ↦ ok (record d { ircin = b' })
        | some line ↦ irc_lines (evbuffer_length d.ircin) line (record d { ircin = b' })
      ])
  first_line-Finishes none d b' h = λ e. cc
  first_line-Finishes (some line) d b' h =
      irc_lines-Finishes (evbuffer_length d.ircin) line (record d { ircin = b' }) (h line refl)

  -- The model of `irc_parse` never runs out of fuel: no handler of a line touches the input buffer,
  -- each round takes a line off it, and the fuel is the length of the buffer.
  pub irc_parse-Finishes : (d : Daemon B) → Finishes (irc_parse d)
  unfolding irc_parse evbuffer_length
  irc_parse-Finishes d =
      first_line-Finishes (evbuffer_readline d.ircin).0 d (evbuffer_readline d.ircin).1
        (λ line e. readline_shrinks d.ircin line e)
