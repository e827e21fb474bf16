-- ===== src/Daemon/Settled.antt =====
-- Handlers that end and leave the input buffer as it is, for src/iyelld/irc.c and src/iyelld/cmd.c.
use iyell.Base.{
  Bool, true, false, Run, ok, fault, Fault, exhausted, ◌>>=◌, ◌≡◌, ◌≢◌, sym, ◌∙◌, ap, if◌then◌else◌,
}
use iyell.Daemon.{Daemon}

-- The run does not end for want of fuel, and leaves the input buffer as it is given.
pub record Settles {B : Type 0} (b : B) (m : Run (Daemon B)) : Type 0 where
  pub ends : m ≢ fault exhausted
  pub keeps : (d : Daemon B) → m ≡ ok d → d.ircin ≡ b

pub Settles-ok : {B : Type 0} {b : B} (d : Daemon B) → d.ircin ≡ b → Settles b (ok d)
Settles-ok {b = b} d h = record {
  ends = λ e. cc;
  keeps = λ d' e. let same : d ≡ d' = cc in sym (ap (λ (x : Daemon _). x.ircin) same) ∙ h;
}

pub Settles-fault : {B : Type 0} {b : B} {f : Fault} → f ≢ exhausted → Settles b (fault f)
Settles-fault {f = f} h = record {
  ends = λ e. let same : f ≡ exhausted = cc in h same;
  keeps = λ d e. cc;
}

pub Settles-bind :
    {B : Type 0} {A : Type 0} {b : B} (m : Run A) {f : A → Run (Daemon B)}
    → m ≢ fault exhausted
    → ((a : A) → Settles b (f a))
    → Settles b (m >>= f)
Settles-bind (ok a) h k = k a
Settles-bind (fault e) h k = Settles-fault (λ same. h (ap fault same))

pub Settles-if :
    {B : Type 0} {b : B} (c : Bool) {m n : Run (Daemon B)}
    → Settles b m
    → Settles b n
    → Settles b (if c then m else n)
Settles-if true h k = h
Settles-if false h k = k

pub Settles-from :
    {B : Type 0} {b b' : B} {m : Run (Daemon B)} → b' ≡ b → Settles b' m → Settles b m
Settles-from e h = rw (sym e) h
