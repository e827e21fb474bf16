-- ===== src/Listener/Sockets.antt =====
-- The sockets that src/iyelld/network.c opens for its listeners, and closes.
use iyell.Base.{
  ℕ, zero, suc, ◌≤◌, Bool, true, false, List, [], ◌∷◌, ◌++◌, Option, none, some, ◌≡◌, refl, sym,
  ◌∙◌, ap, arith, if◌then◌else◌, Bool-cases, append-nil, append_assoc, inl, inr,
}
use iyell.CString.{Bytes, codes}
use iyell.Conf.{Conf, hash_text_is_true}
use iyell.Listener.{
  Listeners, Family, Socket, no_socket, not_bound, bound, bind_udp, bind_unix, udp_socket,
  unix_socket, af_inet, af_inet6, net_udp_start, net_unix_start, net_udp_stop, net_unix_stop,
  started, start_syslog, start_udp, start_unix, start_listeners, stop_listeners,
}

-- A descriptor of an event, when there is one.
abbrev pub of_event : ℕ → List ℕ
of_event zero = []
of_event (suc n) = suc n ∷ []

module _ {B : Type 0} where
  net_udp_stop-closed :
      (n : ℕ) (l : Listeners B) → net_udp_stop n l ≡ record l { closed = l.closed ++ of_event n }
  unfolding net_udp_stop
  net_udp_stop-closed zero l = ap (λ c. record l { closed = c }) (sym (append-nil l.closed))
  net_udp_stop-closed (suc n) l = refl

  net_unix_stop-closed :
      (n : ℕ) (l : Listeners B) → (net_unix_stop n l).closed ≡ l.closed ++ of_event n
  unfolding net_unix_stop
  net_unix_stop-closed zero l = sym (append-nil l.closed)
  net_unix_stop-closed (suc n) l = ground arith

  -- What `stop_listeners` closes, by the settings and the events.
  abbrev pub to_close : Listeners B → List ℕ
  to_close l =
      let is_set = hash_text_is_true l.daemon.conf.global in
      (if is_set (codes "syslog_listener") then of_event l.syslog4 ++ of_event l.syslog6 else [])
      ++ ((if is_set (codes "udp_listener") then of_event l.udp4 ++ of_event l.udp6 else [])
          ++ (if is_set (codes "unix_listener") then of_event l.unix else []))

  pub stop_both-closed :
      (is_set : Bool) (m n : ℕ) (l : Listeners B)
      → (if is_set then net_udp_stop n (net_udp_stop m l) else l)
        ≡ record l { closed = l.closed ++ (if is_set then of_event m ++ of_event n else []) }
  stop_both-closed false m n l = ap (λ c. record l { closed = c }) (sym (append-nil l.closed))
  stop_both-closed true m n l = rw (net_udp_stop-closed m l) (
      net_udp_stop-closed n (record l { closed = l.closed ++ of_event m })
      ∙ ap (λ c. record l { closed = c }) (append_assoc l.closed (of_event m) (of_event n)))

  stop_last-closed :
      (is_set : Bool) (n : ℕ) (l : Listeners B)
      → (if is_set then net_unix_stop n l else l).closed
        ≡ l.closed ++ (if is_set then of_event n else [])
  stop_last-closed false n l = sym (append-nil l.closed)
  stop_last-closed true n l = net_unix_stop-closed n l

  pub stop_listeners-closed : (l : Listeners B) → (stop_listeners l).closed ≡ l.closed ++ to_close l
  unfolding stop_listeners
  stop_listeners-closed l =
      let is_set = hash_text_is_true l.daemon.conf.global in
      rw (stop_both-closed (is_set (codes "syslog_listener")) l.syslog4 l.syslog6 l) rw
        (stop_both-closed (is_set (codes "udp_listener")) l.udp4 l.udp6 (record l {
          closed =
              l.closed
              ++ (if is_set (codes "syslog_listener")
                  then of_event l.syslog4 ++ of_event l.syslog6
                  else []);
        }))
        (stop_last-closed (is_set (codes "unix_listener")) l.unix _ ∙ simp append_assoc)

-- The descriptor that is returned.
abbrev pub returned : Socket → Option ℕ
returned no_socket = none
returned (not_bound s) = none
returned (bound s) = some s

-- What was opened, and of that what was bound and what was not.
abbrev pub opened_by : Socket → List ℕ
opened_by no_socket = []
opened_by (not_bound s) = s ∷ []
opened_by (bound s) = s ∷ []

abbrev pub bound_by : Socket → List ℕ
bound_by no_socket = []
bound_by (not_bound s) = []
bound_by (bound s) = s ∷ []

abbrev pub refused_by : Socket → List ℕ
refused_by no_socket = []
refused_by (not_bound s) = s ∷ []
refused_by (bound s) = []

-- What is opened, in the order of `start_listeners`, and what of it is bound and stays unbound.
abbrev pub sockets :
    (Socket → List ℕ)
    → (Socket → List ℕ)
    → (Family → Bytes → Socket)
    → (Bytes → Socket)
    → Conf
    → List ℕ
sockets of_udp of_unix answer answer_unix conf =
    let is_set = hash_text_is_true conf.global in
    let both : Bytes → List ℕ = λ setting.
      of_udp (udp_socket answer conf af_inet6 setting)
      ++ of_udp (udp_socket answer conf af_inet setting) in
    (if is_set (codes "syslog_listener") then both (codes "syslog_port") else [])
    ++ ((if is_set (codes "udp_listener") then both (codes "udp_port") else [])
        ++ (if is_set (codes "unix_listener") then of_unix (unix_socket answer_unix conf) else []))

of_event-started :
    (k : Socket) → ((n : ℕ) → k ≡ bound n → 1 ≤ n) → of_event (started (returned k) 0) ≡ bound_by k
unfolding started
of_event-started no_socket positive = refl
of_event-started (not_bound s) positive = refl
of_event-started (bound zero) positive = ground (arith, positive 0 refl)
of_event-started (bound (suc n)) positive = refl

module _ {B : Type 0} where
  bind_udp-eq :
      (k : Socket) (l : Listeners B)
      → bind_udp k l ≡ (returned k, record l { opened = l.opened ++ opened_by k })
  unfolding bind_udp
  bind_udp-eq no_socket l = ap (λ o. (none, record l { opened = o })) (sym (append-nil l.opened))
  bind_udp-eq (not_bound s) l = refl
  bind_udp-eq (bound s) l = refl

  bind_unix-eq :
      (k : Socket) (l : Listeners B)
      → bind_unix k l ≡ (
        returned k,
        record l { opened = l.opened ++ opened_by k; closed = l.closed ++ refused_by k },
      )
  unfolding bind_unix
  bind_unix-eq no_socket l =
      ap (λ (o : List ℕ × List ℕ). (none, record l { opened = o.0; closed = o.1 }))
        (λ i. (sym (append-nil l.opened) i, sym (append-nil l.closed) i))
  bind_unix-eq (not_bound s) l = refl
  bind_unix-eq (bound s) l =
      ap (λ c. (some s, record l { opened = l.opened ++ (s ∷ []); closed = c }))
        (sym (append-nil l.closed))

  -- What the steps of `start_listeners` do.
  abbrev pub after_syslog : (Family → Bytes → Socket) → Listeners B → Listeners B
  after_syslog answer l =
      let is_set = hash_text_is_true l.daemon.conf.global (codes "syslog_listener") in
      let s4 = udp_socket answer l.daemon.conf af_inet (codes "syslog_port") in
      let s6 = udp_socket answer l.daemon.conf af_inet6 (codes "syslog_port") in
      record l {
        syslog4 = if is_set then started (returned s4) l.syslog4 else l.syslog4;
        syslog6 = if is_set then started (returned s6) l.syslog6 else l.syslog6;
        opened = l.opened ++ (if is_set then opened_by s6 ++ opened_by s4 else []);
      }

  abbrev pub after_udp : (Family → Bytes → Socket) → Listeners B → Listeners B
  after_udp answer l =
      let is_set = hash_text_is_true l.daemon.conf.global (codes "udp_listener") in
      let s4 = udp_socket answer l.daemon.conf af_inet (codes "udp_port") in
      let s6 = udp_socket answer l.daemon.conf af_inet6 (codes "udp_port") in
      record l {
        udp4 = if is_set then started (returned s4) l.udp4 else l.udp4;
        udp6 = if is_set then started (returned s6) l.udp6 else l.udp6;
        opened = l.opened ++ (if is_set then opened_by s6 ++ opened_by s4 else []);
      }

  abbrev pub after_unix : (Bytes → Socket) → Listeners B → Listeners B
  after_unix answer l =
      let is_set = hash_text_is_true l.daemon.conf.global (codes "unix_listener") in
      let u = unix_socket answer l.daemon.conf in
      record l {
        unix = if is_set then started (returned u) l.unix else l.unix;
        opened = l.opened ++ (if is_set then opened_by u else []);
        closed = l.closed ++ (if is_set then refused_by u else []);
      }

  start_syslog-eq :
      (answer : Family → Bytes → Socket) (l : Listeners B)
      → start_syslog answer l ≡ after_syslog answer l
  unfolding start_syslog net_udp_start
  start_syslog-eq answer l =
      let conf = l.daemon.conf in
      let s4 = udp_socket answer conf af_inet (codes "syslog_port") in
      let s6 = udp_socket answer conf af_inet6 (codes "syslog_port") in
      elim (Bool-cases (hash_text_is_true conf.global (codes "syslog_listener"))) [
        | inl on ↦
            rw on rw (bind_udp-eq s6 l) rw
              (bind_udp-eq s4 (record l {
                opened = l.opened ++ opened_by s6;
                syslog6 = started (returned s6) l.syslog6;
              }))
              (ap
                (λ o. record l {
                  syslog4 = started (returned s4) l.syslog4;
                  syslog6 = started (returned s6) l.syslog6;
                  opened = o;
                })
                (append_assoc l.opened (opened_by s6) (opened_by s4)))
        | inr off ↦ rw off (ap (λ o. record l { opened = o }) (sym (append-nil l.opened)))
      ]

  start_udp-eq :
      (answer : Family → Bytes → Socket) (l : Listeners B) → start_udp answer l ≡ after_udp answer l
  unfolding start_udp net_udp_start
  start_udp-eq answer l =
      let conf = l.daemon.conf in
      let s4 = udp_socket answer conf af_inet (codes "udp_port") in
      let s6 = udp_socket answer conf af_inet6 (codes "udp_port") in
      elim (Bool-cases (hash_text_is_true conf.global (codes "udp_listener"))) [
        | inl on ↦
            rw on rw (bind_udp-eq s6 l) rw
              (bind_udp-eq s4 (record l {
                opened = l.opened ++ opened_by s6;
                udp6 = started (returned s6) l.udp6;
              }))
              (ap
                (λ o. record l {
                  udp4 = started (returned s4) l.udp4;
                  udp6 = started (returned s6) l.udp6;
                  opened = o;
                })
                (append_assoc l.opened (opened_by s6) (opened_by s4)))
        | inr off ↦ rw off (ap (λ o. record l { opened = o }) (sym (append-nil l.opened)))
      ]

  start_unix-eq :
      (answer : Bytes → Socket) (l : Listeners B) → start_unix answer l ≡ after_unix answer l
  unfolding start_unix net_unix_start
  start_unix-eq answer l =
      let conf = l.daemon.conf in
      let u = unix_socket answer conf in
      elim (Bool-cases (hash_text_is_true conf.global (codes "unix_listener"))) [
        | inl on ↦ rw on rw (bind_unix-eq u l) refl
        | inr off ↦ rw off (
            ap (λ (o : List ℕ × List ℕ). record l { opened = o.0; closed = o.1 })
              (λ i. (sym (append-nil l.opened) i, sym (append-nil l.closed) i)))
      ]

  pub start_listeners-eq :
      (answer : Family → Bytes → Socket) (answer_unix : Bytes → Socket) (l : Listeners B)
      → start_listeners answer answer_unix l
        ≡ after_unix answer_unix (after_udp answer (after_syslog answer l))
  unfolding start_listeners
  start_listeners-eq answer answer_unix l =
      ap (λ x. start_unix answer_unix (start_udp answer x)) (start_syslog-eq answer l)
      ∙ ap (start_unix answer_unix) (start_udp-eq answer (after_syslog answer l))
      ∙ start_unix-eq answer_unix (after_udp answer (after_syslog answer l))

pub both-bound :
    (is_set : Bool) (k k' : Socket)
    → ((n : ℕ) → k ≡ bound n → 1 ≤ n)
    → ((n : ℕ) → k' ≡ bound n → 1 ≤ n)
    → (if is_set
        then of_event (if is_set then started (returned k) 0 else 0)
          ++ of_event (if is_set then started (returned k') 0 else 0)
        else [])
      ≡ (if is_set then bound_by k ++ bound_by k' else [])
both-bound false k k' positive positive' = refl
both-bound true k k' positive positive' =
    rw (of_event-started k positive) rw (of_event-started k' positive') refl

pub one-bound :
    (is_set : Bool) (k : Socket)
    → ((n : ℕ) → k ≡ bound n → 1 ≤ n)
    → (if is_set then of_event (if is_set then started (returned k) 0 else 0) else [])
      ≡ (if is_set then bound_by k else [])
one-bound false k positive = refl
one-bound true k positive = of_event-started k positive
