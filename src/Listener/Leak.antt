-- ===== src/Listener/Leak.antt =====
-- Which sockets of src/iyelld/network.c are closed when the listeners are stopped, and which are not.
use iyell.Base.{
  ℕ, zero, suc, ◌+◌, ◌≤◌, Bool, true, false, List, [], ◌∷◌, ◌++◌, ◌≡◌, refl, sym, ◌∙◌, ap, arith,
  ◌==◌, if◌then◌else◌, append_assoc, Option-cases, inl, inr,
}
use iyell.CString.{Bytes, codes}
use iyell.Conf.{Conf, hash_text_is_true, hash_text_get_first}
use iyell.Listener.{
  Listeners, Family, Socket, no_socket, not_bound, bound, udp_socket, unix_socket, af_inet,
  af_inet6, net_udp_stop, net_unix_stop, start_listeners, stop_listeners,
}
use iyell.Listener.Sockets.{
  opened_by, bound_by, refused_by, sockets, after_syslog, after_udp, after_unix, to_close,
  start_listeners-eq, stop_listeners-closed, stop_both-closed, both-bound, one-bound,
}

-- How often a descriptor is in a list.
pub times : ℕ → List ℕ → ℕ
times n [] = 0
times n (s ∷ ss) = (if s == n then 1 else 0) + times n ss

times-append : (n : ℕ) (ss ts : List ℕ) → times n (ss ++ ts) ≡ times n ss + times n ts
unfolding times
times-append n [] ts = omega arith
times-append n (s ∷ ss) ts = ground (arith, times-append n ss ts)

times-socket :
    (n : ℕ) (k : Socket) → times n (opened_by k) ≡ times n (bound_by k) + times n (refused_by k)
unfolding times
times-socket n no_socket = refl
times-socket n (not_bound s) = omega arith
times-socket n (bound s) = omega arith

times-both :
    (n : ℕ) (is_set : Bool) (k k' : Socket)
    → times n (if is_set then opened_by k' ++ opened_by k else [])
      ≡ times n (if is_set then bound_by k ++ bound_by k' else [])
        + times n (if is_set then refused_by k' ++ refused_by k else [])
unfolding times
times-both n false k k' = refl
times-both n true k k' = omega (
  arith,
  times-append n (opened_by k') (opened_by k),
  times-append n (bound_by k) (bound_by k'),
  times-append n (refused_by k') (refused_by k),
  times-socket n k,
  times-socket n k',
)

times-one :
    (n : ℕ) (is_set : Bool) (k : Socket)
    → times n (if is_set then opened_by k else [])
      ≡ times n (if is_set then bound_by k else []) + times n (if is_set then refused_by k else [])
unfolding times
times-one n false k = refl
times-one n true k = times-socket n k

times-three :
    (n : ℕ) (o₁ b₁ r₁ o₂ b₂ r₂ o₃ b₃ r₃ : List ℕ)
    → times n o₁ ≡ times n b₁ + times n r₁
    → times n o₂ ≡ times n b₂ + times n r₂
    → times n o₃ ≡ times n b₃ + times n r₃
    → times n (o₁ ++ (o₂ ++ o₃)) ≡ times n (r₃ ++ (b₁ ++ (b₂ ++ b₃))) + times n (r₁ ++ r₂)
times-three n o₁ b₁ r₁ o₂ b₂ r₂ o₃ b₃ r₃ e₁ e₂ e₃ = omega (
  arith,
  e₁,
  e₂,
  e₃,
  times-append n o₁ (o₂ ++ o₃),
  times-append n o₂ o₃,
  times-append n r₃ (b₁ ++ (b₂ ++ b₃)),
  times-append n b₁ (b₂ ++ b₃),
  times-append n b₂ b₃,
  times-append n r₁ r₂,
)

udp_socket-positive :
    (answer : Family → Bytes → Socket) (conf : Conf) (family : Family) (setting : Bytes)
    → ((f : Family) (port : Bytes) (n : ℕ) → answer f port ≡ bound n → 1 ≤ n)
    → (n : ℕ) → udp_socket answer conf family setting ≡ bound n
    → 1 ≤ n
unfolding udp_socket
udp_socket-positive answer conf family setting positive n e =
    elim (Option-cases (hash_text_get_first conf.global setting)) [
      | inl unset ↦ ground (arith, e, unset)
      | inr (port, set) ↦ positive family port n (sym (rw (set, udp_socket) refl) ∙ e)
    ]

unix_socket-positive :
    (answer : Bytes → Socket) (conf : Conf)
    → ((path : Bytes) (n : ℕ) → answer path ≡ bound n → 1 ≤ n)
    → (n : ℕ) → unix_socket answer conf ≡ bound n
    → 1 ≤ n
unfolding unix_socket
unix_socket-positive answer conf positive n e =
    elim (Option-cases (hash_text_get_first conf.global (codes "unix_path"))) [
      | inl unset ↦ ground (arith, e, unset)
      | inr (path, set) ↦ (let p = positive path n in ground (arith, e, set, p))
    ]

-- The sockets that were bound, IPv4 before IPv6.
abbrev pub listening : (Family → Bytes → Socket) → (Bytes → Socket) → Conf → List ℕ
listening answer answer_unix conf =
    let is_set = hash_text_is_true conf.global in
    let both : Bytes → List ℕ = λ setting.
      bound_by (udp_socket answer conf af_inet setting)
      ++ bound_by (udp_socket answer conf af_inet6 setting) in
    (if is_set (codes "syslog_listener") then both (codes "syslog_port") else [])
    ++ ((if is_set (codes "udp_listener") then both (codes "udp_port") else [])
        ++ (if is_set (codes "unix_listener") then bound_by (unix_socket answer_unix conf) else []))

-- The Unix socket, when it could not be bound.
abbrev pub refused_unix : (Bytes → Socket) → Conf → List ℕ
refused_unix answer_unix conf =
    if hash_text_is_true conf.global (codes "unix_listener")
    then refused_by (unix_socket answer_unix conf)
    else []

-- The UDP sockets that could not be bound.
abbrev pub leaked : (Family → Bytes → Socket) → Conf → List ℕ
leaked answer conf =
    let is_set = hash_text_is_true conf.global in
    let both : Bytes → List ℕ = λ setting.
      refused_by (udp_socket answer conf af_inet6 setting)
      ++ refused_by (udp_socket answer conf af_inet setting) in
    (if is_set (codes "syslog_listener") then both (codes "syslog_port") else [])
    ++ (if is_set (codes "udp_listener") then both (codes "udp_port") else [])

times-sockets :
    (n : ℕ) (answer : Family → Bytes → Socket) (answer_unix : Bytes → Socket) (conf : Conf)
    → times n (sockets opened_by opened_by answer answer_unix conf)
      ≡ times n (refused_unix answer_unix conf ++ listening answer answer_unix conf)
        + times n (leaked answer conf)
times-sockets n answer answer_unix conf =
    let is_set = hash_text_is_true conf.global in
    let at = udp_socket answer conf in
    times-three n _ _ _ _ _ _ _ _ _
      (times-both n (is_set (codes "syslog_listener")) (at af_inet (codes "syslog_port"))
        (at af_inet6 (codes "syslog_port")))
      (times-both n (is_set (codes "udp_listener")) (at af_inet (codes "udp_port"))
        (at af_inet6 (codes "udp_port")))
      (times-one n (is_set (codes "unix_listener")) (unix_socket answer_unix conf))

module _ {B : Type 0} where
  stop_both-opened :
      (is_set : Bool) (m n : ℕ) (l : Listeners B)
      → (if is_set then net_udp_stop n (net_udp_stop m l) else l).opened ≡ l.opened
  stop_both-opened is_set m n l = ap (λ (x : Listeners B). x.opened) (stop_both-closed is_set m n l)

  stop_last-opened :
      (is_set : Bool) (n : ℕ) (l : Listeners B)
      → (if is_set then net_unix_stop n l else l).opened ≡ l.opened
  unfolding net_unix_stop
  stop_last-opened false n l = refl
  stop_last-opened true zero l = refl
  stop_last-opened true (suc n) l = ground arith

  stop_listeners-opened : (l : Listeners B) → (stop_listeners l).opened ≡ l.opened
  unfolding stop_listeners
  stop_listeners-opened l =
      let is_set = hash_text_is_true l.daemon.conf.global in
      let l₁ =
        if is_set (codes "syslog_listener")
        then net_udp_stop l.syslog6 (net_udp_stop l.syslog4 l)
        else l in
      let l₂ =
        if is_set (codes "udp_listener")
        then net_udp_stop l₁.udp6 (net_udp_stop l₁.udp4 l₁)
        else l₁ in
      stop_last-opened (is_set (codes "unix_listener")) l₂.unix l₂
      ∙ stop_both-opened (is_set (codes "udp_listener")) l₁.udp4 l₁.udp6 l₁
      ∙ stop_both-opened (is_set (codes "syslog_listener")) l.syslog4 l.syslog6 l

  to_close-listening :
      (answer : Family → Bytes → Socket) (answer_unix : Bytes → Socket) (l : Listeners B)
      → ((f : Family) (port : Bytes) (n : ℕ) → answer f port ≡ bound n → 1 ≤ n)
      → ((path : Bytes) (n : ℕ) → answer_unix path ≡ bound n → 1 ≤ n)
      → l.syslog4 ≡ 0
      → l.syslog6 ≡ 0
      → l.udp4 ≡ 0
      → l.udp6 ≡ 0
      → l.unix ≡ 0
      → to_close (after_unix answer_unix (after_udp answer (after_syslog answer l)))
        ≡ listening answer answer_unix l.daemon.conf
  to_close-listening answer answer_unix l positive positive_unix s4 s6 u4 u6 u =
      let conf = l.daemon.conf in
      let is_set = hash_text_is_true conf.global in
      let at = λ (family : Family) (setting : Bytes). udp_socket answer conf family setting in
      let positive_at = λ (family : Family) (setting : Bytes).
        udp_socket-positive answer conf family setting positive in
      rw s4 rw s6 rw u4 rw u6 rw u rw
        (both-bound (is_set (codes "syslog_listener")) (at af_inet (codes "syslog_port"))
          (at af_inet6 (codes "syslog_port")) (positive_at af_inet (codes "syslog_port"))
          (positive_at af_inet6 (codes "syslog_port")))
        rw
        (both-bound (is_set (codes "udp_listener")) (at af_inet (codes "udp_port"))
          (at af_inet6 (codes "udp_port")) (positive_at af_inet (codes "udp_port"))
          (positive_at af_inet6 (codes "udp_port")))
        rw
        (one-bound (is_set (codes "unix_listener")) (unix_socket answer_unix conf)
          (unix_socket-positive answer_unix conf positive_unix))
        refl

  -- Starting the listeners and stopping them under the same settings closes a Unix socket that could
  -- not be bound and every socket that was bound, each once, IPv4 before IPv6 and syslog before the
  -- messages, and nothing else. Of the sockets that are opened, in all, those for UDP that could not
  -- be bound stay open. The events are new ones, and a bound descriptor is positive.
  pub stop_listeners-start_listeners :
      (answer : Family → Bytes → Socket) (answer_unix : Bytes → Socket) (l : Listeners B)
      → ((f : Family) (port : Bytes) (n : ℕ) → answer f port ≡ bound n → 1 ≤ n)
      → ((path : Bytes) (n : ℕ) → answer_unix path ≡ bound n → 1 ≤ n)
      → l.syslog4 ≡ 0
      → l.syslog6 ≡ 0
      → l.udp4 ≡ 0
      → l.udp6 ≡ 0
      → l.unix ≡ 0
      → let l' = stop_listeners (start_listeners answer answer_unix l) in
        let conf = l.daemon.conf in
        let closed = refused_unix answer_unix conf ++ listening answer answer_unix conf in
        (opened : List ℕ) × (l'.opened ≡ l.opened ++ opened)
        × (l'.closed ≡ l.closed ++ closed)
        × ((n : ℕ) → times n opened ≡ times n closed + times n (leaked answer conf))
  stop_listeners-start_listeners answer answer_unix l positive positive_unix s4 s6 u4 u6 u =
      let conf = l.daemon.conf in
      let l₁ = after_unix answer_unix (after_udp answer (after_syslog answer l)) in
      let start = start_listeners-eq answer answer_unix l in
      let closing = to_close-listening answer answer_unix l positive positive_unix s4 s6 u4 u6 u in
      (
        sockets opened_by opened_by answer answer_unix conf,
        ap (λ x. (stop_listeners x).opened) start ∙ stop_listeners-opened l₁ ∙ simp append_assoc,
        ap (λ x. (stop_listeners x).closed) start
            ∙ stop_listeners-closed l₁
            ∙ ap (λ c. l₁.closed ++ c) closing
            ∙ append_assoc l.closed (refused_unix answer_unix conf)
                (listening answer answer_unix conf),
        λ n. times-sockets n answer answer_unix conf,
      )
