-- ===== src/Poller/Interest.antt =====
-- The interest list of an epoll instance under Add, Update and Remove
-- (sex/util/event_poller.hpp).
use sex.Common.{
  ℕ, if◌then◌else◌, List, [], ◌∷◌, ◌++◌, Option, none, some, ◌≡◌, ◌≢◌, ◌⊎◌, inl, inr, refl, ap, ◌∙◌,
  sym, arith, Bool-cases,
}
use sex.Common.Int.{ℤ, minus_one, ◌==ℤ◌, ==ℤ→eq, ==ℤ→ne}
use sex.Runtime.{Action, done, thrown, Exception, Throws, pure, ◌>>◌}
use sex.Fd.{FileDescriptor, get_int}
use sex.Poller.{
  EpollEvent, EpollOp, ctl_add, ctl_mod, ctl_del, PollCalls, EventPoller, add, update_events,
  remove, create_epoll_event,
}

-- What is watched: for each descriptor its mask and its cookie, if any.
abbrev pub Interest : Type 0
Interest = ℤ → Option EpollEvent

abbrev updated : Interest → ℤ → Option EpollEvent → Interest
updated m fd v g = if fd ==ℤ g then v else m g

-- Replace what is there, or fail where nothing is.
abbrev replaced : Interest → ℤ → Option EpollEvent → Option EpollEvent → Option Interest
replaced m fd v none = none
replaced m fd v (some old) = some (updated m fd v)

abbrev inserted : Interest → ℤ → EpollEvent → Option EpollEvent → Option Interest
inserted m fd v none = some (updated m fd (some v))
inserted m fd v (some old) = none

-- What epoll_ctl does to the list where it succeeds: it adds a descriptor that is not in the list,
-- or changes or deletes one that is.
abbrev pub ctl_spec : EpollOp → ℤ → EpollEvent → Interest → Option Interest
ctl_spec ctl_add fd v m = inserted m fd v (m fd)
ctl_spec ctl_mod fd v m = replaced m fd (some v) (m fd)
ctl_spec ctl_del fd v m = replaced m fd none (m fd)

-- That, as documented: a call that fails leaves the list as it was.
pub record Watching {W : Type 0} (k : PollCalls W) (p : EventPoller) : Type 0 where
  pub watched : W → Interest
  pub succeeds :
      (op : EpollOp) (fd : ℤ) (v : EpollEvent) (w : W)
      → let (reply, w') = k.epoll_ctl (get_int p.fd) op fd v w in
        reply.value ≢ minus_one → ctl_spec op fd v (watched w) ≡ some (watched w')
  pub fails :
      (op : EpollOp) (fd : ℤ) (v : EpollEvent) (w : W)
      → let (reply, w') = k.epoll_ctl (get_int p.fd) op fd v w in
        reply.value ≡ minus_one → watched w' ≡ watched w

-- A client's calls: a descriptor with its cookie and its events.
pub data Call : Type 0 where
  adding updating : FileDescriptor → ℕ → ℕ → Call
  removing : FileDescriptor → Call

-- What a call is to do, and what a sequence of calls is to do.
abbrev pub call_spec : Call → Interest → Option Interest
call_spec (adding fd cookie events) m =
    inserted m fd.number (record { mask = events; data_ptr = cookie }) (m fd.number)
call_spec (updating fd cookie events) m =
    replaced m fd.number (some (record { mask = events; data_ptr = cookie })) (m fd.number)
call_spec (removing fd) m = replaced m fd.number none (m fd.number)

pub calls_spec : List Call → Interest → Option Interest
calls_spec [] m = some m
calls_spec (c ∷ cs) m = elim (call_spec c m) [ none ↦ none | some m' ↦ calls_spec cs m' ]

module _ {W : Type 0} (k : PollCalls W) (p : EventPoller) where
  pub call_once : Call → Action W (Unit {0})
  unfolding add update_events remove
  call_once (adding fd cookie events) = add k p fd cookie events
  call_once (updating fd cookie events) = update_events k p fd cookie events
  call_once (removing fd) = remove k p fd

  -- The calls one after another, until one throws.
  pub call_all : List Call → Action W (Unit {0})
  unfolding call_once
  call_all [] = pure tt
  call_all (c ∷ cs) = call_once c >> call_all cs

  module _ (i : Watching k p) where
    open i use {watched, succeeds, fails}
    open k use {epoll_ctl}

    -- One call does what it is to do, or throws and changes nothing.
    abbrev OneCall : Call → W → Type 0
    OneCall c w =
        let (r, w') = call_once c w in
        (r ≡ done tt) × (call_spec c (watched w) ≡ some (watched w'))
        ⊎ (e : Exception) × (r ≡ thrown e) × (watched w' ≡ watched w)

    one_call : (c : Call) (w : W) → OneCall c w
    unfolding call_once
    one_call (adding fd cookie events) w =
        let v = create_epoll_event cookie events in
        elim (Bool-cases ((epoll_ctl (get_int p.fd) ctl_add fd.number v w).0.value ==ℤ minus_one)) [
          | inl e ↦ ground (arith, fails ctl_add fd.number v w (==ℤ→eq _ _ e))
          | inr n ↦ ground (arith, succeeds ctl_add fd.number v w (==ℤ→ne _ _ n))
        ]
    one_call (updating fd cookie events) w =
        let v = create_epoll_event cookie events in
        elim (Bool-cases ((epoll_ctl (get_int p.fd) ctl_mod fd.number v w).0.value ==ℤ minus_one)) [
          | inl e ↦ ground (arith, fails ctl_mod fd.number v w (==ℤ→eq _ _ e))
          | inr n ↦ ground (arith, succeeds ctl_mod fd.number v w (==ℤ→ne _ _ n))
        ]
    one_call (removing fd) w =
        let v = create_epoll_event 0 0 in
        elim (Bool-cases ((epoll_ctl (get_int p.fd) ctl_del fd.number v w).0.value ==ℤ minus_one)) [
          | inl e ↦ ground (arith, fails ctl_del fd.number v w (==ℤ→eq _ _ e))
          | inr n ↦ ground (arith, succeeds ctl_del fd.number v w (==ℤ→ne _ _ n))
        ]

    -- What `call_all_cases` says of a sequence of calls.
    abbrev Outcomes : List Call → W → Type 0
    Outcomes cs w =
        let (r, w') = call_all cs w in
        (r ≡ done tt) × (calls_spec cs (watched w) ≡ some (watched w'))
        ⊎ ((before : List Call) × (c : Call) × (after : List Call) × (cs ≡ before ++ c ∷ after)
            × Throws r
            × (calls_spec before (watched w) ≡ some (watched w')))

    later :
        (c : Call) (cs : List Call) (w : W)
        → (call_once c w).0 ≡ done tt
        → call_all (c ∷ cs) w ≡ call_all cs (call_once c w).1
    unfolding call_all
    later c cs w e = ground arith

    calls_later :
        (c : Call) (cs : List Call) (w w' : W)
        → call_spec c (watched w) ≡ some (watched w')
        → calls_spec (c ∷ cs) (watched w) ≡ calls_spec cs (watched w')
    unfolding calls_spec
    calls_later c cs w w' e = ground arith

    -- A client's calls of Add, Update and Remove, if epoll_ctl does what is documented: either all
    -- of them return, and the interest list is what the sequence is to make of it, by the cookie and
    -- the events of the last call about each descriptor, and no Add named a descriptor in the list
    -- and no Update or Remove one outside it; or one of them throws, no later one is made, and the
    -- list is what the calls before it were to make of it.
    pub call_all_cases : (cs : List Call) (w : W) → Outcomes cs w
    unfolding call_all calls_spec
    call_all_cases [] w = inl (refl, refl)
    call_all_cases (c ∷ cs) w = elim (one_call c w) [
      | inr (x, e, same) ↦ inr ([], c, cs, refl, ground arith, ground arith)
      | inl (e, does) ↦
          let w' = (call_once c w).1 in
          elim (call_all_cases cs w') [
            | inl (r, m) ↦ inl (
              ap (λ s. s.0) (later c cs w e) ∙ r,
              calls_later c cs w w' does ∙ m ∙ ap (λ s. some (watched s.1)) (sym (later c cs w e)),
            )
            | inr (before, d, after, parts, t, m) ↦ inr (
              c ∷ before,
              d,
              after,
              ap (λ l. c ∷ l) parts,
              ground arith,
              calls_later c before w w' does
                  ∙ m
                  ∙ ap (λ s. some (watched s.1)) (sym (later c cs w e)),
            )
          ]
    ]
