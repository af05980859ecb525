-- ===== src/Poller/Poll.antt =====
-- What an EventPoller asks of epoll, and what a poll leaves in the caller's events
-- (sex/util/event_poller.hpp).
use sex.Common.{
  ℕ, zero, suc, not, ltb, ◌==◌, if◌then◌else◌, List, [], ◌∷◌, Option, none, some, ◌≤◌, ◌≡◌, ◌≢◌,
  ◌⊎◌, inl, inr, arith, bit_xor, Bool-cases,
}
use sex.Common.Int.{ℤ, pos, minus_one, ◌==ℤ◌, ==ℤ→eq, ==ℤ→ne}
use sex.Common.Bits.{test_bit, test_bit-flip}
use sex.Runtime.{done, thrown, at}
use sex.Result.{failure}
use sex.Fd.{holder, get_int}
use sex.Poller.{
  Event, EpollEvent, PollCalls, EventPoller, size, empty_events, copy_events, timed_poll,
  create_poller, epoll_cloexec_bit, epoll_no_close_on_exec,
}

-- The element at an index.
pub get_elem? : {A : Type 0} → List A → ℕ → Option A
get_elem? [] i = none
get_elem? (x ∷ xs) zero = some x
get_elem? (x ∷ xs) (suc i) = get_elem? xs i

abbrev pub event_of : Option EpollEvent → Option Event
event_of none = none
event_of (some v) = some (record { events = v.mask; cookie = v.data_ptr })

-- A buffer that has at least `n` places.
unfoldable pub count : List EpollEvent → ℕ
count [] = 0
count (v ∷ evs) = suc (count evs)

copied :
    (n : ℕ) (evs : List EpollEvent) (es : List Event) (i : ℕ)
    → n ≤ size es
    → n ≤ count evs
    → get_elem? (copy_events n evs es) i
      ≡ (if ltb i n then event_of (get_elem? evs i) else get_elem? es i)
unfolding copy_events size count get_elem?
copied zero evs es i p q = ground arith
copied (suc n) [] es i p q = absurd (omega arith)
copied (suc n) (v ∷ evs) [] i p q = absurd (omega arith)
copied (suc n) (v ∷ evs) (e ∷ es) zero p q = ground arith
copied (suc n) (v ∷ evs) (e ∷ es) (suc i) p q =
    ground (arith, copied n evs es i (omega arith) (omega arith))

module _ {W : Type 0} (k : PollCalls W) (p : EventPoller) (millis : ℤ) (es : List Event)
    (w : W) where
  open k use {sys, epoll_wait}

  -- If epoll_wait, when it succeeds, reports no more events than it was given places for and leaves
  -- as many in its buffer: `TimedPoll` throws the error and leaves the caller's events alone if
  -- epoll_wait fails; otherwise it returns the number reported, the events before that number are
  -- those of the buffer, and all later ones are as they were.
  pub timed_poll_cases :
      (n i : ℕ)
      → let ((reply, evs), w') = epoll_wait (get_int p.fd) (empty_events es) (size es) millis w in
        (reply.value ≡ minus_one) ⊎ (reply.value ≡ pos n)
        → n ≤ size es
        → n ≤ count evs
        → (reply.value ≡ minus_one)
            × (timed_poll k p millis (es, w) ≡ (
              thrown (
                  failure sys "epoll_wait(getInt(), evs.data(), MaxSize, millis)" reply
                    (at 58 "TimedPoll" "sex/util/event_poller.hpp")),
              (es, w'),
            ))
          ⊎ ((timed_poll k p millis (es, w)).0 ≡ done n)
            × (get_elem? (timed_poll k p millis (es, w)).1.0 i
                ≡ (if ltb i n then event_of (get_elem? evs i) else get_elem? es i))
  unfolding timed_poll
  timed_poll_cases n i (inl e) fits filled = inl (e, ground arith)
  timed_poll_cases n i (inr e) fits filled =
      let evs = (epoll_wait (get_int p.fd) (empty_events es) (size es) millis w).0.1 in
      inr (ground arith, ground (arith, copied n evs es i fits filled))

module _ {W : Type 0} (k : PollCalls W) (flags : ℕ) (w : W) where
  open k use {sys, epoll_create1}

  -- The constructor calls epoll_create1 with the caller's flags in which the close-on-exec bit is
  -- turned round and no other; it owns the descriptor, or throws if there is none.
  create_poller_cases :
      (f : ℕ) × ((j : ℕ)
        → test_bit f j
          ≡ (if epoll_cloexec_bit == j then not (test_bit flags j) else test_bit flags j))
      × let (reply, w') = epoll_create1 f w in
        ((reply.value ≢ minus_one) × (create_poller k flags w ≡ (done (holder reply.value), w'))
          ⊎ (reply.value ≡ minus_one)
            × (create_poller k flags w ≡ (
              thrown (
                  failure sys "epoll_create1(flags ^ NO_CLOSE_ON_EXEC)" reply
                    (at 40 "EventPoller" "sex/util/event_poller.hpp")),
              w',
            )))
  unfolding create_poller
  create_poller_cases =
      let f = bit_xor flags epoll_no_close_on_exec in
      (
        f,
        test_bit-flip flags epoll_cloexec_bit,
        elim (Bool-cases ((epoll_create1 f w).0.value ==ℤ minus_one)) [
          | inl e ↦ inr (==ℤ→eq _ _ e, ground arith)
          | inr e ↦ inl (==ℤ→ne _ _ e, ground arith)
        ],
      )
