-- ===== src/Poller/Tests.antt =====
-- A poll that finds one event, for a caller with two places.
use sex.Poller.{in_mask, out_mask}
use sex.Common.{◌≢◌, if◌then◌else◌, none, some, ◌++◌, refl, Option}
use sex.Runtime.{Throws}
use sex.Fd.{FileDescriptor}
use sex.Poller.Interest.{
  Interest, ctl_spec, Watching, Call, adding, updating, calls_spec, call_all, call_all_cases,
}
use sex.Common.{ltb, if◌then◌else◌, List, [], ◌∷◌, ◌≡◌, ◌⊎◌, inr, refl, arith}
use sex.Common.Int.{pos, minus_one}
use sex.Runtime.{done, thrown, Reply, at}
use sex.Result.{failure}
use sex.Fd.{holder}
use sex.Poller.{Event, EpollEvent, PollCalls, size, timed_poll}
use sex.Poller.Poll.{get_elem?, event_of, count, timed_poll_cases}
use sex.Process.Tests.{plain_sys}

abbrev fine : Reply
fine = record { value = pos 0; errno = 0 }

abbrev one : Reply
one = record { value = pos 1; errno = 0 }

abbrev found : List EpollEvent
found = record { mask = 1; data_ptr = 99 } ∷ record { mask = 0; data_ptr = 0 } ∷ []

abbrev one_ready : PollCalls (Unit {0})
one_ready = record {
  sys = plain_sys;
  epoll_create1 = λ flags w. (fine, w);
  epoll_ctl = λ fd op target event w. (fine, w);
  epoll_wait = λ fd evs n millis w. ((one, found), w);
}

abbrev places : List Event
places = record { events = 5; cookie = 5 } ∷ record { events = 6; cookie = 6 } ∷ []

timed_poll_cases_example :
    (pos 1 ≡ minus_one)
      × (timed_poll one_ready (holder (pos 3)) (pos 10) (places, tt) ≡ (
        thrown (
            failure plain_sys "epoll_wait(getInt(), evs.data(), MaxSize, millis)" one
              (at 58 "TimedPoll" "sex/util/event_poller.hpp")),
        (places, tt),
      ))
    ⊎ ((timed_poll one_ready (holder (pos 3)) (pos 10) (places, tt)).0 ≡ done 1)
      × (get_elem? (timed_poll one_ready (holder (pos 3)) (pos 10) (places, tt)).1.0 1
          ≡ (if ltb 1 1 then event_of (get_elem? found 1) else get_elem? places 1))
unfolding size count
timed_poll_cases_example =
    timed_poll_cases one_ready (holder (pos 3)) (pos 10) places tt 1 1 (inr refl) (omega arith)
      (omega arith)

-- An epoll instance whose interest list is the world.
abbrev refused : Reply
refused = record { value = minus_one; errno = 17 }

abbrev answered : Interest → Option Interest → Reply × Interest
answered m none = (refused, m)
answered m (some m') = (fine, m')

abbrev list_poller : PollCalls Interest
list_poller = record {
  sys = record {
    format = λ f args. f;
    strerror = λ n. "";
    error_text = λ n. "";
    close = λ fd w. (fine, w);
  };
  epoll_create1 = λ flags w. (fine, w);
  epoll_ctl = λ fd op target v w. answered w (ctl_spec op target v w);
  epoll_wait = λ fd evs n millis w. ((fine, evs), w);
}

answered-succeeds :
    (m : Interest) (o : Option Interest)
    → (answered m o).0.value ≢ minus_one
    → o ≡ some (answered m o).1
answered-succeeds m none h = absurd (h refl)
answered-succeeds m (some m') h = refl

answered-fails :
    (m : Interest) (o : Option Interest) → (answered m o).0.value ≡ minus_one → (answered m o).1 ≡ m
answered-fails m none h = refl
answered-fails m (some m') h = ground arith

abbrev list_watching : Watching list_poller (holder (pos 3))
list_watching = record {
  watched = λ w. w;
  succeeds = λ op fd v w h. answered-succeeds w (ctl_spec op fd v w) h;
  fails = λ op fd v w h. answered-fails w (ctl_spec op fd v w) h;
}

abbrev nothing_watched : Interest
nothing_watched fd = none

abbrev file : FileDescriptor
file = record { number = pos 5 }

abbrev some_calls : List Call
some_calls = adding file 70 in_mask ∷ updating file 80 out_mask ∷ adding file 90 in_mask ∷ []

-- The third call names a descriptor that is in the list.
call_all_cases_example :
    let (r, w') = call_all list_poller (holder (pos 3)) some_calls nothing_watched in
    (r ≡ done tt) × (calls_spec some_calls nothing_watched ≡ some w')
    ⊎ ((before : List Call) × (c : Call) × (after : List Call) × (some_calls ≡ before ++ c ∷ after)
        × Throws r
        × (calls_spec before nothing_watched ≡ some w'))
call_all_cases_example =
    call_all_cases list_poller (holder (pos 3)) list_watching some_calls nothing_watched
