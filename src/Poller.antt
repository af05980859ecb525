-- ===== src/Poller.antt =====
-- sex/util/event_poller.hpp: EventPoller, an epoll instance.
pub mod Interest
pub mod Poll
mod Tests
use sex.Common.{ℕ, zero, suc, String, ◌^◌, List, [], ◌∷◌, map, bit_xor}
use sex.Common.Int.{ℤ, pos, negsuc}
use sex.Runtime.{Outcome, done, Action, Method, Reply, Syscall, Sys, pure, ◌>>=◌, ◌>>◌, at}
use sex.Result.{sex_syscall, syscall_result, unwrap, ensure}
use sex.Fd.{FileDescriptor, FdHolder, holder, get_int}
use sex.ExecuteArgs.{to_u64}

-- EventPoller::Event, with a cookie by its address, and epoll_event, with the same two.
pub record Event : Type 0 where
  pub events : ℕ
  pub cookie : ℕ

pub record EpollEvent : Type 0 where
  pub mask : ℕ
  pub data_ptr : ℕ

-- EventPoller::Flags
abbrev pub epoll_cloexec_bit : ℕ
epoll_cloexec_bit = 19

abbrev pub epoll_no_close_on_exec : ℕ
epoll_no_close_on_exec = 2 ^ epoll_cloexec_bit

-- EventPoller::EventMask
abbrev pub empty_mask : ℕ
empty_mask = 0

abbrev pub in_mask : ℕ
in_mask = 2 ^ 0

abbrev pub out_mask : ℕ
out_mask = 2 ^ 2

-- EPOLL_CTL_ADD, EPOLL_CTL_MOD and EPOLL_CTL_DEL
pub data EpollOp : Type 0 where
  ctl_add ctl_mod ctl_del : EpollOp

-- The system calls; epoll_wait with the buffer of events before and after, its size and the
-- milliseconds.
pub record PollCalls (W : Type 0) : Type 0 where
  pub sys : Sys W
  pub epoll_create1 : ℕ → Syscall W
  pub epoll_ctl : ℤ → EpollOp → ℤ → EpollEvent → Syscall W
  pub epoll_wait : ℤ → List EpollEvent → ℕ → ℤ → W → (Reply × List EpollEvent) × W

abbrev poller_hpp : String
poller_hpp = "sex/util/event_poller.hpp"

-- EventPoller is an FdHolder with more methods.
abbrev pub EventPoller : Type 0
EventPoller = FdHolder

-- CreateEpollEvent
abbrev create_epoll_event : ℕ → ℕ → EpollEvent
create_epoll_event cookie flags = record { mask = flags; data_ptr = cookie }

-- `events.size()`
pub size : List Event → ℕ
size [] = 0
size (e ∷ es) = suc (size es)

-- `std::vector<epoll_event> evs(MaxSize)`
abbrev pub empty_events : List Event → List EpollEvent
empty_events es = map (λ _. record { mask = 0; data_ptr = 0 }) es

-- The loop of TimedPoll: `events` after its first `polled` places are set from `evs`. Past the end
-- of either the program has no meaning, and nothing is set.
pub copy_events : ℕ → List EpollEvent → List Event → List Event
copy_events zero evs es = es
copy_events (suc n) [] es = es
copy_events (suc n) (v ∷ evs) [] = []
copy_events (suc n) (v ∷ evs) (e ∷ es) =
    record { events = v.mask; cookie = v.data_ptr } ∷ copy_events n evs es

module _ {W : Type 0} (k : PollCalls W) where
  open k use {sys, epoll_create1, epoll_ctl, epoll_wait}

  -- EventPoller(Flags)
  pub create_poller : ℕ → Action W EventPoller
  unfolding sex_syscall unwrap
  create_poller flags = do
    r ←
        sex_syscall sys "epoll_create1(flags ^ NO_CLOSE_ON_EXEC)"
          (epoll_create1 (bit_xor flags epoll_no_close_on_exec)) (at 40 "EventPoller" poller_hpp)
    fd ← unwrap r
    pure (holder fd)

  -- EpollCtl
  ctl : EventPoller → FileDescriptor → ℕ → ℕ → EpollOp → Action W (Unit {0})
  unfolding sex_syscall ensure
  ctl p fd cookie events op = do
    r ←
        sex_syscall sys "epoll_ctl(getInt(), op, int(fd), &event)"
          (epoll_ctl (get_int p.fd) op (get_int fd) (create_epoll_event cookie events))
          (at 77 "EpollCtl" poller_hpp)
    ensure r

  -- Add, Update and Remove
  unfoldable pub add : EventPoller → FileDescriptor → ℕ → ℕ → Action W (Unit {0})
  unfolding ctl
  add p fd cookie events = ctl p fd cookie events ctl_add

  unfoldable pub update_events : EventPoller → FileDescriptor → ℕ → ℕ → Action W (Unit {0})
  unfolding ctl
  update_events p fd cookie events = ctl p fd cookie events ctl_mod

  unfoldable pub remove : EventPoller → FileDescriptor → Action W (Unit {0})
  unfolding ctl
  remove p fd = ctl p fd 0 empty_mask ctl_del

  -- TimedPoll, on the span of events that the caller passes.
  pub timed_poll : EventPoller → ℤ → Method (List Event) W ℕ
  unfolding syscall_result unwrap
  timed_poll p millis (es, w) =
      let ((reply, evs), w') = epoll_wait (get_int p.fd) (empty_events es) (size es) millis w in
      (unwrap (
            syscall_result sys "epoll_wait(getInt(), evs.data(), MaxSize, millis)" reply
              (at 58 "TimedPoll" poller_hpp))
          >>= λ value (s : List Event × W).
              (done (to_u64 value), (copy_events (to_u64 value) evs s.0, s.1)))
        (es, w')

  -- Poll and PollNoWait
  unfoldable poll : EventPoller → Method (List Event) W ℕ
  unfolding timed_poll
  poll p = timed_poll p (negsuc 0)

  unfoldable poll_no_wait : EventPoller → Method (List Event) W ℕ
  unfolding timed_poll
  poll_no_wait p = timed_poll p (pos 0)
