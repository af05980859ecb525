-- ===== src/Lib.antt =====
-- The library sex: a model of sex, the C++ library for secure execution ("Do it safely"), and the
-- theorems that hold of it. Paths below are from the repository's root.
--
-- The program. `Execute` (sex/execute.cpp) starts a routine in a new process with clone3. What the
-- process is separated from is said by `ExecuteArgs` (sex/util/execute_args.cpp), what runs around
-- the clone by `IExecuteHooks` (sex/util/execute_hooks.cpp), and what comes back is a
-- `ProcessKnob` (sex/detail/process_knob.cpp), which waits for the process and gives an
-- `ExitStatus` (sex/util/exit_status.cpp). `Container` (sex/container.cpp) is a directory to
-- change the root to, and `CgroupController` (sex/cgroup_controller.cpp) a control group with
-- limits; the first use of each makes its parent directory, through a `Once` (sex/util/once.hpp)
-- and under a file lock. Around them stand small owners of kernel resources: descriptors
-- (sex/util/fd_holder.cpp), file locks (sex/util/flock.hpp), timers (sex/util/timer_fd.hpp), pipes
-- (sex/util/pipe.cpp, sex/util/data_transfer.hpp), epoll instances (sex/util/event_poller.hpp) and
-- mounts (sex/util/mount); and limits of the process (sex/util/rlimit.hpp). All of them call the
-- kernel by SEX_SYSCALL (sex/util/syscall.hpp), which gives a `Result` (sex/util/result.hpp), and
-- test what must hold by SEX_ASSERT (sex/util/macros.hpp), which throws a `PanicException`
-- (sex/util/panic.cpp).
--
-- How code is modelled. A function is an `Action` on a world W: it takes the world and gives an
-- outcome (it returns, throws, ends the program or ends the process) and the world as it is left,
-- also when it throws. A member function that changes its object is a `Method`, with the object in
-- front of the world. Destructors and noexcept functions turn an exception into the end of the
-- program. System calls, libc, std::filesystem, streams and fmt are no code of the repository:
-- they are parameters, in a record for each part (`Sys`, `LockCalls`, `MountCalls`, ...), on a
-- world that nothing is assumed of. Where a theorem needs what the kernel documents, it says so in
-- a record of hypotheses (`Closing`, `Releasing`, `Opening`, `Piping`, `Locking`, `Queue`,
-- `Limits`, `Present`, `Watching`, `Setting`, `OnPath`, `Apart`) or among its binders. Numbers
-- are unbounded, but for the code's conversions between signed and unsigned words of 64 bits
-- (`to_i64`, `to_u64`); flags words are read bit by bit (`test_bit`), and the complement in a 64-bit
-- word is `bit_not 64`. No definition runs on fuel.
--
-- The files.
-- - Common: names of the standard library that all files use; Common/Int: the integers, with `/`
--   and `%` of C++; Common/Bits: single bits of a word.
-- - Runtime: outcomes, actions and methods, exceptions (sex/detail/exceptions), source locations
--   (sex/util/source_location.hpp) and the calls that all parts make. Errors: the texts of
--   exceptions, Panic and SEX_ASSERT. Result: Result, SyscallResult and SEX_SYSCALL; Result/Laws.
-- - Fd: FileDescriptor and FdHolder. Fd/Objects: a program of statements on several holders.
--   Fd/Ownership: who owns which descriptor; Fd/Ownership/Tables and
--   Fd/Ownership/Failing: what a statement leaves, also where close reports an error.
-- - Flock: FileLockGuard; Flock/Laws; Flock/Descriptors and Flock/Descriptors/Blocks: the lock
--   file among the open descriptors. The constants of its enum State are kept by their values,
--   since two of them are equal.
-- - ExitStatus and ExitStatus/Laws; Process: ProcessKnob; Process/Wait: the endings of a process
--   and their status words.
-- - ExecuteArgs: clone_args and the builder; ExecuteArgs/Flags and ExecuteArgs/Fields: what a
--   chain of calls sets.
-- - Hooks: IExecuteHooks as a record, and the default hooks; Hooks/Mappings.
-- - Execute: `Execute`. clone3 returns in two processes, and a run of the model is one of them, by
--   the number that the call returns there. Execute/Child and Execute/Parent are the two sides,
--   and Execute/Composed has them with the default hooks and with built arguments;
--   Execute/Sandboxed: a routine that enters a group and a container.
-- - Timer: TimerFd; Timer/Spec: durations; Timer/Calls: the system calls; Timer/Setting: what a
--   timer is set to.
-- - Mount: IMount as a record and the calls; Mount/Bind and Mount/TmpFs: its two classes;
--   Mount/Check: what is mounted; Mount/Life: one object's life; Mount/Contract: a state machine
--   for the objects behind IMount; Mount/Ledger and Mount/Ledger/Objects: a client's calls on one
--   object, and a tally of the calls of mount(2) and umount that succeed.
-- - Calls: programs of calls, which are run at once or a call at a time; Calls/Bounded counts the
--   calls.
-- - Once: a call in one thread; Once/Program: the call as a program of loads, stores and calls of
--   the mutex and the action; Once/Pool: many threads that run it, a call at a time. Once/Threads
--   is an abstract step relation for them and Once/Holder says who has its mutex;
--   Once/Pool/Simulates compares the two, and Once/Pool/Together and Once/Pool/Progress say what
--   that comes to.
-- - Flock/Scope: the parts of an initialiser under a lock (`scoped`, `checked_under_lock`).
--   Flock/Guarded: such an initialiser as a program of calls, its two checks and its actions being
--   programs that are given; Flock/Guarded/Runs compares it with the function, and
--   Flock/Guarded/Bounded counts its calls. Flock/Guarded/Pool: many processes that run the
--   program, a call at a time, with a kernel that has the lock file and answers the calls, and with
--   a state of the initialiser's own that is given. Its children: Discipline, what an initialiser
--   keeps for the lock to be enough (a record of laws that each initialiser fills); Phases and
--   Moves, where a process is in its program; Follows and Together, whole runs; Ends, the end of
--   the runs; Progress, what can wait.
-- - Container: Container and its initialiser; Container/Life and Container/Lifetime: its
--   directories; Container/Descriptors: the initialiser and the open descriptors.
--   Container/Program: the initialiser as a program of system calls, made from Flock/Guarded, and
--   Container/Program/Runs. Container/Processes: many processes in the initialiser, as an abstract
--   machine over one lock file and one directory, with Container/Processes/Together.
--   Container/Processes/Pool: many processes that run the program, with the directory as the state
--   of their own; Discipline fills the laws of Flock/Guarded/Pool; the other children compare a
--   pool with the machine: Matches says when they agree, Follows and Leaves do single calls,
--   Simulates whole runs, Together what it comes to, and Ends the end of the runs.
-- - Cgroup: the Builder and what is written to a group; Cgroup/Read: ReadFlatKeyedFile, a map
--   being a list of pairs, the last stored first; Cgroup/Control: the constructor and the other
--   members; Cgroup/Life: what a new group writes; Cgroup/CpuWindow: the limit of the CPU in the
--   Builder's words; Cgroup/Making: how the constructor ends, and what it leaves;
--   Cgroup/Stats: what getCpuUsage reads. Cgroup/Program: the making of the parent group as a
--   program of calls, made from Flock/Guarded, and Cgroup/Program/Runs. Cgroup/Pool: many processes
--   that make the parent group, and the group as they find it; Cgroup/Pool/Together and
--   Cgroup/Pool/Ends.
-- - Pipe: MakePipe, the destructor of a Pipe, and DataTransfer; Pipe/Transfer; Pipe/Descriptors.
--   Poller: EventPoller; Poller/Poll; Poller/Interest: a client's calls on one instance. RLimit:
--   SetRLimit and GetRLimit; RLimit/Laws.
-- - The Tests files hold small worlds, runs on them, and the theorems at concrete inputs.
--
-- Not modelled. sex/detail/function2 is a copy of another project, and sex/detail/routine.hpp and
-- sex/util/unique_function.hpp are aliases of it: a routine is an action that is given. The text
-- of an exception's message is what fmt::format, strerror and the like give. Memory, move
-- semantics of strings and the order of destruction of temporaries are not modelled. In Once/Pool
-- and Once/Threads the loads, the store and the mutex are sequentially consistent steps, and an
-- action does not call its own Once. In Container/Processes, Flock/Guarded/Pool and the pools of
-- Container and Cgroup each system call is a single step, any call may fail, a lock that is had by
-- a process is released where the process closes the file, flock gives a shared lock up before it
-- waits for an exclusive one, and nothing else takes TmpSbox or the parent group away. In
-- Cgroup/Pool the write of a control file is a single call. Putting a text into a std::ofstream is one call, whose answer is
-- what `good()` gives before the stream's destructor flushes it; what becomes of the flush is in the
-- world that the call leaves, and the code does not see it.
pub mod Common
pub mod Runtime
pub mod Calls
pub mod Errors
pub mod Result
pub mod Fd
pub mod Flock
pub mod ExitStatus
pub mod Process
pub mod ExecuteArgs
pub mod Hooks
pub mod Execute
pub mod Timer
pub mod Mount
pub mod Pipe
pub mod Poller
pub mod RLimit
pub mod Once
pub mod Container
pub mod Cgroup
