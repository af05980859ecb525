-- ===== src/Pipe.antt =====
-- sex/util/pipe.{hpp,cpp}: pipes, and sex/util/data_transfer.hpp: values sent through one.
pub mod Descriptors
pub mod Transfer
mod Tests
use sex.Common.{ℕ, String, ◌^◌, List, bit_xor}
use sex.Common.Int.{ℤ}
use sex.Runtime.{Outcome, done, Action, Method, Reply, Sys, pure, ◌>>=◌, ◌>>◌, at}
use sex.Result.{Result, syscall_result, ensure, then_value}
use sex.Fd.{FdHolder, holder, get_int}
use sex.Fd

-- Pipe
pub record Pipe : Type 0 where
  pub input : FdHolder
  pub output : FdHolder

-- Pipe::Flags
abbrev pub pipe_nonblocking : ℕ
pipe_nonblocking = 2 ^ 11

abbrev pub pipe_cloexec_bit : ℕ
pipe_cloexec_bit = 19

abbrev pub pipe_no_close_on_exec : ℕ
pipe_no_close_on_exec = 2 ^ pipe_cloexec_bit

-- The system calls: pipe2 with the two numbers that it stores; write of the bytes of an object;
-- and read into the bytes of an object, before and after.
pub record PipeCalls (W : Type 0) : Type 0 where
  pub sys : Sys W
  pub pipe2 : ℕ → W → (Reply × ℤ × ℤ) × W
  pub write : ℤ → List ℕ → W → Reply × W
  pub read : ℤ → List ℕ → W → (Reply × List ℕ) × W

-- DataTransfer
pub record DataTransfer : Type 0 where
  pub pipe : Pipe

module _ {W : Type 0} (k : PipeCalls W) where
  open k use {sys, pipe2, write, read}

  -- MakePipe
  pub make_pipe : ℕ → Action W Pipe
  unfolding syscall_result ensure
  make_pipe flags w =
      let ((reply, fd0, fd1), w') = pipe2 (bit_xor flags pipe_no_close_on_exec) w in
      (ensure (
            syscall_result sys "pipe2(fd.data(), static_cast<int>(flags) ^ O_CLOEXEC)" reply
              (at 10 "MakePipe" "sex/util/pipe.cpp"))
          >> pure (record { input = holder fd1; output = holder fd0 }))
        w'

  -- ~Pipe, which the compiler writes: the members are destroyed from the last to the first.
  on_output : Method FdHolder W (Unit {0}) → Method Pipe W (Unit {0})
  on_output m (p, w) = let (r, (h, w')) = m (p.output, w) in (r, (record p { output = h }, w'))

  on_input : Method FdHolder W (Unit {0}) → Method Pipe W (Unit {0})
  on_input m (p, w) = let (r, (h, w')) = m (p.input, w) in (r, (record p { input = h }, w'))

  pub destroy_pipe : Method Pipe W (Unit {0})
  unfolding on_output on_input
  destroy_pipe = do on_output (Fd.destroy sys); on_input (Fd.destroy sys)

  -- DataTransfer()
  unfoldable data_transfer : Action W DataTransfer
  unfolding make_pipe
  data_transfer = do p ← make_pipe 0; pure (record { pipe = p })

  -- DataTransfer::send, of the bytes of `v`.
  pub send : DataTransfer → List ℕ → Action W (Result (Unit {0}))
  unfolding syscall_result then_value
  send d v w =
      let (reply, w') = write (get_int d.pipe.input.fd) v w in
      then_value sys (λ _. pure tt)
        (syscall_result sys "write(pipe_.in.getInt(), &v, sizeof(v))" reply
          (at 17 "send" "sex/util/data_transfer.hpp"))
        w'

  -- DataTransfer::receive, with the bytes that the variable `ret` has before it is set.
  pub receive : DataTransfer → List ℕ → Action W (Result (List ℕ))
  unfolding syscall_result then_value
  receive d ret w =
      let ((reply, ret'), w') = read (get_int d.pipe.output.fd) ret w in
      then_value sys (λ _. pure ret')
        (syscall_result sys "read(pipe_.out.getInt(), &ret, sizeof(ret))" reply
          (at 23 "receive" "sex/util/data_transfer.hpp"))
        w'
