-- ===== src/Pipe/Transfer.antt =====
-- What goes into a pipe comes out of it (sex/util/pipe.cpp, sex/util/data_transfer.hpp).
use sex.Common.{
  ℕ, String, List, [], ◌∷◌, ◌++◌, ◌==◌, not, if◌then◌else◌, ◌≡◌, ◌≢◌, ◌⊎◌, inl, inr, ap, ◌∙◌, arith,
  bit_xor, Bool-cases,
}
use sex.Common.Int.{pos, minus_one, ◌==ℤ◌, ==ℤ→eq, ==ℤ→ne, ==ℤ_ne}
use sex.Common.Bits.{test_bit, test_bit-flip}
use sex.Runtime.{done, thrown, at}
use sex.Result.{ok, failure}
use sex.Fd.{holder, get_int}
use sex.Pipe.{
  PipeCalls, pipe_cloexec_bit, pipe_no_close_on_exec, DataTransfer, make_pipe, send, receive,
}

abbrev pub pipe_text : String
pipe_text = "pipe2(fd.data(), static_cast<int>(flags) ^ O_CLOEXEC)"

module _ {W : Type 0} (k : PipeCalls W) (flags : ℕ) (w : W) where
  open k use {sys, pipe2}

  -- `MakePipe` calls pipe2 with the caller's flags in which the close-on-exec bit is turned round
  -- and no other; it throws if that fails, and otherwise `out` owns the first descriptor that was
  -- stored, the reading end, and `in` the second, the writing end.
  pub make_pipe_cases :
      (f : ℕ) × ((j : ℕ)
        → test_bit f j
          ≡ (if pipe_cloexec_bit == j then not (test_bit flags j) else test_bit flags j))
      × let ((reply, reading, writing), w') = pipe2 f w in
        ((reply.value ≢ minus_one)
            × (make_pipe k flags w
                ≡ (done (record { input = holder writing; output = holder reading }), w'))
          ⊎ (reply.value ≡ minus_one)
            × (make_pipe k flags w ≡ (
              thrown (failure sys pipe_text reply (at 10 "MakePipe" "sex/util/pipe.cpp")),
              w',
            )))
  unfolding make_pipe
  make_pipe_cases =
      let f = bit_xor flags pipe_no_close_on_exec in
      (
        f,
        test_bit-flip flags pipe_cloexec_bit,
        elim (Bool-cases ((pipe2 f w).0.0.value ==ℤ minus_one)) [
          | inl e ↦ inr (==ℤ→eq _ _ e, ground arith)
          | inr e ↦ inl (==ℤ→ne _ _ e, ground arith)
        ],
      )

abbrev pub SameLength : List ℕ → List ℕ → Type 0
SameLength [] [] = Unit
SameLength (x ∷ xs) (y ∷ ys) = SameLength xs ys
SameLength _ _ = ⊥

-- What is documented of the two ends of a pipe, for objects that are written at once: a write
-- that succeeds appends the bytes, and a read that succeeds takes, where the pipe begins with as
-- many bytes as the object has, just these.
pub record Queue {W : Type 0} (k : PipeCalls W) (d : DataTransfer) : Type 0 where
  pub content : W → List ℕ
  pub write_appends :
      (w : W) (v : List ℕ)
      → (k.write (get_int d.pipe.input.fd) v w).0.value ≢ minus_one
      → content (k.write (get_int d.pipe.input.fd) v w).1 ≡ content w ++ v
  pub read_takes :
      (w : W) (ret v rest : List ℕ)
      → content w ≡ v ++ rest
      → SameLength ret v
      → (k.read (get_int d.pipe.output.fd) ret w).0.0.value ≢ minus_one
      → ((k.read (get_int d.pipe.output.fd) ret w).0.1 ≡ v)
        × (content (k.read (get_int d.pipe.output.fd) ret w).1 ≡ rest)

module _ {W : Type 0} (k : PipeCalls W) (d : DataTransfer) (q : Queue k d) (w : W) where
  open k use {sys, write, read}
  open q use {content}

  -- If the pipe keeps what is written in its order: `send` on a pipe with some content adds the
  -- value behind it and returns Ok if write succeeds; and `receive` of a value of the length of the
  -- first one in the pipe returns that value and takes it away, if read succeeds, whatever the
  -- variable held before. In particular what is sent through an empty pipe is received.
  pub send-receive :
      (pending v first rest ret : List ℕ)
      → content w ≡ pending
      → (write (get_int d.pipe.input.fd) v w).0.value ≢ minus_one
      → pending ++ v ≡ first ++ rest
      → SameLength ret first
      → let w' = (write (get_int d.pipe.input.fd) v w).1 in
        (read (get_int d.pipe.output.fd) ret w').0.0.value ≢ minus_one
        → (send k d v w ≡ (done (ok tt), w'))
          × ((receive k d ret w').0 ≡ done (ok first))
          × (content (receive k d ret w').1 ≡ rest)
  unfolding send receive
  send-receive pending v first rest ret c sent parts same received =
      let w' = (write (get_int d.pipe.input.fd) v w).1 in
      let after : content w' ≡ first ++ rest =
        q.write_appends w v sent ∙ ap (λ l. l ++ v) c ∙ parts in
      let taken = q.read_takes w' ret first rest after same received in
      (
        ground (arith, ==ℤ_ne _ _ sent),
        ground (arith, ==ℤ_ne _ _ received, taken.0),
        ground (arith, ==ℤ_ne _ _ received, taken.1),
      )

module _ {W : Type 0} (k : PipeCalls W) (d : DataTransfer) (w : W) where
  open k use {read}

  -- If read reports the end of the pipe (it returns 0 and leaves the variable as it was), `receive`
  -- returns Ok of whatever the variable `ret` held, which nothing has initialised.
  pub receive_at_end :
      (ret : List ℕ)
      → (read (get_int d.pipe.output.fd) ret w).0.0.value ≡ pos 0
      → (read (get_int d.pipe.output.fd) ret w).0.1 ≡ ret
      → (receive k d ret w).0 ≡ done (ok ret)
  unfolding receive
  receive_at_end ret z same = ground arith
