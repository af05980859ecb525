-- ===== src/Pipe/Tests.antt =====
-- A pipe whose content is the world: a write appends, and a read takes what fits the object.
use sex.Common.{Bool, false, ◌||◌}
use sex.Common.Int.{ℤ, ◌==ℤ◌}
use sex.Runtime.{Throws}
use sex.Fd.Tests.{table_sys, table_closing, two_open}
use sex.Pipe.{Pipe, destroy_pipe}
use sex.Pipe.Descriptors.{Piping, pipe_lifetime}
use sex.Common.{ℕ, if◌then◌else◌, List, [], ◌∷◌, ◌++◌, ◌≡◌, ◌≢◌, ◌⊎◌, refl, ap, ◌∙◌, arith}
use sex.Common.Int.{pos, minus_one}
use sex.Runtime.{done, Sys, Reply}
use sex.Result.{ok}
use sex.Fd.{holder}
use sex.Pipe.{PipeCalls, DataTransfer, pipe_nonblocking, make_pipe, send, receive}
use sex.Pipe.Transfer.{SameLength, Queue, send-receive}

abbrev list_sys : Sys (List ℕ)
list_sys = record {
  format = λ f args. f;
  strerror = λ n. "";
  error_text = λ n. "";
  close = λ fd w. (record { value = pos 0; errno = 0 }, w);
}

abbrev fine : Reply
fine = record { value = pos 1; errno = 0 }

-- What is read into a variable, and what stays in the pipe.
taken : List ℕ → List ℕ → List ℕ
taken [] w = []
taken (x ∷ ret) [] = x ∷ ret
taken (x ∷ ret) (y ∷ w) = y ∷ taken ret w

left_over : List ℕ → List ℕ → List ℕ
left_over [] w = w
left_over (x ∷ ret) [] = []
left_over (x ∷ ret) (y ∷ w) = left_over ret w

-- read answers as given.
abbrev queue : Reply → PipeCalls (List ℕ)
queue reply = record {
  sys = list_sys;
  pipe2 = λ flags w. ((fine, pos 3, pos 4), w);
  write = λ fd v w. (fine, w ++ v);
  read = λ fd ret w. ((reply, taken ret w), left_over ret w);
}

abbrev transfer : DataTransfer
transfer = record { pipe = record { input = holder (pos 4); output = holder (pos 3) } }

taken_first : (ret v rest : List ℕ) → SameLength ret v → taken ret (v ++ rest) ≡ v
unfolding taken
taken_first [] [] rest h = refl
taken_first (x ∷ ret) (y ∷ v) rest h = ap (λ l. y ∷ l) (taken_first ret v rest h)
taken_first [] (y ∷ v) rest h = elim h [ ]
taken_first (x ∷ ret) [] rest h = elim h [ ]

left_over_rest : (ret v rest : List ℕ) → SameLength ret v → left_over ret (v ++ rest) ≡ rest
unfolding left_over
left_over_rest [] [] rest h = refl
left_over_rest (x ∷ ret) (y ∷ v) rest h = left_over_rest ret v rest h
left_over_rest [] (y ∷ v) rest h = elim h [ ]
left_over_rest (x ∷ ret) [] rest h = elim h [ ]

abbrev queue_queue : Queue (queue fine) transfer
queue_queue = record {
  content = λ w. w;
  write_appends = λ w v h. refl;
  read_takes = λ w ret v rest e same h. (
    ap (taken ret) e ∙ taken_first ret v rest same,
    ap (left_over ret) e ∙ left_over_rest ret v rest same,
  );
}

abbrev three : List ℕ
three = 7 ∷ 8 ∷ 9 ∷ []

abbrev garbage : List ℕ
garbage = 1 ∷ 2 ∷ []

abbrev pair : List ℕ
pair = 5 ∷ 6 ∷ []

send-receive_example :
    (send (queue fine) transfer three pair ≡ (done (ok tt), 5 ∷ 6 ∷ three))
    × ((receive (queue fine) transfer garbage (5 ∷ 6 ∷ three)).0 ≡ done (ok pair))
    × ((receive (queue fine) transfer garbage (5 ∷ 6 ∷ three)).1 ≡ three)
send-receive_example =
    send-receive (queue fine) transfer queue_queue pair pair three pair three garbage refl
      (λ e. ground arith) refl tt (λ e. ground arith)

-- A process whose pipe2 gives the descriptors 5 and 6, unless one is open.
abbrev table_pipe2 : ℕ → (ℤ → Bool) → (Reply × ℤ × ℤ) × (ℤ → Bool)
table_pipe2 flags w =
    if w (pos 5) || w (pos 6)
    then ((record { value = minus_one; errno = 24 }, pos 0, pos 0), w)
    else (
      (record { value = pos 0; errno = 0 }, pos 5, pos 6),
      λ n. (w n || pos 5 ==ℤ n) || pos 6 ==ℤ n,
    )

abbrev table_pipes : PipeCalls (ℤ → Bool)
table_pipes = record {
  sys = table_sys;
  pipe2 = table_pipe2;
  write = λ fd v w. (record { value = minus_one; errno = 32 }, w);
  read = λ fd ret w. ((record { value = minus_one; errno = 32 }, ret), w);
}

two_opened :
    (w : ℤ → Bool) (n : ℤ)
    → let ((reply, reading, writing), w') = table_pipe2 0 w in
      reply.value ≢ minus_one
      → (reading ≢ minus_one)
        × (writing ≢ minus_one)
        × (reading ≢ writing)
        × (w reading ≡ false)
        × (w writing ≡ false)
        × (w' n ≡ ((w n || reading ==ℤ n) || writing ==ℤ n))
two_opened w n h = ground arith

none_opened :
    (w : ℤ → Bool) (n : ℤ) → (table_pipe2 0 w).0.0.value ≡ minus_one → (table_pipe2 0 w).1 n ≡ w n
none_opened w n h = ground arith

abbrev table_piping : Piping table_pipes table_closing
table_piping = record {
  two_new = λ flags w n h. two_opened w n h;
  none_new = λ flags w n h. none_opened w n h;
}

pipe_lifetime_example :
    ((p : Pipe) × (w' : ℤ → Bool) × (make_pipe table_pipes pipe_nonblocking two_open ≡ (done p, w'))
      × ((two_open p.input.fd.number ≡ false)
          × (two_open p.output.fd.number ≡ false)
          × (p.output.fd.number ≢ p.input.fd.number)
          × ((destroy_pipe table_pipes (p, w')).0 ≡ done tt)
          × ((destroy_pipe table_pipes (p, w')).1.1 (pos 5) ≡ false)))
    ⊎ Throws (make_pipe table_pipes pipe_nonblocking two_open).0
      × ((make_pipe table_pipes pipe_nonblocking two_open).1 (pos 5) ≡ false)
pipe_lifetime_example =
    pipe_lifetime table_pipes table_closing table_piping pipe_nonblocking two_open (pos 5)
      (λ e. ground arith)
