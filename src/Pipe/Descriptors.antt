-- ===== src/Pipe/Descriptors.antt =====
-- A pipe and the set of open descriptors (sex/util/pipe.cpp).
use sex.Common.{
  ℕ, true, false, not, ◌&&◌, ◌||◌, bit_xor, ◌≡◌, ◌≢◌, ◌⊎◌, inl, inr, ◌∙◌, arith, Bool-cases,
}
use sex.Common.Int.{ℤ, minus_one, ◌==ℤ◌, ==ℤ→eq, ==ℤ→ne, ==ℤ_ne, ==ℤ_self}
use sex.Runtime.{Reply, done, Throws}
use sex.Fd.{holder}
use sex.Fd.Ownership.{Closing}
use sex.Fd.Ownership.Steps.{after_close, opened-after_close, destroy_lem}
use sex.Pipe.{pipe_no_close_on_exec, Pipe, PipeCalls, make_pipe, destroy_pipe}

-- What is documented of pipe2: where it succeeds it opens two descriptors that were not open, and
-- no other; where it fails it opens none.
pub record Piping {W : Type 0} (k : PipeCalls W) (c : Closing k.sys) : Type 0 where
  pub two_new :
      (flags : ℕ) (w : W) (n : ℤ)
      → let ((reply, reading, writing), w') = k.pipe2 flags w in
        reply.value ≢ minus_one
        → (reading ≢ minus_one)
          × (writing ≢ minus_one)
          × (reading ≢ writing)
          × (c.opened w reading ≡ false)
          × (c.opened w writing ≡ false)
          × (c.opened w' n ≡ ((c.opened w n || reading ==ℤ n) || writing ==ℤ n))
  pub none_new :
      (flags : ℕ) (w : W) (n : ℤ)
      → let ((reply, reading, writing), w') = k.pipe2 flags w in
        reply.value ≡ minus_one → c.opened w' n ≡ c.opened w n

module _ {W : Type 0} (k : PipeCalls W) (c : Closing k.sys) where
  open k use {sys}
  open c use {opened}

  -- The destructor of a pipe with two open ends.
  destroy_pipe_lem :
      (p : Pipe) (w : W) (n : ℤ)
      → opened w p.output.fd.number ≡ true
      → opened w p.input.fd.number ≡ true
      → p.input.fd.number ≢ minus_one
      → p.output.fd.number ≢ p.input.fd.number
      → n ≢ minus_one
      → let (r, (p', w')) = destroy_pipe k (p, w) in
        (r ≡ done tt)
        × (opened w' n
            ≡ ((opened w n && not (p.output.fd.number ==ℤ n)) && not (p.input.fd.number ==ℤ n)))
  unfolding destroy_pipe
  destroy_pipe_lem p w n has has' i ne h =
      let out = p.output.fd.number in
      let inn = p.input.fd.number in
      let w₁ = after_close sys c out w in
      let still : opened w₁ inn ≡ true =
        opened-after_close sys c out inn w (inr has) i ∙ ground (arith, ==ℤ_ne out inn ne) in
      ground (
        arith,
        destroy_lem sys c p.output w (inr has),
        destroy_lem sys c p.input w₁ (inr still),
        opened-after_close sys c out n w (inr has) h,
        opened-after_close sys c inn n w₁ (inr still) h,
      )

module _ {W : Type 0} (k : PipeCalls W) (c : Closing k.sys) (q : Piping k c) (flags : ℕ) (w : W)
    (n : ℤ) where
  open k use {pipe2}
  open c use {opened}

  -- What `MakePipe` asks pipe2 for, and what it gives.
  abbrev asked : (Reply × ℤ × ℤ) × W
  asked = pipe2 (bit_xor flags pipe_no_close_on_exec) w

  abbrev made : Pipe
  made = record { input = holder asked.0.2; output = holder asked.0.1 }

  lifetime_done :
      asked.0.0.value ≢ minus_one
      → n ≢ minus_one
      → (opened w made.input.fd.number ≡ false)
        × (opened w made.output.fd.number ≡ false)
        × (made.output.fd.number ≢ made.input.fd.number)
        × ((destroy_pipe k (made, asked.1)).0 ≡ done tt)
        × (opened (destroy_pipe k (made, asked.1)).1.1 n ≡ opened w n)
  lifetime_done ok h =
      let flags' = bit_xor flags pipe_no_close_on_exec in
      let reading = asked.0.1 in
      let writing = asked.0.2 in
      let (r, i, ne, f, f', at_n) = q.two_new flags' w n ok in
      let at_r = (q.two_new flags' w reading ok).5 in
      let at_w = (q.two_new flags' w writing ok).5 in
      let out : opened asked.1 reading ≡ true = ground (arith, at_r, ==ℤ_self reading) in
      let inn : opened asked.1 writing ≡ true = ground (arith, at_w, ==ℤ_self writing) in
      let (ends, left) = destroy_pipe_lem k c made asked.1 n out inn i ne h in
      (f', f, ne, ends, left ∙ ground (arith, at_n, ==ℤ→eq reading n, ==ℤ→eq writing n, f, f'))

  -- If pipe2 opens two new descriptors where it succeeds, and close closes: `MakePipe` throws and
  -- has opened nothing; or it returns a pipe whose two ends are different and were not open, and
  -- the destructor of that pipe returns and leaves open exactly what was open before the pipe was
  -- made.
  pub pipe_lifetime :
      n ≢ minus_one
      → ((p : Pipe) × (w' : W) × (make_pipe k flags w ≡ (done p, w'))
          × ((opened w p.input.fd.number ≡ false)
              × (opened w p.output.fd.number ≡ false)
              × (p.output.fd.number ≢ p.input.fd.number)
              × ((destroy_pipe k (p, w')).0 ≡ done tt)
              × (opened (destroy_pipe k (p, w')).1.1 n ≡ opened w n)))
        ⊎ Throws (make_pipe k flags w).0 × (opened (make_pipe k flags w).1 n ≡ opened w n)
  unfolding make_pipe
  pipe_lifetime h = elim (Bool-cases (asked.0.0.value ==ℤ minus_one)) [
    | inl e ↦ inr (
      ground arith,
      ground (arith, q.none_new (bit_xor flags pipe_no_close_on_exec) w n (==ℤ→eq _ _ e)),
    )
    | inr e ↦ inl (made, asked.1, ground arith, lifetime_done (==ℤ→ne _ _ e) h)
  ]
