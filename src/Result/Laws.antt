-- ===== src/Result/Laws.antt =====
-- What `then` and SEX_SYSCALL promise (sex/util/result.hpp, sex/util/syscall.hpp).
use mathlib.Core.Path.{fun_ext}
use sex.Common.{String, ◌≡◌, refl, ◌≢◌, ◌⊎◌, inl, inr, arith, Bool-cases}
use sex.Common.Int.{minus_one, ◌==ℤ◌, ==ℤ→eq, ==ℤ→ne}
use sex.Runtime.{Exception, done, thrown, Action, ◌>>=◌, SourceLocation, Syscall, Sys}
use sex.Result.{
  Result, ok, error, unwrap, then_value, and_then, gives_result, nested, sex_syscall, failure,
}

module _ {W : Type 0} (sys : Sys W) {S A B C : Type 0} where
  -- For callables that return plain values: two calls of `then` in a row do what one call with
  -- both callables in a row does, errors, exceptions and changes of state included.
  pub then_value_comp :
      (f : A → Action S B) (g : B → Action S C) (r : Result A)
      → (then_value sys f r >>= then_value sys g) ≡ then_value sys (λ a. f a >>= g) r
  unfolding then_value
  then_value_comp f g (ok a) = fun_ext λ s. ground arith
  then_value_comp f g (error e) = refl

module _ {W : Type 0} (sys : Sys W) {S A B : Type 0} where
  -- `then` on a value with a callable that returns an error Result, and does not throw, returns Ok
  -- of that Result: the error is nested inside, and not handed on as the comment `>>=` promises.
  pub and_then_nests :
      (b : String) (f : A → Action S (Result B)) (a : A) (e : Exception) (s s' : S)
      → f a s ≡ (done (error e), s')
      → and_then sys b (gives_result f) (ok a) s ≡ (done (nested (ok (error e))), s')
  unfolding and_then
  and_then_nests b f a e s s' h = ground arith

module _ {W : Type 0} (sys : Sys W) (text : String) (call : Syscall W) (loc : SourceLocation) where
  -- `SEX_SYSCALL(call).unwrap()` makes the call once; it returns its value if that is not -1, and
  -- otherwise throws the ErrorMessageSyscallError of its errno, its text and its place.
  pub sex_syscall-unwrap :
      (w : W)
      → let (reply, w') = call w in
        let (r, w'') = (sex_syscall sys text call loc >>= unwrap) w in
        (w'' ≡ w')
        × (((reply.value ≢ minus_one) × (r ≡ done reply.value))
            ⊎ (reply.value ≡ minus_one) × (r ≡ thrown (failure sys text reply loc)))
  unfolding sex_syscall unwrap
  sex_syscall-unwrap w = elim (Bool-cases ((call w).0.value ==ℤ minus_one)) [
    | inl failed ↦ (ground arith, inr (==ℤ→eq _ _ failed, ground arith))
    | inr fine ↦ (ground arith, inl (==ℤ→ne _ _ fine, ground arith))
  ]
