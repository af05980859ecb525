-- ===== src/Result/Tests.antt =====
-- Results that are chained.
use sex.Common.{ℕ, ◌+◌, ◌≡◌, refl}
use sex.Runtime.{standard, done, thrown, Action, pure, ◌>>=◌}
use sex.Result.{Result, ok, error, then_value, and_then, gives_result, nested}
use sex.Result.Laws.{and_then_nests}
use sex.Process.Tests.{plain_sys}

-- A callable that counts its calls in the state.
abbrev counted : ℕ → Action ℕ ℕ
counted a n = (done (a + 1), n + 1)

abbrev throwing : ℕ → Action ℕ ℕ
throwing a n = (thrown (standard "no"), n + 1)

abbrev failing : ℕ → Action ℕ (Result ℕ)
failing a = pure (error (standard "no"))

two_calls :
    (then_value plain_sys counted (ok 3) >>= then_value plain_sys throwing) 0
    ≡ (thrown (standard "no"), 2)
unfolding then_value
two_calls = refl

and_then_nests_example :
    and_then plain_sys "int" (gives_result failing) (ok 3) 0
    ≡ (done (nested (ok (error (standard "no")))), 0)
and_then_nests_example = and_then_nests plain_sys "int" failing 3 (standard "no") 0 0 refl
