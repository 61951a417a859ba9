-- ===== src/RateLimit/Tests.antt =====
-- A token with two requests per minute, in seconds.
use flycanon.Prelude.{ℕ, ◌≤◌, String, ◌≡◌, refl, some, List, [], ◌∷◌, inl, inr, arith}
use flycanon.RateLimit.{append, prune, try_take, consume, Request, accepted}
use flycanon.RateLimit.Window.{in_window, window-limit}

abbrev at_time : String → ℕ → Request
at_time token_id now = record { token_id = token_id; limit_per_minute = some 2; now = now }

abbrev requests : List Request
requests = at_time "a" 0 ∷ at_time "a" 10 ∷ at_time "b" 11 ∷ at_time "a" 20 ∷ at_time "a" 61 ∷ []

-- The third request of the token is refused, and the one after the first minute is not.
times : accepted 60 "a" requests (λ k. []) [] ≡ 61 ∷ 10 ∷ 0 ∷ []
unfolding accepted consume try_take prune append
times = refl

window-limit_example : in_window 60 0 (accepted 60 "a" requests (λ k. []) []) ≤ 2
window-limit_example =
    window-limit 60 2 0 "a" requests (omega arith) (omega arith)
      (omega arith, (omega arith, (omega arith, (omega arith, (omega arith, tt)))))
      (inr refl, (inr refl, (inl refl, (inr refl, (inr refl, tt)))))
