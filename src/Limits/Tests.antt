-- ===== src/Limits/Tests.antt =====
-- A limiter of two requests in ten ticks of internal/platform/ratelimit.
use chirpy.Prelude.{ℕ, ◌≡◌, refl, none, [], ◌∷◌, List, arith}
use chirpy.Limits.Memory.{Memory, allow_all}
use chirpy.Limits.Windows.{plain_all, allow_all-plain_all}

abbrev two_in_ten : Memory
two_in_ten = record { windows = λ k. none; limit = 2; period = 10; last_scan = 0 }

abbrev requests : List (ℕ × ℕ)
requests = (7, 100) ∷ (7, 105) ∷ (8, 106) ∷ (7, 109) ∷ (7, 120) ∷ []

allow_all-plain_all_example : allow_all two_in_ten requests ≡ plain_all two_in_ten requests
allow_all-plain_all_example =
    allow_all-plain_all two_in_ten two_in_ten 100 requests (omega arith)
      (refl, refl, λ k later le. refl)
