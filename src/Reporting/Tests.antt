-- ===== src/Reporting/Tests.antt =====
-- A run of two seconds with traffic and one without.
use trading_latency_benchmar.Prelude.{ℕ, List, [], ◌∷◌}

abbrev seconds : List (ℕ × ℕ)
seconds = (5, 3) ∷ (5, 3) ∷ (9, 3) ∷ []
