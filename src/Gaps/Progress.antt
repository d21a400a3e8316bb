-- ===== src/Gaps/Progress.antt =====
-- The baseline of a subscription: it moves only forward, and by exactly what the verdicts say.
use kalshi_trading_project.Prelude.{
  ℕ, ◌+◌, ◌-◌, Option, none, some, List, [], ◌∷◌, ◌==◌, if◌then◌else◌,
}
use kalshi_trading_project.Prelude.Eq.{nat_eq}
use kalshi_trading_project.Gaps.{
  GapTracker, GapVerdict, ok_message, first_message, gap, duplicate, observe,
}

-- How far one verdict on a sequenced message moves the baseline: the message, and what was skipped.
abbrev pub advance : Option ℕ → GapVerdict → ℕ
advance none v = 0
advance (some seq) ok_message = 1
advance (some seq) first_message = 0
advance (some seq) (gap expected got) = 1 + (got - expected)
advance (some seq) (duplicate expected got) = 0

-- The advances of one subscription's messages among all messages.
unfoldable pub progress : ℕ → List (ℕ × Option ℕ) → GapTracker → ℕ
progress sid [] tr = 0
progress sid ((sid', seq) ∷ ms) tr =
    (if sid' == sid then advance seq (observe sid' seq tr).0 else 0)
    + progress sid ms (observe sid' seq tr).1

unfoldable pub observe_all : List (ℕ × Option ℕ) → GapTracker → GapTracker
observe_all [] tr = tr
observe_all ((sid, seq) ∷ ms) tr = observe_all ms (observe sid seq tr).1
