-- ===== src/Gaps/Tests.antt =====
-- Message streams, and the theorems at them.
use kalshi_trading_project.Prelude.{ℕ, ◌+◌, ◌≤◌, ◌≡◌, refl, none, some, Option, List, [], ◌∷◌}
use kalshi_trading_project.Prelude.Eq.{nat_eq}
use kalshi_trading_project.Prelude.Dict.{lookup, put}
use kalshi_trading_project.Gaps.{GapTracker, gap, observe, gaps, duplicates, messages}
use kalshi_trading_project.Gaps.Counters.{Call, observes, resets, run, gaps-duplicates-le-messages}

-- In order, a skip of two, a duplicate, and an unsequenced message, with another subscription between.
abbrev stream : List (ℕ × Option ℕ)
stream = (1, some 11) ∷ (2, some 90) ∷ (1, some 14) ∷ (1, some 14) ∷ (1, none) ∷ []

abbrev begun : GapTracker
begun = (observe 1 (some 10) []).1

stream_gap : (observe 1 (some 14) (observe 1 (some 11) begun).1).0 ≡ gap 12 14
unfolding observe lookup put
stream_gap = refl

abbrev calls : List Call
calls = observes 1 (some 10) ∷ observes 1 (some 14) ∷ observes 1 (some 14) ∷ resets 1 ∷ []

gaps-duplicates-le-messages_example :
    gaps 1 (run [] calls) + duplicates 1 (run [] calls) ≤ messages 1 (run [] calls)
gaps-duplicates-le-messages_example = gaps-duplicates-le-messages calls 1
