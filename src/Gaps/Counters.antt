-- ===== src/Gaps/Counters.antt =====
-- The counters of every subscription, over any calls.
use kalshi_trading_project.Prelude.{ℕ, ◌+◌, ◌≤◌, Option, none, some, List, [], ◌∷◌, arith}
use kalshi_trading_project.Prelude.Eq.{nat_eq}
use kalshi_trading_project.Prelude.Dict.{lookup, put, or_else}
use kalshi_trading_project.Prelude.DictLaws.{lookup-put, lookup-remove}
use kalshi_trading_project.Gaps.{
  SidState, GapTracker, new_state, classify, counted, observe, reset_state, reset, forget, state_of,
  messages, gaps, duplicates,
}

pub data Call : Type 0 where
  observes : ℕ → Option ℕ → Call
  resets forgets : ℕ → Call

unfoldable pub step : GapTracker → Call → GapTracker
unfolding observe reset forget
step tr (observes sid seq) = (observe sid seq tr).1
step tr (resets sid) = reset sid tr
step tr (forgets sid) = forget sid tr

unfoldable pub run : GapTracker → List Call → GapTracker
run tr [] = tr
run tr (c ∷ cs) = run (step tr c) cs

abbrev pub IsBalanced : GapTracker → Type 0
IsBalanced tr =
    (sid : ℕ) → (state_of sid tr).gaps + (state_of sid tr).duplicates ≤ (state_of sid tr).messages

classify-balanced :
    (seq last : Option ℕ) (s : SidState)
    → s.gaps + s.duplicates + 1 ≤ s.messages
    → (classify seq last s).1.gaps + (classify seq last s).1.duplicates
      ≤ (classify seq last s).1.messages
classify-balanced none last s h = omega arith
classify-balanced (some seq) none s h = omega arith
classify-balanced (some seq) (some last) s h = ground arith

put-IsBalanced :
    (sid : ℕ) (s : SidState) (tr : GapTracker)
    → s.gaps + s.duplicates ≤ s.messages
    → IsBalanced tr
    → IsBalanced (put sid s tr)
put-IsBalanced sid s tr h all sid' = ground (arith, lookup-put sid sid' s tr, all sid')

step-IsBalanced : (tr : GapTracker) (c : Call) → IsBalanced tr → IsBalanced (step tr c)
unfolding step
step-IsBalanced tr (observes sid seq) h =
    put-IsBalanced sid _ tr
      (classify-balanced seq _ (counted (state_of sid tr)) (omega (arith, h sid))) h
step-IsBalanced tr (resets sid) h = reset_balanced (lookup sid tr) (h sid)
  where
    reset_balanced :
        (o : Option SidState)
        → (or_else o new_state).gaps + (or_else o new_state).duplicates
          ≤ (or_else o new_state).messages
        → IsBalanced (reset_state sid o tr)
    reset_balanced none k = h
    reset_balanced (some s) k = put-IsBalanced sid (record s { last_seq = none }) tr k h
step-IsBalanced tr (forgets sid) h = λ sid'. ground (arith, lookup-remove sid sid' tr, h sid')

run-IsBalanced : (tr : GapTracker) (cs : List Call) → IsBalanced tr → IsBalanced (run tr cs)
unfolding run
run-IsBalanced tr [] h = h
run-IsBalanced tr (c ∷ cs) h = run-IsBalanced (step tr c) cs (step-IsBalanced tr c h)

-- After any calls on a new tracker, every subscription has at most as many gaps and duplicates
-- together as messages.
pub gaps-duplicates-le-messages :
    (cs : List Call) (sid : ℕ)
    → gaps sid (run [] cs) + duplicates sid (run [] cs) ≤ messages sid (run [] cs)
unfolding gaps duplicates messages
gaps-duplicates-le-messages cs sid = run-IsBalanced [] cs (λ s. unfold lookup in omega arith) sid
