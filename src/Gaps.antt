-- ===== src/Gaps.antt =====
-- src/tape/recorder/gaps.py: sequence-gap detection, one state for each subscription id.
pub mod Progress
pub mod Counters
mod Tests
use kalshi_trading_project.Prelude.{
  ℕ, ◌+◌, Option, none, some, List, [], ◌∷◌, map, ltb, ◌==◌, if◌then◌else◌,
}
use kalshi_trading_project.Prelude.Eq.{nat_eq}
use kalshi_trading_project.Prelude.Dict.{Dict, lookup, put, remove, or_else}

pub data GapVerdict : Type 0 where
  ok_message first_message : GapVerdict
  gap duplicate : ℕ → ℕ → GapVerdict

pub record SidState : Type 0 where
  pub last_seq : Option ℕ
  pub messages : ℕ
  pub gaps : ℕ
  pub duplicates : ℕ

abbrev pub new_state : SidState
new_state = record { last_seq = none; messages = 0; gaps = 0; duplicates = 0 }

abbrev pub GapTracker : Type 0
GapTracker = Dict ℕ SidState

-- `observe` on the state of its sid, whose message is counted already.
abbrev pub classify : Option ℕ → Option ℕ → SidState → GapVerdict × SidState
classify none last state = (ok_message, state)
classify (some seq) none state = (first_message, record state { last_seq = some seq })
classify (some seq) (some last) state =
    let expected = last + 1 in
    if seq == expected
    then (ok_message, record state { last_seq = some seq })
    else if ltb expected seq
    then (gap expected seq, record state { last_seq = some seq; gaps = state.gaps + 1 })
    else (duplicate expected seq, record state { duplicates = state.duplicates + 1 })

abbrev pub counted : SidState → SidState
counted state = record state { messages = state.messages + 1 }

unfoldable pub observe : ℕ → Option ℕ → GapTracker → GapVerdict × GapTracker
observe sid seq states =
    let state = counted (or_else (lookup sid states) new_state) in
    let (verdict, state') = classify seq state.last_seq state in (verdict, put sid state' states)

abbrev pub reset_state : ℕ → Option SidState → GapTracker → GapTracker
reset_state sid none states = states
reset_state sid (some state) states = put sid (record state { last_seq = none }) states

unfoldable pub reset : ℕ → GapTracker → GapTracker
reset sid states = reset_state sid (lookup sid states) states

unfoldable pub forget : ℕ → GapTracker → GapTracker
forget sid states = remove sid states

abbrev pub state_of : ℕ → GapTracker → SidState
state_of sid states = or_else (lookup sid states) new_state

unfoldable pub messages : ℕ → GapTracker → ℕ
messages sid states = (state_of sid states).messages

unfoldable pub gaps : ℕ → GapTracker → ℕ
gaps sid states = (state_of sid states).gaps

unfoldable pub duplicates : ℕ → GapTracker → ℕ
duplicates sid states = (state_of sid states).duplicates
