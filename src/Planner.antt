-- ===== src/Planner.antt =====
-- src/tape/recorder/planner.py: the changes between two assignments of markets to connections, and
-- their cutting into commands of bounded size. A `frozenset` of tickers is the list of its members
-- in order, so `sorted` gives the list itself; a group is one that its constructor accepts, with at
-- least one member.
mod Pieces
pub mod Splitting
pub mod Diff
pub mod Reaching
pub mod Reached
pub mod Deal
pub mod Dealing
pub mod Assigned
pub mod Assignment
mod Tests
use kalshi_trading_project.Prelude.{
  ℕ, zero, suc, ◌==◌, leb, Bool, true, false, Option, none, some, List, [], ◌∷◌, ◌++◌, map, length,
  take, drop, if◌then◌else◌,
}
use kalshi_trading_project.Prelude.Eq.{Eq, string_eq}
use kalshi_trading_project.Prelude.Dict.{Dict, lookup, put, remove, has, or_else}
use kalshi_trading_project.Prelude.Result.{Result, ok, err, ◌>>=◌}
use Prim.Native.String.{String}

pub record Group : Type 0 where
  pub group_id : String
  pub conn_id : ℕ
  pub tickers : List String

pub data PlanChange : Type 0 where
  add_group : Group → PlanChange
  remove_group : String → PlanChange
  add_markets : String → List String → PlanChange
  remove_markets : String → List String → PlanChange

-- `ValueError` and `KeyError`.
pub data PlanError : Type 0 where
  bad_max_markets no_channels no_sid no_markets : PlanError

-- Consecutive pieces of `max_markets` each; `fuel` of at least the length cuts all of it.
abbrev pub pieces_of : ℕ → ℕ → List String → List (List String)
pieces_of zero max_markets tickers = []
pieces_of (suc fuel) max_markets [] = []
pieces_of (suc fuel) max_markets (t ∷ ts) =
    take max_markets (t ∷ ts) ∷ pieces_of fuel max_markets (drop max_markets (t ∷ ts))

-- A membership change, cut up if it is too long.
abbrev pub cut_up : ℕ → (List String → PlanChange) → List String → List PlanChange
cut_up max_markets change tickers =
    if leb (length tickers) max_markets
    then change tickers ∷ []
    else map change (pieces_of (length tickers) max_markets tickers)

abbrev pub split_within : ℕ → PlanChange → List PlanChange
split_within max_markets (remove_group group_id) = remove_group group_id ∷ []
split_within max_markets (add_group group) =
    if leb (length group.tickers) max_markets
    then add_group group ∷ []
    else add_group (record group { tickers = take max_markets group.tickers })
      ∷ cut_up max_markets (add_markets group.group_id) (drop max_markets group.tickers)
split_within max_markets (add_markets group_id tickers) =
    cut_up max_markets (add_markets group_id) tickers
split_within max_markets (remove_markets group_id tickers) =
    cut_up max_markets (remove_markets group_id) tickers

unfoldable pub split_change : ℕ → PlanChange → Result PlanError (List PlanChange)
split_change max_markets change =
    if leb max_markets 0 then err bad_max_markets else ok (split_within max_markets change)

abbrev pub is_member : String → List String → Bool
is_member t [] = false
is_member t (u ∷ us) = let rest = is_member t us in if string_eq.beq u t then true else rest

-- a - b, of two sets
abbrev pub without : List String → List String → List String
without [] gone = []
without (t ∷ ts) gone = let rest = without ts gone in if is_member t gone then rest else t ∷ rest

pub data UpdateAction : Type 0 where
  adds deletes : UpdateAction

pub data Command : Type 0 where
  subscribe : List String → List String → Option Bool → Command
  unsubscribe : List ℕ → Command
  update_subscription : ℕ → UpdateAction → List String → Command

-- sorted(set(...)): insertion into an ascending list without repetitions.
abbrev pub insert_sid : ℕ → List ℕ → List ℕ
insert_sid n [] = n ∷ []
insert_sid n (m ∷ ms) =
    let rest = insert_sid n ms in
    if n == m then m ∷ ms else if leb n m then n ∷ m ∷ ms else m ∷ rest

abbrev pub sorted_sids : List ℕ → List ℕ
sorted_sids [] = []
sorted_sids (n ∷ ns) = insert_sid n (sorted_sids ns)

abbrev pub some_sids : List ℕ → Result PlanError (List ℕ)
some_sids [] = err no_sid
some_sids (n ∷ ns) = ok (n ∷ ns)

unfoldable pub sids_of : Dict String (List ℕ) → String → Result PlanError (List ℕ)
sids_of sid_of group_id = some_sids (sorted_sids (or_else (lookup group_id sid_of) []))

-- A command names at least one market.
abbrev pub some_markets : List String → Result PlanError (List String)
some_markets [] = err no_markets
some_markets (t ∷ ts) = ok (t ∷ ts)

abbrev pub commands_of :
    List String → Option Bool → Dict String (List ℕ) → PlanChange → Result PlanError (List Command)
commands_of channels use_yes_price sid_of (add_group group) =
    some_markets group.tickers >>= λ markets. ok (subscribe channels markets use_yes_price ∷ [])
commands_of channels use_yes_price sid_of (remove_group group_id) = do
  sids ← sids_of sid_of group_id
  ok (unsubscribe sids ∷ [])
commands_of channels use_yes_price sid_of (add_markets group_id tickers) = do
  sids ← sids_of sid_of group_id
  markets ← some_markets tickers
  ok (map (λ sid. update_subscription sid adds markets) sids)
commands_of channels use_yes_price sid_of (remove_markets group_id tickers) = do
  sids ← sids_of sid_of group_id
  markets ← some_markets tickers
  ok (map (λ sid. update_subscription sid deletes markets) sids)

abbrev pub all_commands :
    List String
    → Option Bool
    → Dict String (List ℕ)
    → List PlanChange
    → Result PlanError (List Command)
all_commands channels use_yes_price sid_of [] = ok []
all_commands channels use_yes_price sid_of (c ∷ cs) =
    let rest = all_commands channels use_yes_price sid_of cs in
    commands_of channels use_yes_price sid_of c >>= λ first.
    rest >>= λ commands. ok (first ++ commands)

unfoldable pub to_commands :
    List PlanChange
    → List String
    → Option Bool
    → Dict String (List ℕ)
    → Result PlanError (List Command)
to_commands changes [] use_yes_price sid_of = err no_channels
to_commands changes (channel ∷ channels) use_yes_price sid_of =
    all_commands (channel ∷ channels) use_yes_price sid_of changes
