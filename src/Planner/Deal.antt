-- ===== src/Planner/Deal.antt =====
-- src/tape/recorder/planner.py `plan`: markets are kept on their connections and dealt out to the least
-- loaded ones. The heap of (load, connection) pairs is the dictionary of the loads, which gives the
-- least pair by a search; a `frozenset` is the list of its members in order.
use kalshi_trading_project.Prelude.{
  ℕ, zero, suc, ◌+◌, ◌==◌, ◌||◌, ◌&&◌, ltb, leb, Bool, Option, none, some, List, [], ◌∷◌, ◌++◌,
  length, take, if◌then◌else◌,
}
use kalshi_trading_project.Prelude.Eq.{nat_eq, string_eq}
use kalshi_trading_project.Prelude.Dict.{Dict, lookup, put, or_else}
use Prim.Native.String.{String}
use kalshi_trading_project.Planner.{Group, is_member, without}
use kalshi_trading_project.Planner.Diff.{Plan}

abbrev pub Members : Type 0
Members = Dict ℕ (List String)

-- members.get(conn_id, ())
unfoldable pub members_at : ℕ → Members → List String
members_at conn_id m = or_else (lookup conn_id m) []

-- sorted(ticker for ticker in group.tickers if ticker in desired)
unfoldable pub still_wanted : List String → List String → List String
still_wanted [] desired = []
still_wanted (t ∷ ts) desired =
    let rest = still_wanted ts desired in if is_member t desired then t ∷ rest else rest

abbrev pub keep_some : ℕ → List String → Members → Members
keep_some conn_id [] m = m
keep_some conn_id (t ∷ ts) m = put conn_id (t ∷ ts) m

unfoldable pub carry_over : List Group → List String → ℕ → ℕ → Members → Members
unfolding still_wanted
carry_over [] desired cap max_connections m = m
carry_over (g ∷ gs) desired cap max_connections m = carry_over gs desired cap max_connections (
    if leb max_connections g.conn_id
    then m
    else keep_some g.conn_id (take cap (still_wanted g.tickers desired)) m)

-- The connections with room, with their loads: from `conn_id` on, `n` of them.
unfoldable pub room_of : ℕ → ℕ → ℕ → Members → Dict ℕ ℕ
unfolding members_at
room_of conn_id zero cap m = []
room_of conn_id (suc n) cap m =
    let rest = room_of (conn_id + 1) n cap m in
    if ltb (length (members_at conn_id m)) cap
    then (conn_id, length (members_at conn_id m)) ∷ rest
    else rest

-- (load, conn_id) < (other load, other conn_id), of entries
abbrev pub is_before : ℕ × ℕ → ℕ × ℕ → Bool
is_before (c, load) (d, other) = ltb load other || ((load == other) && ltb c d)

abbrev pub least_of : ℕ × ℕ → Option ((ℕ × ℕ) × Dict ℕ ℕ) → (ℕ × ℕ) × Dict ℕ ℕ
least_of x none = (x, [])
least_of x (some (y, rest)) = if is_before y x then (y, x ∷ rest) else (x, y ∷ rest)

-- heappop, none from an empty heap
unfoldable pub pop_least : Dict ℕ ℕ → Option ((ℕ × ℕ) × Dict ℕ ℕ)
pop_least [] = none
pop_least (x ∷ room) = some (least_of x (pop_least room))

abbrev pub pushed_back : ℕ → ℕ → ℕ → Dict ℕ ℕ → Dict ℕ ℕ
pushed_back cap conn_id load room = if ltb (load + 1) cap then (conn_id, load + 1) ∷ room else room

abbrev pub give : String → ℕ → Members → Members
give t conn_id m = put conn_id (members_at conn_id m ++ t ∷ []) m

-- The members and the tickers left out.
unfoldable pub fill : ℕ → List String → Dict ℕ ℕ → Members → Members
unfolding pop_least
fill cap [] room m = m
fill cap (t ∷ ts) room m = elim (pop_least room) [
  | none ↦ m
  | some popped ↦ fill cap ts (pushed_back cap popped.0.0 popped.0.1 popped.1) (give t popped.0.0 m)
]

unfoldable pub placed_in : Members → List String
placed_in [] = []
placed_in ((c, ts) ∷ m) = ts ++ placed_in m

abbrev pub groups_of_plan : Option Plan → List Group
groups_of_plan none = []
groups_of_plan (some p) = p.groups

-- The members by connection that `plan` makes its groups of; none stands for `ValueError`.
unfoldable pub assign : List String → ℕ → ℕ → Option Plan → Option Members
unfolding carry_over room_of fill placed_in
assign desired max_per_group max_connections previous =
    if leb max_per_group 0
    then none
    else if leb max_connections 0
    then none
    else let kept = carry_over (groups_of_plan previous) desired max_per_group max_connections [] in
      some (
        fill max_per_group (without desired (placed_in kept))
          (room_of 0 max_connections max_per_group kept) kept)
