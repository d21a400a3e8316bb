-- ===== src/Planner/Tests.antt =====
-- A group that is cut up, and the theorem at it.
use kalshi_trading_project.Prelude.{◌≡◌, refl, none, some, Option, List, [], ◌∷◌, All, arith}
use kalshi_trading_project.Prelude.Dict.{lookup, put}
use kalshi_trading_project.Prelude.Result.{ok, err}
use kalshi_trading_project.Planner.{
  Group, PlanChange, add_group, add_markets, remove_group, remove_markets, split_change, sids_of,
  to_commands, unsubscribe, update_subscription, deletes, no_sid,
}
use kalshi_trading_project.Planner.Pieces.{IsWithin, after_all, after_change}
use kalshi_trading_project.Planner.Splitting.{split_change-IsWithin}
use kalshi_trading_project.Planner.Diff.{Plan, group_at, diff}
use kalshi_trading_project.Planner.Reached.{AreSameMarkets, markets_of, diff-AreSameMarkets}
use kalshi_trading_project.Planner.Deal.{
  Members, assign, fill, room_of, carry_over, placed_in, pop_least, members_at,
}
use kalshi_trading_project.Planner.Assignment.{IsAssigned, assign-IsAssigned}
use Prim.Native.String.{String}

abbrev five : Group
five = record { group_id = "g0001"; conn_id = 1; tickers = "a" ∷ "b" ∷ "c" ∷ "d" ∷ "e" ∷ [] }

cut_in_three :
    split_change 2 (add_group five)
    ≡ ok (
        add_group (record five { tickers = "a" ∷ "b" ∷ [] })
        ∷ add_markets "g0001" ("c" ∷ "d" ∷ [])
        ∷ add_markets "g0001" ("e" ∷ [])
        ∷ [])
unfolding split_change
cut_in_three = refl

removed :
    to_commands
      (remove_markets "g0001" ("a" ∷ []) ∷ remove_group "g0001" ∷ [])
      ("trade" ∷ [])
      none
      (("g0001", 7 ∷ 3 ∷ 7 ∷ []) ∷ [])
    ≡ ok (
        update_subscription 3 deletes ("a" ∷ [])
        ∷ update_subscription 7 deletes ("a" ∷ [])
        ∷ unsubscribe (3 ∷ 7 ∷ [])
        ∷ [])
unfolding to_commands sids_of lookup
removed = refl

never_subscribed : to_commands (remove_group "g0002" ∷ []) ("trade" ∷ []) none [] ≡ err no_sid
unfolding to_commands sids_of lookup
never_subscribed = refl

split_change-IsWithin_example :
    (cs : List PlanChange) × (split_change 2 (add_group five) ≡ ok cs)
    × All (IsWithin 2) cs
    × ((group_id : String) (now : Option (List String))
        → after_all group_id cs now ≡ after_change group_id (add_group five) now)
split_change-IsWithin_example = split_change-IsWithin 2 (add_group five) (omega arith)

abbrev three : Group
three = record { group_id = "g0000"; conn_id = 0; tickers = "x" ∷ "y" ∷ "z" ∷ [] }

abbrev before : Plan
before = record { groups = three ∷ five ∷ [] }

abbrev after : Plan
after = record {
  groups = record three { tickers = "p" ∷ "x" ∷ [] } ∷ record five { tickers = "q" ∷ [] } ∷ [];
}

diff-AreSameMarkets_example :
    AreSameMarkets
      (after_all "g0000" (diff before after) (markets_of (group_at "g0000" before.groups)))
      (markets_of (group_at "g0000" after.groups))
unfolding group_at
diff-AreSameMarkets_example =
    diff-AreSameMarkets before after "g0000" (refl, (refl, tt)) (refl, (refl, tt))

dealt_in_turn :
    assign ("a" ∷ "b" ∷ "c" ∷ []) 2 2 none ≡ some ((0, "a" ∷ "c" ∷ []) ∷ (1, "b" ∷ []) ∷ [])
unfolding assign fill room_of carry_over placed_in pop_least members_at lookup put
dealt_in_turn = refl

assign-IsAssigned_example :
    (m : Members) × (assign ("a" ∷ "x" ∷ "z" ∷ []) 3 2 (some before) ≡ some m)
    × IsAssigned ("a" ∷ "x" ∷ "z" ∷ []) 3 2 (three ∷ five ∷ []) m
assign-IsAssigned_example =
    assign-IsAssigned ("a" ∷ "x" ∷ "z" ∷ []) 3 2 (some before) (omega arith) (omega arith)
      ((refl, tt), (tt, tt))
