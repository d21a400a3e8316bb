-- ===== src/Planner/Diff.antt =====
-- src/tape/recorder/planner.py: a plan, and the changes from one plan to another. A plan is one that its
-- constructor accepts, with no group id twice.
use kalshi_trading_project.Prelude.{
  ◌==◌, not, ◌||◌, Bool, true, false, Option, none, some, List, [], ◌∷◌, ◌++◌, if◌then◌else◌,
}
use kalshi_trading_project.Prelude.Eq.{string_eq}
use Prim.Native.String.{String, compare}
use text.Mathlib.Text.{is_lt}
use kalshi_trading_project.Planner.{
  Group, PlanChange, add_group, remove_group, add_markets, remove_markets, is_member, without,
}

pub record Plan : Type 0 where
  pub groups : List Group

-- by_id.get(group_id)
unfoldable pub group_at : String → List Group → Option Group
group_at group_id [] = none
group_at group_id (g ∷ gs) =
    if string_eq.beq g.group_id group_id then some g else group_at group_id gs

abbrev pub insert_id : String → List String → List String
insert_id t [] = t ∷ []
insert_id t (u ∷ us) = if is_lt (compare u t) then u ∷ insert_id t us else t ∷ u ∷ us

-- sorted(by_id)
unfoldable pub sorted_ids : List Group → List String
sorted_ids [] = []
sorted_ids (g ∷ gs) = insert_id g.group_id (sorted_ids gs)

unfoldable pub is_disjoint : List String → List String → Bool
is_disjoint [] us = true
is_disjoint (t ∷ ts) us = let rest = is_disjoint ts us in if is_member t us then false else rest

abbrev pub must_rebuild : Group → Group → Bool
must_rebuild old new = not (new.conn_id == old.conn_id) || is_disjoint old.tickers new.tickers

abbrev pub unless_empty : List String → (List String → PlanChange) → List PlanChange
unless_empty [] change = []
unless_empty (t ∷ ts) change = change (t ∷ ts) ∷ []

-- What one group id adds to each of the four lists.
abbrev pub drop_markets_at : String → Option Group → Option Group → List PlanChange
drop_markets_at group_id (some old) (some new) =
    if must_rebuild old new
    then []
    else unless_empty (without old.tickers new.tickers) (remove_markets group_id)
drop_markets_at group_id old new = []

abbrev pub drop_groups_at : String → Option Group → Option Group → List PlanChange
drop_groups_at group_id (some old) (some new) =
    if must_rebuild old new then remove_group group_id ∷ [] else []
drop_groups_at group_id (some old) none = remove_group group_id ∷ []
drop_groups_at group_id none new = []

abbrev pub add_groups_at : Option Group → Option Group → List PlanChange
add_groups_at (some old) (some new) = if must_rebuild old new then add_group new ∷ [] else []
add_groups_at none (some new) = add_group new ∷ []
add_groups_at old none = []

abbrev pub add_markets_at : String → Option Group → Option Group → List PlanChange
add_markets_at group_id (some old) (some new) =
    if must_rebuild old new
    then []
    else unless_empty (without new.tickers old.tickers) (add_markets group_id)
add_markets_at group_id old new = []

unfoldable pub at_each : (String → List PlanChange) → List String → List PlanChange
at_each f [] = []
at_each f (i ∷ is) = f i ++ at_each f is

unfoldable pub diff : Plan → Plan → List PlanChange
unfolding at_each
diff current desired =
    let running : String → Option Group = λ i. group_at i current.groups in
    let wanted : String → Option Group = λ i. group_at i desired.groups in
    let ids = sorted_ids current.groups in
    at_each (λ i. drop_markets_at i (running i) (wanted i)) ids
    ++ (at_each (λ i. drop_groups_at i (running i) (wanted i)) ids
        ++ (at_each (λ i. add_groups_at (running i) (wanted i)) (sorted_ids desired.groups)
            ++ at_each (λ i. add_markets_at i (running i) (wanted i)) ids))
