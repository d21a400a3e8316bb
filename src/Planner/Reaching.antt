-- ===== src/Planner/Reaching.antt =====
-- The changes of src/tape/recorder/planner.py `diff` lead from one plan to the other.
use kalshi_trading_project.Prelude.{
  ◌≡◌, refl, sym, ap, ◌∙◌, Bool, true, false, Option, none, some, List, [], ◌∷◌, ◌++◌, arith,
  if◌then◌else◌, if_cases,
}
use mathlib.Core.Path.{subst}
use kalshi_trading_project.Prelude.Eq.{string_eq}
use Prim.Native.String.{String, compare}
use text.Mathlib.Text.{is_lt}
use kalshi_trading_project.Planner.{
  Group, PlanChange, add_markets, remove_markets, is_member, without,
}
use kalshi_trading_project.Planner.Pieces.{after_change, after_all}
use kalshi_trading_project.Planner.Diff.{
  group_at, insert_id, sorted_ids, must_rebuild, unless_empty, drop_markets_at, drop_groups_at,
  add_groups_at, add_markets_at, at_each,
}

pub after_all-append :
    (g : String) (cs ds : List PlanChange) (now : Option (List String))
    → after_all g (cs ++ ds) now ≡ after_all g ds (after_all g cs now)
after_all-append g [] ds now = refl
after_all-append g (c ∷ cs) ds now = after_all-append g cs ds (after_change g c now)

-- Changes that touch no group but one.
abbrev pub IsFor : String → (List PlanChange) → Type 0
IsFor i cs =
    (g : String) (now : Option (List String)) → string_eq.beq i g ≡ false → after_all g cs now ≡ now

abbrev AreUnique : List String → Type 0
AreUnique [] = Unit
AreUnique (i ∷ is) = (is_member i is ≡ false) × AreUnique is

at_each-other :
    (f : String → List PlanChange) (is : List String) (g : String) (now : Option (List String))
    → ((i : String) → IsFor i (f i))
    → is_member g is ≡ false
    → after_all g (at_each f is) now ≡ now
unfolding at_each
at_each-other f [] g now local h = refl
at_each-other f (i ∷ is) g now local h =
    after_all-append g (f i) (at_each f is) now
    ∙ ap (after_all g (at_each f is)) (local i g now (ground arith))
    ∙ at_each-other f is g now local (ground arith)

at_each-one :
    (f : String → List PlanChange) (is : List String) (g : String) (now : Option (List String))
    → ((i : String) → IsFor i (f i))
    → AreUnique is
    → is_member g is ≡ true
    → after_all g (at_each f is) now ≡ after_all g (f g) now
unfolding at_each
at_each-one f [] g now local u h = ground arith
at_each-one f (i ∷ is) g now local u h =
    after_all-append g (f i) (at_each f is) now
    ∙ if_cases
        (λ x. x ≡ true → after_all g (at_each f is) (after_all g (f i) now) ≡ after_all g (f g) now)
        (string_eq.beq i g)
        (λ e k.
          let same = (string_eq.beq_iff i g).0 e in
          at_each-other f is g (after_all g (f i) now) local
            (subst (λ j. is_member j is ≡ false) same u.0)
          ∙ ap (λ j. after_all g (f j) now) same)
        (λ e k.
          ap (after_all g (at_each f is)) (local i g now e) ∙ at_each-one f is g now local u.1 k)
        h

is_member-insert_id :
    (t i : String) (is : List String)
    → is_member t (insert_id i is) ≡ (if string_eq.beq i t then true else is_member t is)
is_member-insert_id t i [] = refl
is_member-insert_id t i (j ∷ is) = ground (arith, is_member-insert_id t i is)

insert_id-AreUnique :
    (i : String) (is : List String)
    → is_member i is ≡ false
    → AreUnique is
    → AreUnique (insert_id i is)
insert_id-AreUnique i [] h u = (refl, tt)
insert_id-AreUnique i (j ∷ is) h u =
    if_cases AreUnique (is_lt (compare j i))
      (λ e. (
        is_member-insert_id j i is ∙ ground (arith, string_eq.beq_iff i j, string_eq.beq_iff j i),
        insert_id-AreUnique i is (ground arith) u.1,
      ))
      (λ e. (h, u))

-- No group id twice, as the constructor of a plan tests.
abbrev pub AreDistinctGroups : List Group → Type 0
AreDistinctGroups [] = Unit
AreDistinctGroups (g ∷ gs) = (group_at g.group_id gs ≡ none) × AreDistinctGroups gs

abbrev is_some : Option Group → Bool
is_some none = false
is_some (some g) = true

sorted_ids-group_at :
    (t : String) (gs : List Group) → is_member t (sorted_ids gs) ≡ is_some (group_at t gs)
unfolding sorted_ids group_at
sorted_ids-group_at t [] = refl
sorted_ids-group_at t (g ∷ gs) =
    is_member-insert_id t g.group_id (sorted_ids gs) ∙ ground (arith, sorted_ids-group_at t gs)

sorted_ids-AreUnique : (gs : List Group) → AreDistinctGroups gs → AreUnique (sorted_ids gs)
unfolding sorted_ids
sorted_ids-AreUnique [] h = tt
sorted_ids-AreUnique (g ∷ gs) h =
    insert_id-AreUnique g.group_id (sorted_ids gs)
      (sorted_ids-group_at g.group_id gs ∙ ap is_some h.0) (sorted_ids-AreUnique gs h.1)

pub group_at-id :
    (i : String) (gs : List Group) (g : Group) → group_at i gs ≡ some g → g.group_id ≡ i
unfolding group_at
group_at-id i [] g h = ground arith
group_at-id i (x ∷ gs) g h =
    if_cases (λ o. o ≡ some g → g.group_id ≡ i) (string_eq.beq x.group_id i)
      (λ e k.
        sym (ap (λ (o : Option Group). (or_group o g).group_id) k)
        ∙ (string_eq.beq_iff x.group_id i).0 e)
      (λ e k. group_at-id i gs g k) h
  where
    or_group : Option Group → Group → Group
    or_group none d = d
    or_group (some x) d = x

unless_empty-IsFor :
    (i : String) (ts : List String) (change : List String → PlanChange)
    → ((us : List String) → IsFor i (change us ∷ []))
    → IsFor i (unless_empty ts change)
unless_empty-IsFor i [] change h = λ g now e. refl
unless_empty-IsFor i (t ∷ ts) change h = h (t ∷ ts)

none-IsFor : (i : String) → IsFor i []
none-IsFor i g now e = refl

pub drop_markets_at-IsFor : (i : String) (r w : Option Group) → IsFor i (drop_markets_at i r w)
drop_markets_at-IsFor i none w = none-IsFor i
drop_markets_at-IsFor i (some old) none = none-IsFor i
drop_markets_at-IsFor i (some old) (some new) =
    if_cases (IsFor i) (must_rebuild old new) (λ e. none-IsFor i)
      (λ e.
        unless_empty-IsFor i (without old.tickers new.tickers) (remove_markets i)
          (λ us g now k. ground arith))

pub drop_groups_at-IsFor : (i : String) (r w : Option Group) → IsFor i (drop_groups_at i r w)
drop_groups_at-IsFor i none w = none-IsFor i
drop_groups_at-IsFor i (some old) none = λ g now k. ground arith
drop_groups_at-IsFor i (some old) (some new) =
    if_cases (IsFor i) (must_rebuild old new) (λ e g now k. ground arith) (λ e. none-IsFor i)

pub add_markets_at-IsFor : (i : String) (r w : Option Group) → IsFor i (add_markets_at i r w)
add_markets_at-IsFor i none w = none-IsFor i
add_markets_at-IsFor i (some old) none = none-IsFor i
add_markets_at-IsFor i (some old) (some new) =
    if_cases (IsFor i) (must_rebuild old new) (λ e. none-IsFor i)
      (λ e.
        unless_empty-IsFor i (without new.tickers old.tickers) (add_markets i)
          (λ us g now k. ground arith))

pub add_groups_at-IsFor :
    (i : String) (r w : Option Group)
    → ((new : Group) → w ≡ some new → new.group_id ≡ i)
    → IsFor i (add_groups_at r w)
add_groups_at-IsFor i none none h = none-IsFor i
add_groups_at-IsFor i (some old) none h = none-IsFor i
add_groups_at-IsFor i none (some new) h = λ g now k. ground (arith, h new refl)
add_groups_at-IsFor i (some old) (some new) h =
    if_cases (IsFor i) (must_rebuild old new) (λ e g now k. ground (arith, h new refl))
      (λ e. none-IsFor i)

-- The changes of each id of a plan act on a group as those of its own id do.
pub at_each-at :
    (f : String → List PlanChange) (gs : List Group) (g : String) (now : Option (List String))
    → AreDistinctGroups gs
    → ((i : String) → IsFor i (f i))
    → (group_at g gs ≡ none → f g ≡ [])
    → after_all g (at_each f (sorted_ids gs)) now ≡ after_all g (f g) now
at_each-at f gs g now distinct local empty = go (group_at g gs) refl
  where
    go :
        (o : Option Group)
        → group_at g gs ≡ o
        → after_all g (at_each f (sorted_ids gs)) now ≡ after_all g (f g) now
    go none e =
        at_each-other f (sorted_ids gs) g now local (sorted_ids-group_at g gs ∙ ap is_some e)
        ∙ sym (ap (λ cs. after_all g cs now) (empty e))
    go (some x) e =
        at_each-one f (sorted_ids gs) g now local (sorted_ids-AreUnique gs distinct)
          (sorted_ids-group_at g gs ∙ ap is_some e)
