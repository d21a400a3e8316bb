-- ===== src/Planner/Reached.antt =====
-- Where the changes of src/tape/recorder/planner.py `diff` end.
use kalshi_trading_project.Prelude.{
  ◌≡◌, refl, sym, ap, ◌∙◌, Bool, true, false, Option, none, some, List, [], ◌∷◌, ◌++◌, arith,
  if◌then◌else◌,
}
use mathlib.Core.Path.{subst⁻¹}
use kalshi_trading_project.Prelude.Eq.{string_eq}
use Prim.Native.String.{String}
use kalshi_trading_project.Planner.{
  Group, add_group, remove_group, add_markets, remove_markets, is_member, without,
}
use kalshi_trading_project.Planner.Pieces.{
  added, dropped, after_all, is_member-append, added-none, dropped-none,
}
use kalshi_trading_project.Planner.Diff.{
  Plan, group_at, sorted_ids, must_rebuild, unless_empty, drop_markets_at, drop_groups_at,
  add_groups_at, add_markets_at, at_each, diff,
}
use kalshi_trading_project.Planner.Reaching.{
  AreDistinctGroups, after_all-append, at_each-at, group_at-id, drop_markets_at-IsFor,
  drop_groups_at-IsFor, add_groups_at-IsFor, add_markets_at-IsFor,
}

-- Both are subscribed, to the same set of markets, or neither is.
abbrev pub AreSameMarkets : Option (List String) → Option (List String) → Type 0
AreSameMarkets none none = Unit
AreSameMarkets none (some us) = ⊥
AreSameMarkets (some ts) none = ⊥
AreSameMarkets (some ts) (some us) = (t : String) → is_member t ts ≡ is_member t us

abbrev pub markets_of : Option Group → Option (List String)
markets_of none = none
markets_of (some g) = some g.tickers

-- The four steps on one group.
abbrev stepped : String → Option Group → Option Group → Option (List String) → Option (List String)
stepped g r w now = after_all g (add_markets_at g r w) (
    after_all g (add_groups_at r w)
      (after_all g (drop_groups_at g r w) (after_all g (drop_markets_at g r w) now)))

module _ (current desired : Plan) (hc : AreDistinctGroups current.groups)
    (hd : AreDistinctGroups desired.groups) (g : String) where
  abbrev running : String → Option Group
  running i = group_at i current.groups

  abbrev wanted : String → Option Group
  wanted i = group_at i desired.groups

  after_drop_markets :
      (now : Option (List String))
      → after_all g
          (at_each (λ i. drop_markets_at i (running i) (wanted i)) (sorted_ids current.groups))
          now
        ≡ after_all g (drop_markets_at g (running g) (wanted g)) now
  after_drop_markets now =
      at_each-at (λ i. drop_markets_at i (running i) (wanted i)) current.groups g now hc
        (λ i. drop_markets_at-IsFor i (running i) (wanted i))
        (λ e. ap (λ o. drop_markets_at g o (wanted g)) e)

  after_drop_groups :
      (now : Option (List String))
      → after_all g
          (at_each (λ i. drop_groups_at i (running i) (wanted i)) (sorted_ids current.groups))
          now
        ≡ after_all g (drop_groups_at g (running g) (wanted g)) now
  after_drop_groups now =
      at_each-at (λ i. drop_groups_at i (running i) (wanted i)) current.groups g now hc
        (λ i. drop_groups_at-IsFor i (running i) (wanted i))
        (λ e. ap (λ o. drop_groups_at g o (wanted g)) e)

  after_add_groups :
      (now : Option (List String))
      → after_all g
          (at_each (λ i. add_groups_at (running i) (wanted i)) (sorted_ids desired.groups))
          now
        ≡ after_all g (add_groups_at (running g) (wanted g)) now
  after_add_groups now =
      at_each-at (λ i. add_groups_at (running i) (wanted i)) desired.groups g now hd
        (λ i.
          add_groups_at-IsFor i (running i) (wanted i)
            (λ new e. group_at-id i desired.groups new e))
        (λ e. ap (add_groups_at (running g)) e ∙ no_group (running g))
    where
      no_group : (r : Option Group) → add_groups_at r none ≡ []
      no_group none = refl
      no_group (some old) = refl

  after_add_markets :
      (now : Option (List String))
      → after_all g
          (at_each (λ i. add_markets_at i (running i) (wanted i)) (sorted_ids current.groups))
          now
        ≡ after_all g (add_markets_at g (running g) (wanted g)) now
  after_add_markets now =
      at_each-at (λ i. add_markets_at i (running i) (wanted i)) current.groups g now hc
        (λ i. add_markets_at-IsFor i (running i) (wanted i))
        (λ e. ap (λ o. add_markets_at g o (wanted g)) e)

  diff-stepped :
      (now : Option (List String))
      → after_all g (diff current desired) now ≡ stepped g (running g) (wanted g) now
  unfolding diff
  diff-stepped now =
      let ids = sorted_ids current.groups in
      let drops = at_each (λ i. drop_groups_at i (running i) (wanted i)) ids in
      let adds = at_each (λ i. add_groups_at (running i) (wanted i)) (sorted_ids desired.groups) in
      let joins = at_each (λ i. add_markets_at i (running i) (wanted i)) ids in
      after_all-append g (at_each (λ i. drop_markets_at i (running i) (wanted i)) ids)
        (drops ++ (adds ++ joins)) now
      ∙ ap (after_all g (drops ++ (adds ++ joins))) (after_drop_markets now)
      ∙ after_all-append g drops (adds ++ joins) _
      ∙ ap (after_all g (adds ++ joins)) (after_drop_groups _)
      ∙ after_all-append g adds joins _
      ∙ ap (after_all g joins) (after_add_groups _)
      ∙ after_add_markets _

pub is_member-without :
    (t : String) (ts gone : List String)
    → is_member t (without ts gone) ≡ (if is_member t gone then false else is_member t ts)
is_member-without t [] gone = ground arith
is_member-without t (u ∷ ts) gone =
    ground (arith, is_member-without t ts gone, string_eq.beq_iff u t)

unless_empty-added :
    (g : String) (ts : List String) (now : Option (List String))
    → after_all g (unless_empty ts (add_markets g)) now ≡ added ts now
unless_empty-added g [] now = sym (added-none now)
unless_empty-added g (t ∷ ts) now = ground (arith, string_eq.beq_iff g g)

unless_empty-dropped :
    (g : String) (ts : List String) (now : Option (List String))
    → after_all g (unless_empty ts (remove_markets g)) now ≡ dropped ts now
unless_empty-dropped g [] now = sym (dropped-none now)
unless_empty-dropped g (t ∷ ts) now = ground (arith, string_eq.beq_iff g g)

updated-same :
    (t : String) (old new : List String)
    → is_member t (without old (without old new) ++ without new old) ≡ is_member t new
updated-same t old new =
    is_member-append t (without old (without old new)) (without new old)
    ∙ ground (
      arith,
      is_member-without t old (without old new),
      is_member-without t old new,
      is_member-without t new old,
    )

stepped-AreSameMarkets :
    (g : String) (r w : Option Group)
    → ((new : Group) → w ≡ some new → new.group_id ≡ g)
    → AreSameMarkets (stepped g r w (markets_of r)) (markets_of w)
stepped-AreSameMarkets g none none h = tt
stepped-AreSameMarkets g none (some new) h =
    rw ((string_eq.beq_iff new.group_id g).1 (h new refl)) (λ t. refl)
stepped-AreSameMarkets g (some old) none h = rw ((string_eq.beq_iff g g).1 refl) tt
stepped-AreSameMarkets g (some old) (some new) h = go (must_rebuild old new)
  where
    go :
        (b : Bool)
        → AreSameMarkets
            (after_all g
              (if b then [] else unless_empty (without new.tickers old.tickers) (add_markets g))
              (after_all g (if b then add_group new ∷ [] else []) (
                after_all g (if b then remove_group g ∷ [] else []) (
                  after_all g
                    (if b
                      then []
                      else unless_empty (without old.tickers new.tickers) (remove_markets g))
                    (some old.tickers)))))
            (some new.tickers)
    go true = rw ((string_eq.beq_iff new.group_id g).1 (h new refl)) (λ t. refl)
    go false =
        subst⁻¹ (λ o. AreSameMarkets o (some new.tickers))
          (unless_empty-added g (without new.tickers old.tickers) _
            ∙ ap (added (without new.tickers old.tickers))
                (unless_empty-dropped g (without old.tickers new.tickers) (some old.tickers)))
          (λ t. updated-same t old.tickers new.tickers)

-- Applying the changes in order to a plan with no group id twice leaves every group subscribed, and to
-- the same set of markets, exactly as the desired plan has it, when that has no group id twice
-- either.
pub diff-AreSameMarkets :
    (current desired : Plan) (g : String)
    → AreDistinctGroups current.groups
    → AreDistinctGroups desired.groups
    → AreSameMarkets
        (after_all g (diff current desired) (markets_of (group_at g current.groups)))
        (markets_of (group_at g desired.groups))
diff-AreSameMarkets current desired g hc hd =
    subst⁻¹ (λ o. AreSameMarkets o (markets_of (group_at g desired.groups)))
      (diff-stepped current desired hc hd g (markets_of (group_at g current.groups)))
      (stepped-AreSameMarkets g (group_at g current.groups) (group_at g desired.groups)
        (λ new e. group_at-id g desired.groups new e))
