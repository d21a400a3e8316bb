-- ===== src/Planner/Splitting.antt =====
-- Cutting a change up bounds every piece and keeps the effect.
use kalshi_trading_project.Prelude.{
  ℕ, zero, suc, ◌≤◌, ◌<◌, ◌≡◌, refl, sym, ap, ◌∙◌, arith, Bool, true, false, Option, some, List, [],
  ◌∷◌, ◌++◌, map, length, take, drop, All, take-append-drop, if◌then◌else◌, if_cases, leb,
}
use kalshi_trading_project.Prelude.Eq.{string_eq}
use kalshi_trading_project.Prelude.Result.{ok}
use kalshi_trading_project.Planner.{
  PlanChange, add_group, remove_group, add_markets, remove_markets, pieces_of, cut_up, split_within,
  split_change,
}
use Prim.Native.String.{String}
use kalshi_trading_project.Planner.Pieces.{
  added, dropped, after_change, after_all, IsWithin, joined, length-take-le, joined-pieces_of,
  added-append, dropped-append, added-none, dropped-none,
}

-- An action on one group's markets that can be done in parts.
record InParts (act : List String → Option (List String) → Option (List String)) : Type 0 where
  in_turn :
      (p rest : List String) (now : Option (List String))
      → act rest (act p now) ≡ act (p ++ rest) now
  at_none : (now : Option (List String)) → act [] now ≡ now

abbrev if_act :
    (List String → Option (List String) → Option (List String))
    → Bool
    → List String
    → Option (List String)
    → Option (List String)
if_act act b ts now = if b then act ts now else now

if_act-in_turn :
    {act : List String → Option (List String) → Option (List String)}
    → InParts act
    → (b : Bool) (p rest : List String) (now : Option (List String))
    → if_act act b rest (if_act act b p now) ≡ if_act act b (p ++ rest) now
if_act-in_turn parts true p rest now = parts.in_turn p rest now
if_act-in_turn parts false p rest now = refl

if_act-at_none :
    {act : List String → Option (List String) → Option (List String)}
    → InParts act
    → (b : Bool) (now : Option (List String)) → now ≡ if_act act b [] now
if_act-at_none parts true now = sym (parts.at_none now)
if_act-at_none parts false now = refl

module _ {act : List String → Option (List String) → Option (List String)} (parts : InParts act)
    (change : List String → PlanChange) (other group_id : String)
    (effect : (ts : List String) (now : Option (List String))
      → after_change group_id (change ts) now
        ≡ if_act act (string_eq.beq other group_id) ts now) where
  after_all-pieces :
      (ps : List (List String)) (now : Option (List String))
      → after_all group_id (map change ps) now
        ≡ if_act act (string_eq.beq other group_id) (joined ps) now
  after_all-pieces [] now = if_act-at_none parts (string_eq.beq other group_id) now
  after_all-pieces (p ∷ ps) now =
      after_all-pieces ps (after_change group_id (change p) now)
      ∙ ap (if_act act (string_eq.beq other group_id) (joined ps)) (effect p now)
      ∙ if_act-in_turn parts (string_eq.beq other group_id) p (joined ps) now

  after_all-cut_up :
      (n : ℕ) (ts : List String) (now : Option (List String))
      → 0 < n
      → after_all group_id (cut_up n change ts) now
        ≡ if_act act (string_eq.beq other group_id) ts now
  after_all-cut_up n ts now h =
      if_cases (λ cs. after_all group_id cs now ≡ if_act act (string_eq.beq other group_id) ts now)
        (leb (length ts) n) (λ _. effect ts now)
        (λ _.
          after_all-pieces (pieces_of (length ts) n ts) now
          ∙ ap (λ us. if_act act (string_eq.beq other group_id) us now)
              (joined-pieces_of (length ts) n ts h (omega arith)))

pieces_of-IsWithin :
    (n fuel : ℕ) (change : List String → PlanChange) (ts : List String)
    → ((us : List String) → length us ≤ n → IsWithin n (change us))
    → All (IsWithin n) (map change (pieces_of fuel n ts))
pieces_of-IsWithin n zero change ts h = tt
pieces_of-IsWithin n (suc fuel) change [] h = tt
pieces_of-IsWithin n (suc fuel) change (t ∷ ts) h = (
  h (take n (t ∷ ts)) (length-take-le n (t ∷ ts)),
  pieces_of-IsWithin n fuel change (drop n (t ∷ ts)) h,
)

cut_up-IsWithin :
    (n : ℕ) (change : List String → PlanChange) (ts : List String)
    → ((us : List String) → length us ≤ n → IsWithin n (change us))
    → All (IsWithin n) (cut_up n change ts)
cut_up-IsWithin n change ts h =
    if_cases (All (IsWithin n)) (leb (length ts) n) (λ fits. (h ts (ground arith), tt))
      (λ _. pieces_of-IsWithin n (length ts) change ts h)

split_within-IsWithin : (n : ℕ) (c : PlanChange) → All (IsWithin n) (split_within n c)
split_within-IsWithin n (remove_group group_id) = (tt, tt)
split_within-IsWithin n (add_group group) =
    if_cases (All (IsWithin n)) (leb (length group.tickers) n) (λ fits. (ground arith, tt))
      (λ _. (
        length-take-le n group.tickers,
        cut_up-IsWithin n (add_markets group.group_id) (drop n group.tickers) (λ us h. h),
      ))
split_within-IsWithin n (add_markets group_id ts) =
    cut_up-IsWithin n (add_markets group_id) ts (λ us h. h)
split_within-IsWithin n (remove_markets group_id ts) =
    cut_up-IsWithin n (remove_markets group_id) ts (λ us h. h)

added-InParts : InParts added
added-InParts = record { in_turn = added-append; at_none = added-none }

dropped-InParts : InParts dropped
dropped-InParts = record { in_turn = dropped-append; at_none = dropped-none }

if_act-take :
    (b : Bool) (n : ℕ) (ts : List String) (now : Option (List String))
    → if_act added b (drop n ts) (if b then some (take n ts) else now)
      ≡ (if b then some ts else now)
if_act-take true n ts now = ap some (take-append-drop n ts)
if_act-take false n ts now = refl

split_within-same :
    (n : ℕ) (c : PlanChange) (group_id : String) (now : Option (List String))
    → 0 < n
    → after_all group_id (split_within n c) now ≡ after_change group_id c now
split_within-same n (remove_group other) group_id now h = refl
split_within-same n (add_markets other ts) group_id now h =
    after_all-cut_up added-InParts (add_markets other) other group_id (λ _ _. refl) n ts now h
split_within-same n (remove_markets other ts) group_id now h =
    after_all-cut_up dropped-InParts (remove_markets other) other group_id (λ _ _. refl) n ts now h
split_within-same n (add_group group) group_id now h =
    if_cases (λ cs. after_all group_id cs now ≡ after_change group_id (add_group group) now)
      (leb (length group.tickers) n) (λ _. refl)
      (λ _.
        after_all-cut_up added-InParts (add_markets group.group_id) group.group_id group_id
          (λ _ _. refl) n (drop n group.tickers)
          (after_change group_id (add_group (record group { tickers = take n group.tickers })) now)
          h
        ∙ if_act-take (string_eq.beq group.group_id group_id) n group.tickers now)

-- With a limit of at least one a change is cut into pieces that name at most that many markets each,
-- and applying the pieces in order does to the markets of every group, subscribed or not, what the
-- change does.
pub split_change-IsWithin :
    (max_markets : ℕ) (c : PlanChange)
    → 0 < max_markets
    → (cs : List PlanChange) × (split_change max_markets c ≡ ok cs)
      × All (IsWithin max_markets) cs
      × ((group_id : String) (now : Option (List String))
          → after_all group_id cs now ≡ after_change group_id c now)
unfolding split_change
split_change-IsWithin max_markets c h = (
  split_within max_markets c,
  ground arith,
  split_within-IsWithin max_markets c,
  λ group_id now. split_within-same max_markets c group_id now h,
)
