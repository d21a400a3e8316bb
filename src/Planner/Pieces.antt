-- ===== src/Planner/Pieces.antt =====
-- The effect of a change on one group, and the pieces of a list of tickers.
use kalshi_trading_project.Prelude.{
  ℕ, zero, suc, ◌≤◌, ◌<◌, ◌≡◌, refl, ap, ◌∙◌, arith, true, Option, none, some, List, [], ◌∷◌, ◌++◌,
  length, take, drop, take-append-drop, if◌then◌else◌,
}
use kalshi_trading_project.Prelude.Eq.{string_eq}
use kalshi_trading_project.Planner.{
  PlanChange, add_group, remove_group, add_markets, remove_markets, pieces_of, is_member, without,
}
use Prim.Native.String.{String}

abbrev pub added : List String → Option (List String) → Option (List String)
added tickers none = none
added tickers (some ts) = some (ts ++ tickers)

abbrev pub dropped : List String → Option (List String) → Option (List String)
dropped tickers none = none
dropped tickers (some ts) = some (without ts tickers)

-- What a change does to the market set of one group: none when the group is not subscribed. Members
-- that are added stand after the others.
abbrev pub after_change : String → PlanChange → Option (List String) → Option (List String)
after_change group_id (add_group group) now =
    if string_eq.beq group.group_id group_id then some group.tickers else now
after_change group_id (remove_group other) now = if string_eq.beq other group_id then none else now
after_change group_id (add_markets other tickers) now =
    if string_eq.beq other group_id then added tickers now else now
after_change group_id (remove_markets other tickers) now =
    if string_eq.beq other group_id then dropped tickers now else now

abbrev pub after_all : String → List PlanChange → Option (List String) → Option (List String)
after_all group_id [] now = now
after_all group_id (c ∷ cs) now = after_all group_id cs (after_change group_id c now)

-- No more markets are named than one command may carry.
abbrev pub IsWithin : ℕ → PlanChange → Type 0
IsWithin max_markets (add_group group) = length group.tickers ≤ max_markets
IsWithin max_markets (remove_group group_id) = Unit
IsWithin max_markets (add_markets group_id tickers) = length tickers ≤ max_markets
IsWithin max_markets (remove_markets group_id tickers) = length tickers ≤ max_markets

abbrev pub joined : List (List String) → List String
joined [] = []
joined (p ∷ ps) = p ++ joined ps

pub length-take-le : (n : ℕ) (ts : List String) → length (take n ts) ≤ n
length-take-le zero ts = ground arith
length-take-le (suc n) [] = ground arith
length-take-le (suc n) (t ∷ ts) = ground (arith, length-take-le n ts)

pub length-drop-le : (n : ℕ) (ts : List String) → length (drop n ts) ≤ length ts
length-drop-le zero ts = ground arith
length-drop-le (suc n) [] = ground arith
length-drop-le (suc n) (t ∷ ts) = ground (arith, length-drop-le n ts)

pub length-drop-lt :
    (n : ℕ) (t : String) (ts : List String) → 0 < n → length (drop n (t ∷ ts)) ≤ length ts
length-drop-lt zero t ts h = ground arith
length-drop-lt (suc n) t ts h = length-drop-le n ts

pub joined-pieces_of :
    (fuel n : ℕ) (ts : List String) → 0 < n → length ts ≤ fuel → joined (pieces_of fuel n ts) ≡ ts
joined-pieces_of zero n [] h k = refl
joined-pieces_of zero n (t ∷ ts) h k = ground arith
joined-pieces_of (suc fuel) n [] h k = refl
joined-pieces_of (suc fuel) n (t ∷ ts) h k =
    ap (λ rest. take n (t ∷ ts) ++ rest)
      (joined-pieces_of fuel n (drop n (t ∷ ts)) h (omega (arith, length-drop-lt n t ts h, k)))
    ∙ take-append-drop n (t ∷ ts)

pub append_assoc : (a b c : List String) → (a ++ b) ++ c ≡ a ++ (b ++ c)
append_assoc [] b c = refl
append_assoc (t ∷ a) b c = ap (λ rest. t ∷ rest) (append_assoc a b c)

pub added-append :
    (p rest : List String) (now : Option (List String))
    → added rest (added p now) ≡ added (p ++ rest) now
added-append p rest none = refl
added-append p rest (some ts) = ap some (append_assoc ts p rest)

pub is_member-append :
    (t : String) (p rest : List String)
    → is_member t (p ++ rest) ≡ (if is_member t p then true else is_member t rest)
is_member-append t [] rest = refl
is_member-append t (u ∷ p) rest = ground (arith, is_member-append t p rest)

pub append_none : (ts : List String) → ts ++ [] ≡ ts
append_none [] = refl
append_none (t ∷ ts) = ap (λ rest. t ∷ rest) (append_none ts)

pub without_none : (ts : List String) → without ts [] ≡ ts
without_none [] = refl
without_none (t ∷ ts) = ap (λ rest. t ∷ rest) (without_none ts)

pub without-append :
    (ts p rest : List String) → without (without ts p) rest ≡ without ts (p ++ rest)
without-append [] p rest = refl
without-append (t ∷ ts) p rest = ground (arith, is_member-append t p rest, without-append ts p rest)

pub dropped-append :
    (p rest : List String) (now : Option (List String))
    → dropped rest (dropped p now) ≡ dropped (p ++ rest) now
dropped-append p rest none = refl
dropped-append p rest (some ts) = ap some (without-append ts p rest)

pub added-none : (now : Option (List String)) → added [] now ≡ now
added-none none = refl
added-none (some ts) = ap some (append_none ts)

pub dropped-none : (now : Option (List String)) → dropped [] now ≡ now
dropped-none none = refl
dropped-none (some ts) = ap some (without_none ts)
