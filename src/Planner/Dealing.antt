-- ===== src/Planner/Dealing.antt =====
-- Dealing markets out to connections: src/tape/recorder/planner.py `_fill`.
use kalshi_trading_project.Prelude.{
  ℕ, ◌+◌, ◌≤◌, ◌<◌, ◌≡◌, refl, ap, ◌∙◌, ◌⊎◌, inl, inr, ◌==◌, ◌&&◌, ltb, true, Option, none, some,
  List, [], ◌∷◌, ◌++◌, length, length-append, arith, if◌then◌else◌, if_cases, Bool-cases,
}
use mathlib.Core.Path.{subst}
use kalshi_trading_project.Prelude.Eq.{nat_eq, string_eq}
use kalshi_trading_project.Prelude.Dict.{Dict, lookup, or_else, IsDistinct}
use kalshi_trading_project.Prelude.DictLaws.{lookup-put}
use Prim.Native.String.{String}
use kalshi_trading_project.Planner.{is_member}
use kalshi_trading_project.Planner.Pieces.{is_member-append}
use kalshi_trading_project.Planner.Deal.{
  Members, members_at, is_before, least_of, pop_least, pushed_back, give, fill,
}

-- A least entry of a heap with what is left.
record IsPopped (room : Dict ℕ ℕ) (c load : ℕ) (rest : Dict ℕ ℕ) : Type 0 where
  at : lookup c room ≡ some load
  distinct : IsDistinct rest
  others : (d : ℕ) → lookup d rest ≡ (if c == d then none else lookup d room)
  least : (d l : ℕ) → lookup d room ≡ some l → load ≤ l

abbrev IsPop : Dict ℕ ℕ → Option ((ℕ × ℕ) × Dict ℕ ℕ) → Type 0
IsPop room none = room ≡ []
IsPop room (some ((c, load), rest)) = IsPopped room c load rest

least_of-IsPop :
    (c load : ℕ) (room : Dict ℕ ℕ) (o : Option ((ℕ × ℕ) × Dict ℕ ℕ))
    → IsDistinct ((c, load) ∷ room)
    → IsPop room o
    → IsPop ((c, load) ∷ room) (some (least_of (c, load) o))
unfolding lookup
least_of-IsPop c load room none h e = record {
  at = ground arith;
  distinct = tt;
  others = λ d. rw e (ground arith);
  least = λ d l k. ground (arith, subst (λ r. lookup d ((c, load) ∷ r) ≡ some l) e k);
}
least_of-IsPop c load room (some ((c', l'), rest)) h p =
    if_cases (λ x. IsPop ((c, load) ∷ room) (some x)) (is_before (c', l') (c, load))
      (λ e. record {
        at = ground (arith, p.at, h.0);
        distinct = (ground (arith, p.others c, h.0), p.distinct);
        others = λ d. ground (arith, p.others d, p.at, h.0);
        least = λ d l k. ground (arith, p.least d l);
      })
      (λ e. record {
        at = ground arith;
        distinct = (ground (arith, p.others c'), p.distinct);
        others = λ d. ground (arith, p.others d, p.at, h.0);
        least = λ d l k. ground (arith, p.least d l);
      })

pop_least-IsPop : (room : Dict ℕ ℕ) → IsDistinct room → IsPop room (pop_least room)
unfolding pop_least lookup
pop_least-IsPop [] h = refl
pop_least-IsPop ((c, load) ∷ room) h =
    least_of-IsPop c load room (pop_least room) h (pop_least-IsPop room h.1)

members_at-give :
    (t : String) (c d : ℕ) (m : Members)
    → members_at d (give t c m) ≡ (if c == d then members_at c m ++ t ∷ [] else members_at d m)
unfolding members_at
members_at-give t c d m = ground (arith, lookup-put c d (or_else (lookup c m) [] ++ t ∷ []) m)

length-give :
    (t : String) (c d : ℕ) (m : Members)
    → length (members_at d (give t c m))
      ≡ (if c == d then length (members_at c m) + 1 else length (members_at d m))
length-give t c d m =
    ap length (members_at-give t c d m)
    ∙ if_cases
        (λ ts.
          length ts ≡ (if c == d then length (members_at c m) + 1 else length (members_at d m)))
        (c == d) (λ e. rw e (length-append (members_at c m) (t ∷ []))) (λ e. rw e refl)

-- The heap has exactly the connections with room, with their loads.
pub record IsRoom (cap max_connections : ℕ) (m : Members) (room : Dict ℕ ℕ) : Type 0 where
  pub distinct : IsDistinct room
  pub loads :
      (c : ℕ)
      → lookup c room ≡ (
          if ltb c max_connections && ltb (length (members_at c m)) cap
          then some (length (members_at c m))
          else none)

-- The entry that was popped is a connection with room, no fuller than the others with room.
module _ (cap max_connections : ℕ) (m : Members) (room : Dict ℕ ℕ)
    (h : IsRoom cap max_connections m room) (c load : ℕ) (rest : Dict ℕ ℕ)
    (p : IsPopped room c load rest) where
  popped-load : (c < max_connections) × (load < cap) × (load ≡ length (members_at c m))
  popped-load = ground (arith, p.at, h.loads c)

  popped-least :
      (d : ℕ)
      → d < max_connections
      → length (members_at d m) < cap
      → length (members_at c m) ≤ length (members_at d m)
  popped-least d i j = ground (arith, popped-load, p.least d (length (members_at d m)), h.loads d)

  pushed_back-IsRoom :
      (t : String) → IsRoom cap max_connections (give t c m) (pushed_back cap c load rest)
  unfolding lookup
  pushed_back-IsRoom t =
      if_cases (IsRoom cap max_connections (give t c m)) (ltb (load + 1) cap)
        (λ e. record {
          distinct = (ground (arith, p.others c), p.distinct);
          loads = λ d. ground (arith, length-give t c d m, p.others d, h.loads d, popped-load);
        })
        (λ e. record {
          distinct = p.distinct;
          loads = λ d. ground (arith, length-give t c d m, p.others d, h.loads d, popped-load);
        })

-- What dealing some tickers does to the members.
pub record IsFilled (cap max_connections : ℕ) (m : Members) (ts : List String) (m' : Members)
    : Type 0 where
  pub capped : (c : ℕ) → length (members_at c m) ≤ cap → length (members_at c m') ≤ cap
  pub bounded : (c : ℕ) → max_connections ≤ c → members_at c m' ≡ members_at c m
  pub kept :
      (t : String) (c : ℕ)
      → is_member t (members_at c m) ≡ true
      → is_member t (members_at c m') ≡ true
  pub only :
      (t : String) (c : ℕ)
      → is_member t (members_at c m') ≡ true
      → (is_member t (members_at c m) ≡ true) ⊎ (is_member t ts ≡ true)
  pub even :
      ((c d : ℕ)
        → c < max_connections
        → d < max_connections
        → length (members_at c m) ≤ length (members_at d m) + 1)
      → (c d : ℕ) → c < max_connections
      → d < max_connections
      → length (members_at c m') ≤ length (members_at d m') + 1
  pub placed :
      ((t : String) → is_member t ts ≡ true → (c : ℕ) × (is_member t (members_at c m') ≡ true))
      ⊎ ((c : ℕ) → c < max_connections → cap ≤ length (members_at c m'))

unfilled :
    (cap max_connections : ℕ) (m : Members) (ts : List String)
    → ((t : String) → is_member t ts ≡ true → (c : ℕ) × (is_member t (members_at c m) ≡ true))
      ⊎ ((c : ℕ) → c < max_connections → cap ≤ length (members_at c m))
    → IsFilled cap max_connections m ts m
unfilled cap max_connections m ts h = record {
  capped = λ c k. k;
  bounded = λ c k. refl;
  kept = λ t c k. k;
  only = λ t c k. inl k;
  even = λ k. k;
  placed = h;
}

module _ (cap max_connections : ℕ) (m : Members) (t : String) (c : ℕ) (inside : c < max_connections)
    (below : length (members_at c m) < cap)
    (least : (d : ℕ)
      → d < max_connections
      → length (members_at d m) < cap
      → length (members_at c m) ≤ length (members_at d m)) where
  given-member :
      (u : String) (d : ℕ)
      → is_member u (members_at d (give t c m)) ≡ (
          if c == d
          then (if is_member u (members_at c m) then true else is_member u (t ∷ []))
          else is_member u (members_at d m))
  given-member u d =
      ap (is_member u) (members_at-give t c d m)
      ∙ if_cases
          (λ ts. is_member u ts ≡ (
            if c == d
            then (if is_member u (members_at c m) then true else is_member u (t ∷ []))
            else is_member u (members_at d m)))
          (c == d) (λ e. rw e (is_member-append u (members_at c m) (t ∷ []))) (λ e. rw e refl)

  give-IsFilled :
      (ts : List String) (m' : Members)
      → IsFilled cap max_connections (give t c m) ts m'
      → IsFilled cap max_connections m (t ∷ ts) m'
  give-IsFilled ts m' f = record {
    capped = λ d k. f.capped d (ground (arith, length-give t c d m, below));
    bounded = λ d k. f.bounded d k ∙ members_at-give t c d m ∙ ground arith;
    kept = λ u d k. f.kept u d (ground (arith, given-member u d));
    only = λ u d k. only_given u d (f.only u d k);
    even = λ k. f.even (λ d e i j.
        ground
          (arith, length-give t c d m, length-give t c e m, k d e i j, k c e, k d c, least e j));
    placed = placed_given f.placed;
  }
    where
      only_given :
          (u : String) (d : ℕ)
          → (is_member u (members_at d (give t c m)) ≡ true) ⊎ (is_member u ts ≡ true)
          → (is_member u (members_at d m) ≡ true) ⊎ (is_member u (t ∷ ts) ≡ true)
      only_given u d (inr e) = inr (ground arith)
      only_given u d (inl e) = elim (Bool-cases (is_member u (members_at d m))) [
        | inl k ↦ inl k
        | inr k ↦ inr (ground (arith, given-member u d))
      ]

      placed_given :
          ((u : String) → is_member u ts ≡ true → (d : ℕ) × (is_member u (members_at d m') ≡ true))
            ⊎ ((d : ℕ) → d < max_connections → cap ≤ length (members_at d m'))
          → ((u : String)
              → is_member u (t ∷ ts) ≡ true
              → (d : ℕ) × (is_member u (members_at d m') ≡ true))
            ⊎ ((d : ℕ) → d < max_connections → cap ≤ length (members_at d m'))
      placed_given (inr full) = inr full
      placed_given (inl all) = inl (λ u e. elim (Bool-cases (string_eq.beq t u)) [
        | inl k ↦ (c, f.kept u c (ground (arith, given-member u c)))
        | inr k ↦ all u (ground arith)
      ])

empty-full :
    (cap max_connections : ℕ) (m : Members) (room : Dict ℕ ℕ)
    → IsRoom cap max_connections m room
    → room ≡ []
    → (c : ℕ) → c < max_connections
    → cap ≤ length (members_at c m)
unfolding lookup
empty-full cap max_connections m room h e c i = ground (arith, h.loads c, ap (lookup c) e)

-- Dealing from a heap that has the connections with room: nobody is moved, nothing else is placed, no
-- connection goes over the cap, the loads stay within one of each other if they were, and
-- all the tickers are placed unless every connection is full.
pub fill-IsFilled :
    (cap max_connections : ℕ) (ts : List String) (room : Dict ℕ ℕ) (m : Members)
    → IsRoom cap max_connections m room
    → IsFilled cap max_connections m ts (fill cap ts room m)
unfolding fill
fill-IsFilled cap max_connections [] room m h =
    unfilled cap max_connections m [] (inl (λ t e. ground arith))
fill-IsFilled cap max_connections (t ∷ ts) room m h =
    go (fill-IsFilled cap max_connections ts) (pop_least room) (pop_least-IsPop room h.distinct)
  where
    go :
        ((room' : Dict ℕ ℕ) (m' : Members)
          → IsRoom cap max_connections m' room'
          → IsFilled cap max_connections m' ts (fill cap ts room' m'))
        → (o : Option ((ℕ × ℕ) × Dict ℕ ℕ)) → IsPop room o
        → IsFilled cap max_connections m (t ∷ ts) (elim o [
          | none ↦ m
          | some popped ↦
              fill cap ts (pushed_back cap popped.0.0 popped.0.1 popped.1) (give t popped.0.0 m)
        ])
    go rest none e =
        unfilled cap max_connections m (t ∷ ts) (inr (empty-full cap max_connections m room h e))
    go rest (some ((c, load), left)) p =
        let (inside, below, same) = popped-load cap max_connections m room h c load left p in
        give-IsFilled cap max_connections m t c inside (ground arith)
          (popped-least cap max_connections m room h c load left p) ts _
          (rest (pushed_back cap c load left) (give t c m)
            (pushed_back-IsRoom cap max_connections m room h c load left p t))
