-- ===== src/Book/Views/Ladder.antt =====
-- The levels of a side as a ladder, best first.
use kalshi_trading_project.Prelude.{
  ℕ, ◌≡◌, refl, true, Option, none, some, List, [], ◌∷◌, All, arith, ◌∙◌,
}
use kalshi_trading_project.Prelude.Eq.{nat_eq}
use kalshi_trading_project.Prelude.Dict.{Dict, lookup, has, IsDistinct}
use kalshi_trading_project.Events.{Side, bid, ask, Level}
use kalshi_trading_project.Book.{Book, levels_of, best_of, better}
use kalshi_trading_project.Book.Best.{IsBest}
use kalshi_trading_project.Book.Invariant.{IsWellFormed}
use kalshi_trading_project.Book.Snapshots.{listed}
use kalshi_trading_project.Book.Views.{insert_level, sort_levels, levels, best_level, read_level}

-- Strictly worse prices from each level to the next.
abbrev pub IsLadder : Side → List Level → Type 0
IsLadder s [] = Unit
IsLadder s (l ∷ ls) = All (λ m. better s l.price m.price ≡ true) ls × IsLadder s ls

listed-insert_level :
    (s : Side) (l : Level) (ls : List Level) (q : ℕ)
    → listed l.price ls ≡ none
    → listed q (insert_level s l ls) ≡ listed q (l ∷ ls)
unfolding listed insert_level
listed-insert_level s l [] q h = refl
listed-insert_level bid l (m ∷ ms) q h = ground (arith, listed-insert_level bid l ms q)
listed-insert_level ask l (m ∷ ms) q h = ground (arith, listed-insert_level ask l ms q)

pub listed-sort_levels :
    (s : Side) (d : Dict ℕ ℕ) (q : ℕ) → IsDistinct d → listed q (sort_levels s d) ≡ lookup q d
unfolding listed sort_levels lookup
listed-sort_levels s [] q h = refl
listed-sort_levels s ((p, c) ∷ d) q h =
    listed-insert_level s _ (sort_levels s d) q (listed-sort_levels s d p h.1 ∙ h.0)
    ∙ ground (arith, listed-sort_levels s d q h.1)

All-insert_level :
    (s t : Side) (p : ℕ) (l : Level) (ls : List Level)
    → better t p l.price ≡ true
    → All (λ m. better t p m.price ≡ true) ls
    → All (λ m. better t p m.price ≡ true) (insert_level s l ls)
unfolding insert_level
All-insert_level s t p l [] h k = (h, tt)
All-insert_level bid t p l (m ∷ ms) h k = ground (arith, All-insert_level bid t p l ms h k.1)
All-insert_level ask t p l (m ∷ ms) h k = ground (arith, All-insert_level ask t p l ms h k.1)

All-better_trans :
    (s : Side) (p q : ℕ) (ls : List Level)
    → better s p q ≡ true
    → All (λ (m : Level). better s q m.price ≡ true) ls
    → All (λ (m : Level). better s p m.price ≡ true) ls
All-better_trans s p q [] h k = tt
All-better_trans bid p q (m ∷ ms) h k = (ground arith, All-better_trans bid p q ms h k.1)
All-better_trans ask p q (m ∷ ms) h k = (ground arith, All-better_trans ask p q ms h k.1)

insert_level-IsLadder :
    (s : Side) (l : Level) (ls : List Level)
    → listed l.price ls ≡ none
    → IsLadder s ls
    → IsLadder s (insert_level s l ls)
unfolding insert_level listed
insert_level-IsLadder s l [] h k = (tt, tt)
insert_level-IsLadder bid l (m ∷ ms) h k = ground (
  arith,
  insert_level-IsLadder bid l ms,
  All-insert_level bid bid m.price l ms,
  All-better_trans bid l.price m.price ms,
)
insert_level-IsLadder ask l (m ∷ ms) h k = ground (
  arith,
  insert_level-IsLadder ask l ms,
  All-insert_level ask ask m.price l ms,
  All-better_trans ask l.price m.price ms,
)

sort_levels-IsLadder : (s : Side) (d : Dict ℕ ℕ) → IsDistinct d → IsLadder s (sort_levels s d)
unfolding sort_levels
sort_levels-IsLadder s [] h = tt
sort_levels-IsLadder s ((p, c) ∷ d) h =
    insert_level-IsLadder s _ (sort_levels s d) (listed-sort_levels s d p h.1 ∙ h.0)
      (sort_levels-IsLadder s d h.1)

pub better-listed :
    (s : Side) (p q : ℕ) (ls : List Level)
    → All (λ (m : Level). better s p m.price ≡ true) ls
    → has (listed q ls) ≡ true
    → better s p q ≡ true
unfolding listed
better-listed s p q [] h k = cc
better-listed bid p q (m ∷ ms) h k = ground (arith, better-listed bid p q ms h.1)
better-listed ask p q (m ∷ ms) h k = ground (arith, better-listed ask p q ms h.1)

head-IsBest :
    (s : Side) (best : Option ℕ) (d : Dict ℕ ℕ) (l : Level) (ls : List Level)
    → IsBest s best d
    → IsLadder s (l ∷ ls)
    → ((q : ℕ) → listed q (l ∷ ls) ≡ lookup q d)
    → best ≡ some l.price
unfolding listed
head-IsBest s none d l ls h k at = ground (arith, h l.price, at l.price)
head-IsBest bid (some b) d l ls h k at =
    ground (arith, at b, at l.price, h.1 l.price, better-listed bid l.price b ls k.0)
head-IsBest ask (some b) d l ls h k at =
    ground (arith, at b, at l.price, h.1 l.price, better-listed ask l.price b ls k.0)

-- The best level of a ladder.
abbrev pub top : List Level → Option (Option Level)
top [] = none
top (l ∷ ls) = some (some l)

read_level-top :
    (s : Side) (best : Option ℕ) (d : Dict ℕ ℕ) (ls : List Level)
    → IsBest s best d
    → IsLadder s ls
    → ((q : ℕ) → listed q ls ≡ lookup q d)
    → read_level best d ≡ top ls
unfolding listed
read_level-top s none d [] h k at = refl
read_level-top s (some b) d [] h k at = ground (arith, at b)
read_level-top s best d (l ∷ ls) h k at =
    rw (head-IsBest s best d l ls h k at) (ground (arith, at l.price))

-- On a well-formed book the levels of a side are its entries at strictly worsening prices, best
-- first, with the stored count at each price and no other price; and the cached best level is the
-- first of them, or absent when there is none.
pub levels-IsLadder :
    (s : Side) (b : Book)
    → IsWellFormed b
    → IsLadder s (levels s b)
      × ((q : ℕ) → listed q (levels s b) ≡ lookup q (levels_of s b))
      × (best_level s b ≡ top (levels s b))
unfolding levels best_level
levels-IsLadder s b h =
    let ladder = sort_levels-IsLadder s (levels_of s b) (h.sides s).0 in
    let at : (q : ℕ) → listed q (sort_levels s (levels_of s b)) ≡ lookup q (levels_of s b) =
      λ q. listed-sort_levels s (levels_of s b) q (h.sides s).0 in
    (ladder, at, read_level-top s (best_of s b) (levels_of s b) _ (h.sides s).2 ladder at)
