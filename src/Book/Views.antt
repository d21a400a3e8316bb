-- ===== src/Book/Views.antt =====
-- src/tape/book/book.py: the queries. `sorted` on (price, count) pairs is an insertion sort.
pub mod Ladder
use kalshi_trading_project.Prelude.{
  ℕ, ◌≡◌, Bool, Option, none, some, List, [], ◌∷◌, ◌||◌, ◌&&◌, ltb, ◌==◌, take, if◌then◌else◌,
  length,
}
use kalshi_trading_project.Prelude.Eq.{nat_eq}
use kalshi_trading_project.Prelude.Dict.{Dict, lookup, or_else}
use kalshi_trading_project.Events.{Side, bid, ask, Level}
use kalshi_trading_project.Book.{Book, levels_of, best_of, better}

-- The order of the pairs: ascending for the asks, and reversed for the bids.
abbrev pub precedes : Side → Level → Level → Bool
precedes bid l m = ltb m.price l.price || (l.price == m.price && ltb m.count l.count)
precedes ask l m = ltb l.price m.price || (l.price == m.price && ltb l.count m.count)

unfoldable pub insert_level : Side → Level → List Level → List Level
insert_level s l [] = l ∷ []
insert_level s l (m ∷ ms) = if precedes s m l then m ∷ insert_level s l ms else l ∷ m ∷ ms

unfoldable pub sort_levels : Side → Dict ℕ ℕ → List Level
sort_levels s [] = []
sort_levels s ((p, c) ∷ d) = insert_level s (record { price = p; count = c }) (sort_levels s d)

unfoldable pub levels : Side → Book → List Level
levels s b = sort_levels s (levels_of s b)

unfoldable pub depth : Side → ℕ → Book → List Level
depth s n b = take n (levels s b)

unfoldable pub level_count : Side → Book → ℕ
level_count s b = length (levels_of s b)

-- A cached price with its count. A missing key is a `KeyError`, `none` inside `some`.
abbrev pub read_level : Option ℕ → Dict ℕ ℕ → Option (Option Level)
read_level none d = none
read_level (some p) d =
    some (elim (lookup p d) [ none ↦ none | some c ↦ some (record { price = p; count = c }) ])

-- best_bid() and best_ask()
unfoldable pub best_level : Side → Book → Option (Option Level)
best_level s b = read_level (best_of s b) (levels_of s b)
