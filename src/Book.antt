-- ===== src/Book.antt =====
-- src/tape/book/book.py: the state of `Book` and the methods that change it. A method that may
-- raise `BookInvariantError` returns its outcome beside the book, since the error path writes too.
pub mod Best
pub mod Sides
pub mod Invariant
pub mod Calls
pub mod Snapshots
pub mod Deltas
pub mod Keyframe
pub mod Views
pub mod Copies
pub mod Compare
mod Tests
use kalshi_trading_project.Prelude.{
  ℕ, zero, suc, ◌+◌, Bool, true, false, Option, none, some, List, [], ◌∷◌, ltb, leb, if◌then◌else◌,
  ◌==◌,
}
use kalshi_trading_project.Prelude.Int.{ℤ, pos, negsuc, ◌+ℤ◌}
use kalshi_trading_project.Prelude.Eq.{nat_eq}
use kalshi_trading_project.Prelude.Result.{Result, ok, err, ◌>>=◌}
use kalshi_trading_project.Prelude.Dict.{Dict, lookup, put, remove, or_else, has}
use Prim.Native.String.{String}
use kalshi_trading_project.Events.{Side, bid, ask, Level}

pub record Book : Type 0 where
  pub ticker : String
  pub bids : Dict ℕ ℕ
  pub asks : Dict ℕ ℕ
  pub best_bid : Option ℕ
  pub best_ask : Option ℕ
  pub stale : Bool
  pub last_ts_ms : Option ℕ

-- The cases of `BookInvariantError`.
pub data Violation : Type 0 where
  non_positive_count duplicate_price : Side → ℕ → Violation
  crossed_snapshot : Violation
  negative_level : Side → ℕ → Violation
  crossed_after_delta : Violation

abbrev pub new_book : String → Book
new_book ticker = record {
  ticker = ticker;
  bids = [];
  asks = [];
  best_bid = none;
  best_ask = none;
  stale = true;
  last_ts_ms = none;
}

abbrev pub levels_of : Side → Book → Dict ℕ ℕ
levels_of bid b = b.bids
levels_of ask b = b.asks

abbrev pub best_of : Side → Book → Option ℕ
best_of bid b = b.best_bid
best_of ask b = b.best_ask

abbrev pub with_levels : Side → Dict ℕ ℕ → Book → Book
with_levels bid d b = record b { bids = d }
with_levels ask d b = record b { asks = d }

abbrev pub with_best : Side → Option ℕ → Book → Book
with_best bid p b = record b { best_bid = p }
with_best ask p b = record b { best_ask = p }

-- price > best on the bid side, price < best on the ask side
abbrev pub better : Side → ℕ → ℕ → Bool
better bid p q = ltb q p
better ask p q = ltb p q

unfoldable pub best_from : Side → ℕ → Dict ℕ ℕ → ℕ
best_from side p [] = p
best_from side p ((q, _) ∷ d) = best_from side (if better side q p then q else p) d

-- max(d) if d else None, and min(d) if d else None
unfoldable pub best_key : Side → Dict ℕ ℕ → Option ℕ
best_key side [] = none
best_key side ((p, _) ∷ d) = some (best_from side p d)

-- best_bid is not None and best_ask is not None and best_bid >= best_ask
abbrev pub is_crossed : Option ℕ → Option ℕ → Bool
is_crossed none a = false
is_crossed (some b) none = false
is_crossed (some b) (some a) = leb a b

unfoldable pub collect : Side → Dict ℕ ℕ → List Level → Result Violation (Dict ℕ ℕ)
collect side out [] = ok out
collect side out (l ∷ ls) =
    let rest = collect side (put l.price l.count out) ls in
    if leb l.count 0
    then err (non_positive_count side l.price)
    else if has (lookup l.price out)
    then err (duplicate_price side l.price)
    else rest

unfoldable pub mark_stale : Book → Book
mark_stale b = record b { stale = true }

abbrev pub replaced : Dict ℕ ℕ → Dict ℕ ℕ → Option ℕ → Book → Book
replaced bids asks ts_ms b = record b {
  bids = bids;
  asks = asks;
  best_bid = best_key bid bids;
  best_ask = best_key ask asks;
  stale = false;
  last_ts_ms = ts_ms;
}

unfoldable pub new_image : List Level → List Level → Option ℕ → Book → Result Violation Book
new_image bids asks ts_ms b = do
  new_bids ← collect bid [] bids
  new_asks ← collect ask [] asks
  if is_crossed (best_key bid new_bids) (best_key ask new_asks)
      then err crossed_snapshot
      else ok (replaced new_bids new_asks ts_ms b)

unfoldable pub apply_snapshot :
    List Level → List Level → Option ℕ → Book → Result Violation (Unit {0}) × Book
unfolding mark_stale
apply_snapshot bids asks ts_ms b = elim (new_image bids asks ts_ms b) [
  | ok b' ↦ (ok tt, b')
  | err v ↦ (err v, mark_stale b)
]

unfoldable pub raise_best_if_better : Side → ℕ → Book → Book
raise_best_if_better side price b = elim (best_of side b) [
  | none ↦ with_best side (some price) b
  | some p ↦ if better side price p then with_best side (some price) b else b
]

unfoldable pub drop_best_if_removed : Side → ℕ → Book → Book
drop_best_if_removed side price b = elim (best_of side b) [
  | none ↦ b
  | some p ↦ if p == price then with_best side (best_key side (levels_of side b)) b else b
]

-- The level's new count, stored or removed, and the cached best price of its side.
unfoldable pub store_level : Side → ℕ → ℕ → Book → Book
unfolding raise_best_if_better drop_best_if_removed
store_level side price zero b =
    drop_best_if_removed side price (with_levels side (remove price (levels_of side b)) b)
store_level side price (suc n) b =
    raise_best_if_better side price (with_levels side (put price (suc n) (levels_of side b)) b)

abbrev pub touch : Option ℕ → Book → Book
touch none b = b
touch (some t) b = record b { last_ts_ms = some t }

-- The checks after the level was stored.
unfoldable pub finish_delta : Option ℕ → Book → Result Violation Bool × Book
unfolding mark_stale
finish_delta ts_ms b =
    if is_crossed b.best_bid b.best_ask
    then (err crossed_after_delta, mark_stale b)
    else (ok true, touch ts_ms b)

unfoldable pub settle_delta : Side → ℕ → ℤ → Option ℕ → Book → Result Violation Bool × Book
unfolding mark_stale
settle_delta side price (negsuc n) ts_ms b = (err (negative_level side price), mark_stale b)
settle_delta side price (pos n) ts_ms b = finish_delta ts_ms (store_level side price n b)

-- self._bids.get(price, 0)
abbrev pub count_at : ℕ → Dict ℕ ℕ → ℕ
count_at price d = or_else (lookup price d) 0

unfoldable pub size_at : Side → ℕ → Book → ℕ
size_at side price b = count_at price (levels_of side b)

unfoldable pub apply_delta : Side → ℕ → ℤ → Option ℕ → Book → Result Violation Bool × Book
apply_delta side price delta ts_ms b =
    if b.stale
    then (ok false, b)
    else settle_delta side price (pos (count_at price (levels_of side b)) +ℤ delta) ts_ms b
