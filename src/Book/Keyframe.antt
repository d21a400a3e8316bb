-- ===== src/Book/Keyframe.antt =====
-- src/tape/book/book.py: the rows of a keyframe, and the books rebuilt from them.
mod Rows
mod Groups
mod OneBook
pub mod RoundTrip
use kalshi_trading_project.Prelude.{
  ℕ, Bool, true, false, Option, none, some, List, [], ◌∷◌, ◌++◌, map, if◌then◌else◌, ◌==◌,
}
use kalshi_trading_project.Prelude.Int.{ℤ, pos, negsuc}
use kalshi_trading_project.Prelude.Eq.{string_eq}
use kalshi_trading_project.Prelude.Result.{Result, ok, err, ◌>>=◌}
use kalshi_trading_project.Prelude.Dict.{Dict, lookup, put, or_else}
use Prim.Native.String.{String}
use kalshi_trading_project.Events.{Side, bid, ask, Level}
use kalshi_trading_project.Book.{Book, Violation, new_book, mark_stale, apply_snapshot}

pub record KeyframeRow : Type 0 where
  pub ticker : String
  pub side : ℤ
  pub price_e4 : ℕ
  pub count_e2 : ℕ
  pub as_of_recv_ns : ℕ
  pub last_ts_ms : Option ℕ
  pub stale : Bool

-- int(Side.BID), int(Side.ASK)
abbrev pub side_code : Side → ℤ
side_code bid = pos 0
side_code ask = pos 1

abbrev pub empty_side : ℤ
empty_side = negsuc 0

-- r.side == int(side)
abbrev pub is_side : Side → ℤ → Bool
is_side bid (pos n) = n == 0
is_side ask (pos n) = n == 1
is_side bid (negsuc n) = false
is_side ask (negsuc n) = false

module _ (as_of_recv_ns : ℕ) (b : Book) where
  abbrev pub row : ℤ → ℕ → ℕ → KeyframeRow
  row side price count = record {
    ticker = b.ticker;
    side = side;
    price_e4 = price;
    count_e2 = count;
    as_of_recv_ns = as_of_recv_ns;
    last_ts_ms = b.last_ts_ms;
    stale = b.stale;
  }

  abbrev pub side_rows : Side → Dict ℕ ℕ → List KeyframeRow
  side_rows s [] = []
  side_rows s ((p, c) ∷ d) = row (side_code s) p c ∷ side_rows s d

  abbrev pub or_empty_row : List KeyframeRow → List KeyframeRow
  or_empty_row [] = row empty_side 0 0 ∷ []
  or_empty_row (r ∷ rs) = r ∷ rs

  unfoldable pub to_keyframe : List KeyframeRow
  to_keyframe = or_empty_row (side_rows bid b.bids ++ side_rows ask b.asks)

-- grouped.setdefault(row.ticker, []).append(row)
unfoldable pub group_rows :
    Dict String (List KeyframeRow) → List KeyframeRow → Dict String (List KeyframeRow)
group_rows grouped [] = grouped
group_rows grouped (r ∷ rs) =
    group_rows (put r.ticker (or_else (lookup r.ticker grouped) [] ++ r ∷ []) grouped) rs

unfoldable pub side_levels : Side → List KeyframeRow → List Level
side_levels s [] = []
side_levels s (r ∷ rs) =
    if is_side s r.side
    then record { price = r.price_e4; count = r.count_e2 } ∷ side_levels s rs
    else side_levels s rs

abbrev pub marked_if : Bool → Book → Book
marked_if true b = mark_stale b
marked_if false b = b

abbrev pub rebuilt : KeyframeRow → Result Violation (Unit {0}) × Book → Result Violation Book
rebuilt first (ok u, b) = ok (marked_if first.stale b)
rebuilt first (err v, b) = err v

-- One ticker's book. A group of rows is never empty: `first` is its first row.
unfoldable pub book_of_rows : String → KeyframeRow → List KeyframeRow → Result Violation Book
book_of_rows ticker first rows = rebuilt first (
    apply_snapshot (side_levels bid rows) (side_levels ask rows) first.last_ts_ms (new_book ticker))

unfoldable pub books_of_groups :
    Dict String (List KeyframeRow) → Dict String Book → Result Violation (Dict String Book)
books_of_groups [] books = ok books
books_of_groups ((ticker, []) ∷ groups) books = books_of_groups groups books
books_of_groups ((ticker, first ∷ rows) ∷ groups) books = do
  b ← book_of_rows ticker first (first ∷ rows)
  books_of_groups groups (put ticker b books)

unfoldable pub books_from_keyframe_rows : List KeyframeRow → Result Violation (Dict String Book)
books_from_keyframe_rows rows = books_of_groups (group_rows [] rows) []
