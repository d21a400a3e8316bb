-- ===== src/Book/Calls.antt =====
-- Sequences of calls on one book.
use kalshi_trading_project.Prelude.{ℕ, Option, List, [], ◌∷◌}
use kalshi_trading_project.Prelude.Int.{ℤ}
use kalshi_trading_project.Events.{Side, Level}
use kalshi_trading_project.Book.{Book, mark_stale, apply_snapshot, apply_delta, new_book}
use kalshi_trading_project.Book.Invariant.{
  IsWellFormed, new_book-IsWellFormed, mark_stale-IsWellFormed, apply_snapshot-IsWellFormed,
  apply_delta-IsWellFormed,
}
use Prim.Native.String.{String}

-- The calls that change a book.
pub data Call : Type 0 where
  snapshot : List Level → List Level → Option ℕ → Call
  delta : Side → ℕ → ℤ → Option ℕ → Call
  stale_mark : Call

unfoldable pub step : Book → Call → Book
step b (snapshot ls ms ts_ms) = (apply_snapshot ls ms ts_ms b).1
step b (delta s price d ts_ms) = (apply_delta s price d ts_ms b).1
step b stale_mark = mark_stale b

unfoldable pub run : Book → List Call → Book
run b [] = b
run b (c ∷ cs) = run (step b c) cs

step-IsWellFormed : (b : Book) (c : Call) → IsWellFormed b → IsWellFormed (step b c)
unfolding step
step-IsWellFormed b (snapshot ls ms ts_ms) h = apply_snapshot-IsWellFormed ls ms ts_ms b h
step-IsWellFormed b (delta s price d ts_ms) h = apply_delta-IsWellFormed s price d ts_ms b h
step-IsWellFormed b stale_mark h = mark_stale-IsWellFormed h

pub run-IsWellFormed : (b : Book) (cs : List Call) → IsWellFormed b → IsWellFormed (run b cs)
unfolding run
run-IsWellFormed b [] h = h
run-IsWellFormed b (c ∷ cs) h = run-IsWellFormed (step b c) cs (step-IsWellFormed b c h)

-- After any calls on a new book, whatever they raised: on each side the prices are distinct, every
-- count is positive, and the cached best price is the best price there is (none on an empty side);
-- and unless the book is stale every bid price is below every ask price.
pub run-new_book-IsWellFormed :
    (ticker : String) (cs : List Call) → IsWellFormed (run (new_book ticker) cs)
run-new_book-IsWellFormed ticker cs = run-IsWellFormed _ cs (new_book-IsWellFormed ticker)
