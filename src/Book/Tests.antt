-- ===== src/Book/Tests.antt =====
-- Runs of a book on concrete frames, and the theorems at them.
use kalshi_trading_project.Prelude.{
  ℕ, ◌≡◌, refl, true, false, ◌↔◌, none, some, List, [], ◌∷◌, ◌++◌, arith,
}
use kalshi_trading_project.Prelude.Int.{pos, negsuc, ◌+ℤ◌}
use kalshi_trading_project.Prelude.Eq.{nat_eq, string_eq}
use kalshi_trading_project.Prelude.Dict.{Dict, lookup, put, remove}
use kalshi_trading_project.Prelude.Result.{ok, err}
use Prim.Native.String.{String}
use kalshi_trading_project.Events.{Side, bid, ask, Level}
use kalshi_trading_project.Book.{
  Book, Violation, new_book, apply_snapshot, apply_delta, best_key, best_from, new_image, collect,
  settle_delta, store_level, finish_delta, size_at,
}
use kalshi_trading_project.Book.Copies.{AreSameLevels}
use kalshi_trading_project.Book.Compare.{BookDiff, diff, is_empty}
use kalshi_trading_project.Book.Compare.Differences.{difference_at, differing, AreOnce}
use kalshi_trading_project.Book.Compare.Exact.{diff-AreOnce}
use kalshi_trading_project.Book.Invariant.{IsWellFormed, IsUncrossed}
use kalshi_trading_project.Book.Calls.{Call, snapshot, delta, run, step, run-new_book-IsWellFormed}
use kalshi_trading_project.Book.Snapshots.{SnapshotOutcome, apply_snapshot-SnapshotOutcome}
use kalshi_trading_project.Book.Deltas.{DeltaOutcome, apply_delta-DeltaOutcome}
use kalshi_trading_project.Book.Views.{levels, best_level, sort_levels, insert_level}
use kalshi_trading_project.Book.Views.Ladder.{IsLadder, levels-IsLadder, top}
use kalshi_trading_project.Book.Snapshots.{listed}
use kalshi_trading_project.Book.Keyframe.{books_from_keyframe_rows}
use kalshi_trading_project.Book.Keyframe.RoundTrip.{
  keyframe_rows, AreSameBooks, books_from_keyframe_rows-same, books_from_keyframe_rows-crossed,
}

-- `run`, with all that it calls open.
runs : Book → List Call → Book
unfolding run step apply_snapshot apply_delta new_image collect best_key best_from settle_delta
    store_level finish_delta lookup put remove ◌+ℤ◌
runs = run

abbrev level : ℕ → ℕ → Level
level p c = record { price = p; count = c }

abbrev bid_levels : List Level
bid_levels = level 4000 100 ∷ level 4500 250 ∷ []

abbrev ask_levels : List Level
ask_levels = level 5600 75 ∷ level 5200 300 ∷ []

-- A snapshot, a delta that empties the best bid, and one that crosses.
abbrev opening : List Call
opening = snapshot bid_levels ask_levels (some 7) ∷ delta bid 4500 (negsuc 249) (some 9) ∷ []

abbrev opened : Book
opened = run (new_book "M") opening

opened_best : opened.best_bid ≡ some 4000
unfolding runs
opened_best = refl

opened_levels : levels ask opened ≡ level 5200 300 ∷ level 5600 75 ∷ []
unfolding runs levels sort_levels insert_level
opened_levels = refl

opened-IsWellFormed : IsWellFormed opened
opened-IsWellFormed = run-new_book-IsWellFormed "M" opening

run-new_book-IsWellFormed_example : IsWellFormed (run (new_book "M") opening)
run-new_book-IsWellFormed_example = run-new_book-IsWellFormed "M" opening

apply_snapshot-SnapshotOutcome_example :
    SnapshotOutcome bid_levels ask_levels
      (some 7)
      (new_book "M")
      (apply_snapshot bid_levels ask_levels (some 7) (new_book "M")).0
      (apply_snapshot bid_levels ask_levels (some 7) (new_book "M")).1
apply_snapshot-SnapshotOutcome_example =
    apply_snapshot-SnapshotOutcome bid_levels ask_levels (some 7) (new_book "M")

apply_delta-DeltaOutcome_example :
    DeltaOutcome bid 5300
      (pos 10)
      none
      opened
      (apply_delta bid 5300 (pos 10) none opened).0
      (apply_delta bid 5300 (pos 10) none opened).1
apply_delta-DeltaOutcome_example =
    apply_delta-DeltaOutcome bid 5300 (pos 10) none opened opened-IsWellFormed

levels-IsLadder_example :
    IsLadder ask (levels ask opened)
    × ((q : ℕ) → listed q (levels ask opened) ≡ lookup q opened.asks)
    × (best_level ask opened ≡ top (levels ask opened))
levels-IsLadder_example = levels-IsLadder ask opened opened-IsWellFormed

opened_fresh : opened.stale ≡ false
unfolding runs
opened_fresh = refl

books_from_keyframe_rows-same_example :
    (out : Dict String Book) × (books_from_keyframe_rows (keyframe_rows 11 (opened ∷ [])) ≡ ok out)
    × AreSameBooks (opened ∷ []) out
unfolding lookup
books_from_keyframe_rows-same_example =
    books_from_keyframe_rows-same 11 (opened ∷ []) (refl, tt)
      ((opened-IsWellFormed, opened-IsWellFormed.uncrossed opened_fresh), tt)

-- The book that a crossing delta leaves, which the recorder holds until its snapshot arrives.
abbrev crossed_book : Book
crossed_book =
    run (new_book "M") (snapshot bid_levels ask_levels none ∷ delta bid 5300 (pos 10) none ∷ [])

crossed_book-crossed : ¬ IsUncrossed crossed_book.bids crossed_book.asks
unfolding runs
crossed_book-crossed u = absurd (omega (arith, u 5300 5200 refl refl))

books_from_keyframe_rows-crossed_example :
    (v : Violation) × (books_from_keyframe_rows
        (keyframe_rows 11 ([] ++ crossed_book ∷ new_book "N" ∷ []))
      ≡ err v)
unfolding runs
books_from_keyframe_rows-crossed_example =
    books_from_keyframe_rows-crossed 11 [] (new_book "N" ∷ []) crossed_book (refl, (refl, tt))
      crossed_book-crossed

-- The same levels with another best ask.
abbrev moved : Book
moved = run opened (delta ask 5200 (negsuc 299) none ∷ [])

diff-AreOnce_example :
    (d : BookDiff) × (diff opened moved ≡ some d)
    × AreOnce d.differences
    × ((s : Side) (q : ℕ)
        → difference_at s q d.differences ≡ differing (size_at s q opened) (size_at s q moved))
    × ((is_empty d ≡ true) ↔ AreSameLevels opened moved)
unfolding runs
diff-AreOnce_example =
    diff-AreOnce opened moved opened-IsWellFormed
      (run-new_book-IsWellFormed "M" (
        snapshot bid_levels ask_levels (some 7)
        ∷ delta bid 4500 (negsuc 249) (some 9)
        ∷ delta ask 5200 (negsuc 299) none
        ∷ []))
      refl
