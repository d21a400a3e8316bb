-- ===== src/Book/Keyframe/OneBook.antt =====
-- The rows of one book give it back, unless it is crossed.
use kalshi_trading_project.Prelude.{ℕ, ◌≡◌, refl, Bool, true, false, ◌∙◌}
use kalshi_trading_project.Prelude.Eq.{nat_eq, string_eq}
use kalshi_trading_project.Prelude.Result.{Result, ok, err}
use kalshi_trading_project.Prelude.Dict.{lookup}
use kalshi_trading_project.Events.{Side, bid, ask}
use kalshi_trading_project.Book.{
  Book, Violation, new_book, mark_stale, apply_snapshot, best_of, levels_of,
}
use kalshi_trading_project.Book.Best.{IsBest-unique}
use kalshi_trading_project.Book.Invariant.{
  IsWellFormed, IsUncrossed, new_book-IsWellFormed, apply_snapshot-IsWellFormed,
}
use kalshi_trading_project.Book.Snapshots.{
  AreAccepted, SnapshotOutcome, apply_snapshot-SnapshotOutcome,
}
use kalshi_trading_project.Book.Keyframe.{
  KeyframeRow, to_keyframe, marked_if, rebuilt, book_of_rows,
}
use kalshi_trading_project.Book.Keyframe.Rows.{
  entries, listed-entries, entries-AreValid, side_levels-to_keyframe, IsOwnRow,
}

-- Equal in all that a client can ask, whatever the order in which levels were inserted.
pub record IsSameBook (b b' : Book) : Type 0 where
  pub ticker : b'.ticker ≡ b.ticker
  pub stale : b'.stale ≡ b.stale
  pub last_ts_ms : b'.last_ts_ms ≡ b.last_ts_ms
  pub levels : (s : Side) (q : ℕ) → lookup q (levels_of s b') ≡ lookup q (levels_of s b)
  pub best : (s : Side) → best_of s b' ≡ best_of s b

entries-AreAccepted :
    (b : Book)
    → IsWellFormed b
    → IsUncrossed b.bids b.asks
    → AreAccepted (entries b.bids) (entries b.asks)
entries-AreAccepted b h u = (
  entries-AreValid b.bids (h.sides bid).0 (h.sides bid).1,
  entries-AreValid b.asks (h.sides ask).0 (h.sides ask).1,
  λ p q i j. u p q (rw (listed-entries p b.bids) at i) (rw (listed-entries q b.asks) at j),
)

IsUncrossed-of_accepted :
    (b : Book) → AreAccepted (entries b.bids) (entries b.asks) → IsUncrossed b.bids b.asks
IsUncrossed-of_accepted b a p q i j =
    a.2 p q (rw (listed-entries p b.bids) i) (rw (listed-entries q b.asks) j)

marked_if-same :
    (c : Bool) (b b' : Book)
    → b'.ticker ≡ b.ticker
    → c ≡ b.stale
    → b'.stale ≡ false
    → b'.last_ts_ms ≡ b.last_ts_ms
    → ((s : Side) (q : ℕ) → lookup q (levels_of s b') ≡ lookup q (levels_of s b))
    → ((s : Side) → best_of s b' ≡ best_of s b)
    → IsSameBook b (marked_if c b')
marked_if-same false b b' t e f l at best = record {
  ticker = t;
  stale = f ∙ e;
  last_ts_ms = l;
  levels = at;
  best = best;
}
marked_if-same true b b' t e f l at best =
    unfold mark_stale in
    record {
      ticker = t;
      stale = e;
      last_ts_ms = l;
      levels = λ s q.
          elim s as (λ u. lookup q (levels_of u (mark_stale b')) ≡ lookup q (levels_of u b)) [
            | bid ↦ at bid q
            | ask ↦ at ask q
          ];
      best = λ s. elim s as (λ u. best_of u (mark_stale b') ≡ best_of u b) [
        | bid ↦ best bid
        | ask ↦ best ask
      ];
    }

-- The outcome is a book that is the same as `b`.
abbrev pub IsRebuilt : Book → Result Violation Book → Type 0
IsRebuilt b (ok b') = IsSameBook b b'
IsRebuilt b (err v) = ⊥

rebuilt-same :
    (as_of : ℕ) (b : Book) (r : KeyframeRow) (x : Result Violation (Unit {0})) (b' : Book)
    → IsWellFormed b
    → IsUncrossed b.bids b.asks
    → IsOwnRow as_of b r
    → IsWellFormed b'
    → SnapshotOutcome (entries b.bids) (entries b.asks) b.last_ts_ms (new_book b.ticker) x b'
    → IsRebuilt b (rebuilt r (x, b'))
rebuilt-same as_of b r (err v) b' h u own h' o = o.0 (entries-AreAccepted b h u)
rebuilt-same as_of b r (ok done) b' h u own h' (a, t, fresh, ts, at_bid, at_ask) =
    marked_if-same r.stale b b' t own.2 fresh ts (λ s. at s)
      (λ s.
        IsBest-unique s _ _ (levels_of s b') (levels_of s b) (h'.sides s).2 (h.sides s).2 (at s))
  where
    at : (s : Side) (q : ℕ) → lookup q (levels_of s b') ≡ lookup q (levels_of s b)
    at bid q = at_bid q ∙ listed-entries q b.bids
    at ask q = at_ask q ∙ listed-entries q b.asks

rebuilt-crossed :
    (b : Book) (r : KeyframeRow) (x : Result Violation (Unit {0})) (b' : Book)
    → ¬ IsUncrossed b.bids b.asks
    → SnapshotOutcome (entries b.bids) (entries b.asks) b.last_ts_ms (new_book b.ticker) x b'
    → (v : Violation) × (rebuilt r (x, b') ≡ err v)
rebuilt-crossed b r (err v) b' c o = (v, refl)
rebuilt-crossed b r (ok done) b' c o = absurd (c (IsUncrossed-of_accepted b o.0))

module _ (as_of : ℕ) (b : Book) (r : KeyframeRow) (own : IsOwnRow as_of b r) where
  -- The snapshot that `book_of_rows` applies, in terms of the book.
  snapshot_of_rows :
      book_of_rows b.ticker r (to_keyframe as_of b)
      ≡ rebuilt r
          (apply_snapshot (entries b.bids) (entries b.asks) b.last_ts_ms (new_book b.ticker))
  unfolding book_of_rows
  snapshot_of_rows =
      simp (side_levels-to_keyframe as_of b bid, side_levels-to_keyframe as_of b ask, own.1)

  pub book_of_rows-same :
      IsWellFormed b
      → IsUncrossed b.bids b.asks
      → IsRebuilt b (book_of_rows b.ticker r (to_keyframe as_of b))
  book_of_rows-same h u = rw snapshot_of_rows (
      rebuilt-same as_of b r _ _ h u own
        (apply_snapshot-IsWellFormed _ _ _ _ (new_book-IsWellFormed b.ticker))
        (apply_snapshot-SnapshotOutcome _ _ _ _))

  pub book_of_rows-crossed :
      ¬ IsUncrossed b.bids b.asks
      → (v : Violation) × (book_of_rows b.ticker r (to_keyframe as_of b) ≡ err v)
  book_of_rows-crossed c =
      rw snapshot_of_rows (rebuilt-crossed b r _ _ c (apply_snapshot-SnapshotOutcome _ _ _ _))
