-- ===== src/Book/Keyframe/Rows.antt =====
-- The levels that the rows of a keyframe give back.
use kalshi_trading_project.Prelude.{ℕ, ◌≡◌, refl, ◌≢◌, some, List, [], ◌∷◌, ◌++◌, All, arith, ◌∙◌}
use kalshi_trading_project.Prelude.Eq.{nat_eq}
use kalshi_trading_project.Prelude.Dict.{Dict, lookup, IsDistinct}
use mathlib.Core.List.{append-nil}
use kalshi_trading_project.Events.{Side, bid, ask, Level}
use kalshi_trading_project.Book.{Book, levels_of}
use kalshi_trading_project.Book.Sides.{opposite}
use kalshi_trading_project.Book.Snapshots.{listed, AreValid}
use kalshi_trading_project.Book.Keyframe.{
  KeyframeRow, row, side_rows, or_empty_row, to_keyframe, side_levels, empty_side,
}

abbrev pub entries : Dict ℕ ℕ → List Level
entries [] = []
entries ((p, c) ∷ d) = record { price = p; count = c } ∷ entries d

pub listed-entries : (q : ℕ) (d : Dict ℕ ℕ) → listed q (entries d) ≡ lookup q d
unfolding listed lookup
listed-entries q [] = refl
listed-entries q ((p, c) ∷ d) = ground (arith, listed-entries q d)

pub entries-AreValid :
    (d : Dict ℕ ℕ) → IsDistinct d → ((p : ℕ) → lookup p d ≢ some 0) → AreValid (entries d)
entries-AreValid [] h k = tt
entries-AreValid ((p, c) ∷ d) h k = (
  unfold lookup in ground (arith, k p),
  listed-entries p d ∙ h.0,
  entries-AreValid d h.1 (λ q e. rest q e),
)
  where
    rest : (q : ℕ) → lookup q d ≢ some 0
    rest q e = unfold lookup in ground (arith, k q, h.0)

side_levels-append :
    (s : Side) (rs ts : List KeyframeRow)
    → side_levels s (rs ++ ts) ≡ side_levels s rs ++ side_levels s ts
unfolding side_levels
side_levels-append s [] ts = refl
side_levels-append bid (r ∷ rs) ts = ground (arith, side_levels-append bid rs ts)
side_levels-append ask (r ∷ rs) ts = ground (arith, side_levels-append ask rs ts)

module _ (as_of : ℕ) (b : Book) where
  side_levels-side_rows_self :
      (s : Side) (d : Dict ℕ ℕ) → side_levels s (side_rows as_of b s d) ≡ entries d
  unfolding side_levels
  side_levels-side_rows_self bid [] = refl
  side_levels-side_rows_self ask [] = refl
  side_levels-side_rows_self bid ((p, c) ∷ d) = ground (arith, side_levels-side_rows_self bid d)
  side_levels-side_rows_self ask ((p, c) ∷ d) = ground (arith, side_levels-side_rows_self ask d)

  side_levels-side_rows-opposite :
      (s : Side) (d : Dict ℕ ℕ) → side_levels s (side_rows as_of b (opposite s) d) ≡ []
  unfolding side_levels
  side_levels-side_rows-opposite bid [] = refl
  side_levels-side_rows-opposite ask [] = refl
  side_levels-side_rows-opposite bid ((p, c) ∷ d) = side_levels-side_rows-opposite bid d
  side_levels-side_rows-opposite ask ((p, c) ∷ d) = side_levels-side_rows-opposite ask d

  side_levels-or_empty_row :
      (s : Side) (rs : List KeyframeRow)
      → side_levels s (or_empty_row as_of b rs) ≡ side_levels s rs
  unfolding side_levels
  side_levels-or_empty_row bid [] = refl
  side_levels-or_empty_row ask [] = refl
  side_levels-or_empty_row bid (r ∷ rs) = refl
  side_levels-or_empty_row ask (r ∷ rs) = refl

  abbrev bid_rows : List KeyframeRow
  bid_rows = side_rows as_of b bid b.bids

  abbrev ask_rows : List KeyframeRow
  ask_rows = side_rows as_of b ask b.asks

  -- Each side's levels come back.
  pub side_levels-to_keyframe :
      (s : Side) → side_levels s (to_keyframe as_of b) ≡ entries (levels_of s b)
  unfolding to_keyframe
  side_levels-to_keyframe bid =
      side_levels-or_empty_row bid (bid_rows ++ ask_rows)
      ∙ side_levels-append bid bid_rows ask_rows
      ∙ simp (
        side_levels-side_rows_self bid b.bids,
        side_levels-side_rows-opposite bid b.asks,
        append-nil,
      )
  side_levels-to_keyframe ask =
      side_levels-or_empty_row ask (bid_rows ++ ask_rows)
      ∙ side_levels-append ask bid_rows ask_rows
      ∙ simp (side_levels-side_rows_self ask b.asks, side_levels-side_rows-opposite ask b.bids)

  -- What all rows of one book say.
  abbrev pub IsOwnRow : KeyframeRow → Type 0
  IsOwnRow r = (r.ticker ≡ b.ticker) × (r.last_ts_ms ≡ b.last_ts_ms) × (r.stale ≡ b.stale)

  or_empty_row-Own :
      (rs : List KeyframeRow)
      → All IsOwnRow rs
      → (r : KeyframeRow) × (ts : List KeyframeRow) × (or_empty_row as_of b rs ≡ r ∷ ts)
        × IsOwnRow r
        × All IsOwnRow ts
  or_empty_row-Own [] h = (row as_of b empty_side 0 0, [], refl, (refl, refl, refl), tt)
  or_empty_row-Own (r ∷ rs) h = (r, rs, refl, h.0, h.1)

  side_rows-Own :
      (s t : Side) (d f : Dict ℕ ℕ) → All IsOwnRow (side_rows as_of b s d ++ side_rows as_of b t f)
  side_rows-Own s t [] [] = tt
  side_rows-Own s t [] ((p, c) ∷ f) = ((refl, refl, refl), side_rows-Own s t [] f)
  side_rows-Own s t ((p, c) ∷ d) f = ((refl, refl, refl), side_rows-Own s t d f)

  pub to_keyframe-Own :
      (r : KeyframeRow) × (ts : List KeyframeRow) × (to_keyframe as_of b ≡ r ∷ ts)
      × IsOwnRow r
      × All IsOwnRow ts
  unfolding to_keyframe
  to_keyframe-Own = or_empty_row-Own _ (side_rows-Own bid ask b.bids b.asks)
