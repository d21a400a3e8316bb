-- ===== src/LiveBooks/Effects.antt =====
-- What one event does to the consumer's copies, market by market.
use kalshi_trading_project.Prelude.{
  ◌≡◌, refl, sym, Bool, true, false, Option, none, some, ap, ◌∙◌, if◌then◌else◌,
}
use kalshi_trading_project.Prelude.Eq.{string_eq}
use kalshi_trading_project.Prelude.Dict.{lookup}
use kalshi_trading_project.Prelude.DictLaws.{lookup-put, lookup-remove}
use kalshi_trading_project.Prelude.Result.{Result, ok, err}
use text.Mathlib.TextEquality.{eq_iff}
use Prim.Native.String.{String}
use kalshi_trading_project.Events.{
  BusEvent, BookRefresh, book_snapshot, book_delta, book_refresh, trade, ticker_update, lifecycle,
  gap_event, market_catalog, status_report,
}
use kalshi_trading_project.Book.{Book, Violation, apply_snapshot, new_book}
use kalshi_trading_project.Book.Keyframe.{marked_if}
use kalshi_trading_project.LiveBooks.{
  LiveBooks, adopted, adopt, changed, change_held, change, recorded, apply_event, snapshot_change,
  delta_change,
}

-- The copy after a change, and after an image.
abbrev pub kept : Result Violation Bool × Book → Option Book
kept (ok applied, b) = some b
kept (err v, b) = none

abbrev pub changed_copy : (Book → Result Violation Bool × Book) → Option Book → Option Book
changed_copy apply none = none
changed_copy apply (some c) = kept (apply c)

abbrev pub image_copy : BookRefresh → Result Violation (Unit {0}) × Book → Option Book
image_copy r (ok u, b) = some (marked_if r.stale b)
image_copy r (err v, b) = none

module _ (u t : String) (lb : LiveBooks) where
  books-changed :
      (r : Result Violation Bool × Book)
      → lookup t (changed u lb r).1.books
        ≡ (if string_eq.beq u t then kept r else lookup t lb.books)
  books-changed (ok true, b) = lookup-put u t b lb.books
  books-changed (ok false, b) = lookup-put u t b lb.books
  books-changed (err v, b) = lookup-remove u t lb.books

  books-change_held :
      (apply : Book → Result Violation Bool × Book) (o : Option Book)
      → lookup u lb.books ≡ o
      → lookup t (change_held u apply lb o).1.books
        ≡ (if string_eq.beq u t then changed_copy apply o else lookup t lb.books)
  books-change_held apply none e = unheld (string_eq.beq u t) refl
    where
      unheld :
          (same : Bool)
          → string_eq.beq u t ≡ same
          → lookup t lb.books ≡ (if same then none else lookup t lb.books)
      unheld true f = ap (λ (k : String). lookup k lb.books) (sym ((eq_iff u t).0 f)) ∙ e
      unheld false f = refl
  books-change_held apply (some c) e = books-changed (apply c)

  books-recorded :
      (act : LiveBooks → Bool × LiveBooks)
      → lookup t (recorded u act lb).2.books ≡ lookup t (act lb).1.books
  unfolding recorded
  books-recorded act = refl

  -- The copies after a snapshot or a delta.
  pub books-change :
      (apply : Book → Result Violation Bool × Book)
      → lookup t (recorded u (change u apply) lb).2.books
        ≡ (if string_eq.beq u t then changed_copy apply (lookup u lb.books) else lookup t lb.books)
  unfolding change
  books-change apply =
      books-recorded (change u apply) ∙ books-change_held apply (lookup u lb.books) refl

module _ (r : BookRefresh) (t : String) (lb : LiveBooks) where
  books-adopted :
      (x : Result Violation (Unit {0}) × Book)
      → lookup t (adopted r lb x).1.books
        ≡ (if string_eq.beq r.ticker t then image_copy r x else lookup t lb.books)
  books-adopted (ok u, b) = lookup-put r.ticker t (marked_if r.stale b) lb.books
  books-adopted (err v, b) = lookup-remove r.ticker t lb.books

  -- The copies after an image.
  pub books-adopt : lookup t (recorded r.ticker (adopt r) lb).2.books ≡ (
      if string_eq.beq r.ticker t
      then image_copy r (apply_snapshot r.bids r.asks r.ts_ms (new_book r.ticker))
      else lookup t lb.books)
  unfolding adopt
  books-adopt =
      books-recorded r.ticker t lb (adopt r)
      ∙ books-adopted (apply_snapshot r.bids r.asks r.ts_ms (new_book r.ticker))

-- Applying an event leaves the numbers that `_follow` adopted.
abbrev pub HasNumbersOf : LiveBooks → LiveBooks → Type 0
HasNumbersOf lb lb' = (lb'.current_epoch ≡ lb.current_epoch) × (lb'.last_seq ≡ lb.last_seq)

changed-numbers :
    (u : String) (lb : LiveBooks) (r : Result Violation Bool × Book)
    → HasNumbersOf lb (changed u lb r).1
changed-numbers u lb (ok true, b) = (refl, refl)
changed-numbers u lb (ok false, b) = (refl, refl)
changed-numbers u lb (err v, b) = (refl, refl)

change_held-numbers :
    (u : String) (apply : Book → Result Violation Bool × Book) (lb : LiveBooks) (o : Option Book)
    → HasNumbersOf lb (change_held u apply lb o).1
change_held-numbers u apply lb none = (refl, refl)
change_held-numbers u apply lb (some c) = changed-numbers u lb (apply c)

adopted-numbers :
    (r : BookRefresh) (lb : LiveBooks) (x : Result Violation (Unit {0}) × Book)
    → HasNumbersOf lb (adopted r lb x).1
adopted-numbers r lb (ok u, b) = (refl, refl)
adopted-numbers r lb (err v, b) = (refl, refl)

pub apply_event-numbers :
    (event : BusEvent) (lb : LiveBooks) → HasNumbersOf lb (apply_event event lb).2
unfolding apply_event
apply_event-numbers (book_refresh r) lb = adopted-numbers r lb _
apply_event-numbers (book_snapshot s) lb = change_held-numbers s.ticker (snapshot_change s) lb _
apply_event-numbers (book_delta d) lb = change_held-numbers d.ticker (delta_change d) lb _
apply_event-numbers (trade e) lb = (refl, refl)
apply_event-numbers (ticker_update e) lb = (refl, refl)
apply_event-numbers (lifecycle e) lb = (refl, refl)
apply_event-numbers (gap_event e) lb = (refl, refl)
apply_event-numbers (market_catalog e) lb = (refl, refl)
apply_event-numbers (status_report e) lb = (refl, refl)
