-- ===== src/LiveBooks/Moves.antt =====
-- Each move of the publisher keeps the copies of a consumer that sees its message.
use kalshi_trading_project.Prelude.{
  ◌≡◌, refl, sym, Bool, true, false, Option, none, some, ap, ◌∙◌, if◌then◌else◌,
}
use mathlib.Core.Bool.{false≢true}
use kalshi_trading_project.Prelude.Eq.{string_eq}
use kalshi_trading_project.Prelude.Dict.{Dict, lookup, put, remove, or_else}
use kalshi_trading_project.Prelude.DictLaws.{lookup-put, lookup-remove}
use kalshi_trading_project.Prelude.Result.{Result, ok, err}
use Prim.Native.String.{String}
use kalshi_trading_project.Events.{
  Receipt, BusEvent, BookSnapshot, BookDelta, BookRefresh, book_snapshot, book_delta, book_refresh,
  bid, ask, trade, ticker_update, lifecycle, gap_event, market_catalog, status_report,
}
use kalshi_trading_project.Book.{
  Book, Violation, negative_level, crossed_after_delta, apply_snapshot, apply_delta, mark_stale,
  new_book,
}
use kalshi_trading_project.Book.Invariant.{
  IsWellFormed, new_book-IsWellFormed, mark_stale-IsWellFormed, apply_snapshot-IsWellFormed,
  apply_delta-IsWellFormed,
}
use kalshi_trading_project.Book.Deltas.{DeltaOutcome, apply_delta-DeltaOutcome}
use kalshi_trading_project.Book.Snapshots.{SnapshotOutcome, apply_snapshot-SnapshotOutcome}
use kalshi_trading_project.Book.Keyframe.{marked_if}
use kalshi_trading_project.Book.Views.{levels}
use kalshi_trading_project.LiveBooks.{
  LiveBooks, BusEnvelope, apply_event, as_applied, snapshot_change, delta_change,
}
use kalshi_trading_project.LiveBooks.Effects.{
  kept, changed_copy, image_copy, books-change, books-adopt,
}
use kalshi_trading_project.LiveBooks.Publisher.{
  Publisher, Move, after_snapshot, after_delta, delta_to_held, mark_held, image_of_held, move,
  publish, is_about_book, snapshot_frame, delta_frame, stale_mark, drop_market, refresh_image,
  other_event, restart,
}
use kalshi_trading_project.LiveBooks.Copies.{
  Mirrors, AreCopies, IsWell, AreWell, IsUpdate, IsUpdate-self, AreCopies-update, AreWell-update,
  snapshot_copy, delta_copy, image_mirror,
}

kept-IsWell : (r : Result Violation Bool × Book) → IsWellFormed r.1 → IsWell (kept r)
kept-IsWell (ok x, b) h = h
kept-IsWell (err v, b) h = tt

as_applied-book : (r : Result Violation (Unit {0}) × Book) → (as_applied r).1 ≡ r.1
as_applied-book (ok u, b) = refl
as_applied-book (err v, b) = refl

changed_copy-IsWell :
    (apply : Book → Result Violation Bool × Book) (o : Option Book)
    → ((c : Book) → IsWellFormed c → IsWellFormed (apply c).1)
    → IsWell o
    → IsWell (changed_copy apply o)
changed_copy-IsWell apply none keep h = tt
changed_copy-IsWell apply (some c) keep h = kept-IsWell (apply c) (keep c h)

snapshot_change-IsWellFormed :
    (s : BookSnapshot) (c : Book) → IsWellFormed c → IsWellFormed (snapshot_change s c).1
snapshot_change-IsWellFormed s c h =
    rw (as_applied-book (apply_snapshot s.bids s.asks s.ts_ms c))
      (apply_snapshot-IsWellFormed s.bids s.asks s.ts_ms c h)

image_copy-IsWell :
    (r : BookRefresh) (x : Result Violation (Unit {0}) × Book)
    → IsWellFormed x.1
    → IsWell (image_copy r x)
image_copy-IsWell r (ok u, b) h = go r.stale
  where
    go : (c : Bool) → IsWellFormed (marked_if c b)
    go true = mark_stale-IsWellFormed h
    go false = h
image_copy-IsWell r (err v, b) h = tt

-- The publisher after a move and the consumer after its message, if it has one.
abbrev pub MoveKeeps : LiveBooks → Option BusEnvelope × Publisher → Type 0
MoveKeeps lb (none, p) = AreCopies p.books lb.books × AreWell p.books × AreWell lb.books
MoveKeeps lb (some env, p) =
    let after : Dict String Book = (apply_event env.event lb).2.books in
    AreCopies p.books after × AreWell p.books × AreWell after

stale_Mirrors : (p : Book) (o : Option Book) → p.stale ≡ true → Mirrors (some p) o
stale_Mirrors p none e = tt
stale_Mirrors p (some c) e = λ f. absurd (false≢true (sym f ∙ e))

abbrev IsErrStale : Result Violation Bool → Book → Type 0
IsErrStale (ok x) b = Unit
IsErrStale (err v) b = b.stale ≡ true

err_stale :
    (d : BookDelta) (b : Book) (x : Result Violation Bool) (b' : Book)
    → DeltaOutcome d.side d.price d.delta d.ts_ms b x b'
    → IsErrStale x b'
err_stale d b (ok x) b' h = tt
err_stale d b (err (negative_level s q)) b' h = ap (λ (z : Book). z.stale) h.2
err_stale d b (err crossed_after_delta) b' h = h.1
err_stale d b (err v) b' h = absurd h

module _ (p : Publisher) (lb : LiveBooks) (copies : AreCopies p.books lb.books)
    (well : AreWell p.books) (held : AreWell lb.books) where
  -- A move of one book without a message.
  silent :
      (u : String) (b : Book)
      → IsWellFormed b
      → Mirrors (some b) (lookup u lb.books)
      → MoveKeeps lb (none, record p { books = put u b p.books })
  silent u b h m = (
    AreCopies-update u (some b) (lookup u lb.books) p.books _ lb.books lb.books
        (λ t. lookup-put u t b p.books) (IsUpdate-self u lb.books) m copies,
    AreWell-update u (some b) p.books _ (λ t. lookup-put u t b p.books) h well,
    held,
  )

  -- A move of one book whose message makes `o'` of the copy.
  told :
      (u : String) (b : Book) (o' : Option Book) (f' : Dict String Book)
      → IsWellFormed b
      → IsWell o'
      → Mirrors (some b) o'
      → IsUpdate u o' lb.books f'
      → AreCopies (put u b p.books) f' × AreWell (put u b p.books) × AreWell f'
  told u b o' f' h h' m e = (
    AreCopies-update u (some b) o' p.books _ lb.books f' (λ t. lookup-put u t b p.books) e m copies,
    AreWell-update u (some b) p.books _ (λ t. lookup-put u t b p.books) h well,
    AreWell-update u o' lb.books f' e h' held,
  )

  snapshot_keeps :
      (s : BookSnapshot) (b : Book) (r : Result Violation (Unit {0}) × Book)
      → IsWellFormed r.1
      → apply_snapshot s.bids s.asks s.ts_ms b ≡ r
      → SnapshotOutcome s.bids s.asks s.ts_ms b r.0 r.1
      → MoveKeeps lb (after_snapshot s p r)
  unfolding publish apply_event
  snapshot_keeps s b (err v, b') h e o =
      silent s.ticker b' h (stale_Mirrors b' _ (ap (λ (z : Book). z.stale) o.1))
  snapshot_keeps s b (ok u, b') h e o =
      told s.ticker b' (changed_copy (snapshot_change s) (lookup s.ticker lb.books)) _ h
        (changed_copy-IsWell (snapshot_change s) _ (snapshot_change-IsWellFormed s) (held s.ticker))
        (snapshot_copy s b b' u (lookup s.ticker lb.books) e)
        (λ t. books-change s.ticker t lb (snapshot_change s))

  delta_keeps :
      (d : BookDelta) (b : Book) (r : Result Violation Bool × Book)
      → IsWellFormed b
      → Mirrors (some b) (lookup d.ticker lb.books)
      → IsWellFormed r.1
      → apply_delta d.side d.price d.delta d.ts_ms b ≡ r
      → DeltaOutcome d.side d.price d.delta d.ts_ms b r.0 r.1
      → MoveKeeps lb (after_delta d p r)
  unfolding publish apply_event
  delta_keeps d b (err v, b') hb m h e o =
      silent d.ticker b' h (stale_Mirrors b' _ (err_stale d b (err v) b' o))
  delta_keeps d b (ok false, b') hb m h e o = silent d.ticker b' h (rw o.1 m)
  delta_keeps d b (ok true, b') hb m h e o =
      told d.ticker b' (changed_copy (delta_change d) (lookup d.ticker lb.books)) _ h
        (changed_copy-IsWell (delta_change d) _
          (λ c. apply_delta-IsWellFormed d.side d.price d.delta d.ts_ms c) (held d.ticker))
        (delta_copy d b b' (lookup d.ticker lb.books) hb (held d.ticker) m e)
        (λ t. books-change d.ticker t lb (delta_change d))

  delta_to_held_keeps :
      (d : BookDelta) (o : Option Book)
      → lookup d.ticker p.books ≡ o
      → IsWell o
      → Mirrors o (lookup d.ticker lb.books)
      → MoveKeeps lb (delta_to_held d p o)
  delta_to_held_keeps d none e h m = (copies, well, held)
  delta_to_held_keeps d (some b) e h m =
      delta_keeps d b _ h m (apply_delta-IsWellFormed d.side d.price d.delta d.ts_ms b h) refl
        (apply_delta-DeltaOutcome d.side d.price d.delta d.ts_ms b h)

  image_keeps :
      (u : String) (rc : Receipt) (o : Option Book)
      → lookup u p.books ≡ o
      → IsWell o
      → MoveKeeps lb (image_of_held u rc p o)
  unfolding publish apply_event
  image_keeps u rc none e h = (copies, well, held)
  image_keeps u rc (some b) e h = (
    AreCopies-update u (some b) (image_copy r image) p.books p.books lb.books _
        (rw e at (IsUpdate-self u p.books)) (λ t. books-adopt r t lb) (image_mirror u rc b h)
        copies,
    well,
    AreWell-update u (image_copy r image) lb.books _ (λ t. books-adopt r t lb)
        (image_copy-IsWell r image (apply_snapshot-IsWellFormed _ _ _ _ (new_book-IsWellFormed u)))
        held,
  )
    where
      r : BookRefresh
      r = record {
        ticker = u;
        ts_ms = b.last_ts_ms;
        receipt = rc;
        stale = b.stale;
        bids = levels bid b;
        asks = levels ask b;
      }

      image : Result Violation (Unit {0}) × Book
      image = apply_snapshot (levels bid b) (levels ask b) b.last_ts_ms (new_book u)

  mark_keeps : (u : String) (o : Option Book) → IsWell o → MoveKeeps lb (none, mark_held u p o)
  mark_keeps u none h = (copies, well, held)
  mark_keeps u (some b) h =
      silent u (mark_stale b) (mark_stale-IsWellFormed h)
        (stale_Mirrors (mark_stale b) (lookup u lb.books) (unfold mark_stale in refl))

  drop_keeps : (u : String) → MoveKeeps lb (none, record p { books = remove u p.books })
  drop_keeps u = (
    AreCopies-update u none (lookup u lb.books) p.books _ lb.books lb.books
        (λ t. lookup-remove u t p.books) (IsUpdate-self u lb.books) tt copies,
    AreWell-update u none p.books _ (λ t. lookup-remove u t p.books) tt well,
    held,
  )

  other_keeps :
      (event : BusEvent) → MoveKeeps lb (if is_about_book event then (none, p) else publish event p)
  unfolding publish apply_event
  other_keeps (book_snapshot s) = (copies, well, held)
  other_keeps (book_delta d) = (copies, well, held)
  other_keeps (book_refresh r) = (copies, well, held)
  other_keeps (trade e) = (copies, well, held)
  other_keeps (ticker_update e) = (copies, well, held)
  other_keeps (lifecycle e) = (copies, well, held)
  other_keeps (gap_event e) = (copies, well, held)
  other_keeps (market_catalog e) = (copies, well, held)
  other_keeps (status_report e) = (copies, well, held)

  or_new-IsWellFormed :
      (u : String) (o : Option Book) → IsWell o → IsWellFormed (or_else o (new_book u))
  or_new-IsWellFormed u none h = new_book-IsWellFormed u
  or_new-IsWellFormed u (some b) h = h

  pub move-keeps : (m : Move) → MoveKeeps lb (move m p)
  unfolding move
  move-keeps (snapshot_frame s) =
      snapshot_keeps s (or_else (lookup s.ticker p.books) (new_book s.ticker)) _
        (apply_snapshot-IsWellFormed s.bids s.asks s.ts_ms _
          (or_new-IsWellFormed s.ticker _ (well s.ticker)))
        refl (apply_snapshot-SnapshotOutcome s.bids s.asks s.ts_ms _)
  move-keeps (delta_frame d) =
      delta_to_held_keeps d (lookup d.ticker p.books) refl (well d.ticker) (copies d.ticker)
  move-keeps (stale_mark u) = mark_keeps u (lookup u p.books) (well u)
  move-keeps (drop_market u) = drop_keeps u
  move-keeps (refresh_image u rc) = image_keeps u rc (lookup u p.books) refl (well u)
  move-keeps (other_event event) = other_keeps event
  move-keeps (restart later) = ((λ t. unfold lookup in tt), (λ t. unfold lookup in tt), held)
