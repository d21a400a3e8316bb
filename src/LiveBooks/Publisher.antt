-- ===== src/LiveBooks/Publisher.antt =====
-- One publisher of books on the bus: the moves of a connection's supervisor with the numbering of the bus.
-- src/tape/recorder/supervisor.py `_on_snapshot`, `_on_delta` and `_resync_connection`;
-- src/tape/bus/envelope.py `SequencedPublisher.publish`. With the moves `refresh_image` and
-- `restart` it also describes a recorder whose connections share no market: Recorder has the real
-- one. Which frames a connection refuses is decided before these moves.
use kalshi_trading_project.Prelude.{
  ℕ, ◌+◌, Bool, true, false, Option, none, some, [], if◌then◌else◌,
}
use kalshi_trading_project.Prelude.Eq.{string_eq}
use kalshi_trading_project.Prelude.Dict.{Dict, lookup, put, remove, or_else}
use kalshi_trading_project.Prelude.Result.{Result, ok, err}
use Prim.Native.String.{String}
use kalshi_trading_project.Events.{
  BusEvent, Receipt, BookSnapshot, BookDelta, book_snapshot, book_delta, book_refresh, bid, ask,
}
use kalshi_trading_project.Book.{Book, Violation, new_book, mark_stale, apply_snapshot, apply_delta}
use kalshi_trading_project.Book.Views.{levels}
use kalshi_trading_project.LiveBooks.{BusEnvelope}

pub record Publisher : Type 0 where
  pub books : Dict String Book
  pub epoch : ℕ
  pub last_seq : ℕ

-- What can happen to one dictionary of books. The epoch after a restart is later by one and `later`.
pub data Move : Type 0 where
  snapshot_frame : BookSnapshot → Move
  delta_frame : BookDelta → Move
  stale_mark drop_market : String → Move
  refresh_image : String → Receipt → Move
  other_event : BusEvent → Move
  restart : ℕ → Move

-- The number is spent whether or not the message arrives.
unfoldable pub publish : BusEvent → Publisher → Option BusEnvelope × Publisher
publish event p = (
  some (record { bus_epoch = p.epoch; bus_seq = p.last_seq + 1; event = event }),
  record p { last_seq = p.last_seq + 1 },
)

abbrev pub hold : String → Book → Publisher → Publisher
hold ticker b p = record p { books = put ticker b p.books }

abbrev pub after_snapshot :
    BookSnapshot → Publisher → Result Violation (Unit {0}) × Book → Option BusEnvelope × Publisher
after_snapshot s p (err v, b) = (none, hold s.ticker b p)
after_snapshot s p (ok u, b) = publish (book_snapshot s) (hold s.ticker b p)

abbrev pub after_delta :
    BookDelta → Publisher → Result Violation Bool × Book → Option BusEnvelope × Publisher
after_delta d p (ok true, b) = publish (book_delta d) (hold d.ticker b p)
after_delta d p (ok false, b) = (none, hold d.ticker b p)
after_delta d p (err v, b) = (none, hold d.ticker b p)

abbrev pub delta_to_held : BookDelta → Publisher → Option Book → Option BusEnvelope × Publisher
delta_to_held d p none = (none, p)
delta_to_held d p (some b) = after_delta d p (apply_delta d.side d.price d.delta d.ts_ms b)

abbrev pub mark_held : String → Publisher → Option Book → Publisher
mark_held ticker p none = p
mark_held ticker p (some b) = hold ticker (mark_stale b) p

abbrev pub image_of : String → Receipt → Book → BusEvent
image_of ticker receipt b = book_refresh (record {
  ticker = ticker;
  ts_ms = b.last_ts_ms;
  receipt = receipt;
  stale = b.stale;
  bids = levels bid b;
  asks = levels ask b;
})

abbrev pub image_of_held :
    String → Receipt → Publisher → Option Book → Option BusEnvelope × Publisher
image_of_held ticker receipt p none = (none, p)
image_of_held ticker receipt p (some b) = publish (image_of ticker receipt b) p

abbrev pub is_about_book : BusEvent → Bool
is_about_book (book_snapshot s) = true
is_about_book (book_delta d) = true
is_about_book (book_refresh r) = true
is_about_book event = false

unfoldable pub move : Move → Publisher → Option BusEnvelope × Publisher
unfolding publish
move (snapshot_frame s) p =
    after_snapshot s p
      (apply_snapshot s.bids s.asks s.ts_ms (or_else (lookup s.ticker p.books) (new_book s.ticker)))
move (delta_frame d) p = delta_to_held d p (lookup d.ticker p.books)
move (stale_mark ticker) p = (none, mark_held ticker p (lookup ticker p.books))
move (drop_market ticker) p = (none, record p { books = remove ticker p.books })
move (refresh_image ticker receipt) p = image_of_held ticker receipt p (lookup ticker p.books)
move (other_event event) p = if is_about_book event then (none, p) else publish event p
move (restart later) p = (none, record { books = []; epoch = p.epoch + 1 + later; last_seq = 0 })
