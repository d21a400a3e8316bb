-- ===== src/Tap.antt =====
-- src/tape/recorder/tap.py: the changes of some books over a window. A book is an object with an
-- identity, since a tap notices that a market's book was replaced by another one. A `frozenset` of
-- tickers is the list of its members in order.
pub mod Replay
pub mod Watch
pub mod Sound
pub mod Faithful
pub mod Windows
pub mod Markets
mod Tests
use kalshi_trading_project.Prelude.{
  ℕ, ◌==◌, ◌||◌, ◌&&◌, not, ltb, leb, Bool, true, false, Option, none, some, List, [], ◌∷◌, ◌++◌,
  length, if◌then◌else◌,
}
use kalshi_trading_project.Prelude.Eq.{string_eq}
use kalshi_trading_project.Prelude.Dict.{Dict, lookup, put}
use kalshi_trading_project.Prelude.Result.{Result, ok, err}
use kalshi_trading_project.Events.{Level, bid, ask, BookSnapshot, BookDelta}
use kalshi_trading_project.Book.{Book, Violation, new_book, apply_snapshot}
use kalshi_trading_project.Book.Views.{levels}
use Prim.Native.String.{String}

pub record BookObject : Type 0 where
  pub identity : ℕ
  pub book : Book

pub data BookChange : Type 0 where
  snapshot_taken : BookSnapshot → BookChange
  delta_taken : BookDelta → BookChange

abbrev pub ticker_of : BookChange → String
ticker_of (snapshot_taken s) = s.ticker
ticker_of (delta_taken d) = d.ticker

pub data TapFault : Type 0 where
  fault_no_book fault_stale fault_overflow : TapFault

pub record BookImage : Type 0 where
  pub bids : List Level
  pub asks : List Level

-- BookImage.of
unfoldable pub image_of_book : Book → BookImage
image_of_book b = record { bids = levels bid b; asks = levels ask b }

abbrev pub taken : Result Violation (Unit {0}) × Book → Result Violation Book
taken (ok done, b) = ok b
taken (err v, b) = err v

unfoldable pub to_book : String → BookImage → Result Violation Book
to_book ticker i = taken (apply_snapshot i.bids i.asks none (new_book ticker))

pub record TapWindow : Type 0 where
  pub ticker : String
  pub start : Option BookImage
  pub events : List BookChange
  pub fault : Option TapFault

abbrev pub is_no_book : Option TapFault → Bool
is_no_book (some fault_no_book) = true
is_no_book fault = false

abbrev pub is_absent : {A : Type 0} → Option A → Bool
is_absent none = true
is_absent (some a) = false

-- The tests of `__post_init__`; false stands for its `ValueError`.
unfoldable pub is_constructed : TapWindow → Bool
is_constructed w =
    if is_absent w.start
    then is_no_book w.fault && (length w.events == 0)
    else not (is_no_book w.fault)

abbrev pub absent_window : String → TapWindow
absent_window ticker = record {
  ticker = ticker;
  start = none;
  events = [];
  fault = some fault_no_book;
}

pub record Recording : Type 0 where
  pub identity : Option ℕ
  pub start : Option BookImage
  pub events : List BookChange
  pub fault : Option TapFault

pub record LiveBookTap : Type 0 where
  pub max_events : ℕ
  pub recordings : Dict String Recording
  pub windows : Option (Dict String TapWindow)

abbrev pub opened_at : Option BookObject → Recording
opened_at none = record { identity = none; start = none; events = []; fault = some fault_no_book }
opened_at (some o) =
    if o.book.stale
    then record { identity = none; start = none; events = []; fault = some fault_no_book }
    else record {
      identity = some o.identity;
      start = some (image_of_book o.book);
      events = [];
      fault = none;
    }

abbrev pub open_all : Dict String BookObject → List String → Dict String Recording
open_all books [] = []
open_all books (t ∷ ts) = put t (opened_at (lookup t books)) (open_all books ts)

-- None stands for `ValueError`.
unfoldable pub new_tap : List String → Dict String BookObject → ℕ → Option LiveBookTap
new_tap tickers books max_events =
    if leb max_events 0
    then none
    else some
        (record { max_events = max_events; recordings = open_all books tickers; windows = none })

-- `record` on the recording of its market.
abbrev pub record_in : ℕ → BookChange → Bool → Recording → Recording
record_in max_events change was_stale r = elim r.fault [
  | some fault ↦ r
  | none ↦
      if was_stale
      then record r { fault = some fault_stale }
      else if leb max_events (length r.events)
      then record r { fault = some fault_overflow }
      else record r { events = r.events ++ change ∷ [] }
]

abbrev pub record_found : BookChange → Bool → LiveBookTap → Option Recording → LiveBookTap
record_found change was_stale tap none = tap
record_found change was_stale tap (some r) = record tap {
  recordings = put (ticker_of change) (record_in tap.max_events change was_stale r) tap.recordings;
}

unfoldable pub record_change : BookChange → Bool → LiveBookTap → LiveBookTap
record_change change was_stale tap =
    record_found change was_stale tap (lookup (ticker_of change) tap.recordings)

abbrev pub is_same_object : Option ℕ → ℕ → Bool
is_same_object none n = false
is_same_object (some m) n = m == n

abbrev pub is_lost : Option BookObject → Option ℕ → Bool
is_lost none identity = true
is_lost (some o) identity = not (is_same_object identity o.identity) || o.book.stale

abbrev pub final_fault : Option TapFault → Bool → Option TapFault
final_fault (some fault) lost = some fault
final_fault none lost = if lost then some fault_stale else none

unfoldable pub finish : String → Option BookObject → Recording → TapWindow
finish ticker current r = record {
  ticker = ticker;
  start = r.start;
  events = r.events;
  fault = final_fault r.fault (is_lost current r.identity);
}

abbrev pub finish_all : Dict String BookObject → Dict String Recording → Dict String TapWindow
finish_all books [] = []
finish_all books ((t, r) ∷ d) = (t, finish t (lookup t books) r) ∷ finish_all books d

abbrev pub close_tap : Dict String BookObject → LiveBookTap → Dict String TapWindow × LiveBookTap
close_tap books tap = elim tap.windows [
  | some windows ↦ (windows, tap)
  | none ↦
      let windows = finish_all books tap.recordings in
      (windows, record tap { recordings = []; windows = some windows })
]

abbrev pub put_all : Dict String TapWindow → Dict String TapWindow → Dict String TapWindow
put_all d [] = d
put_all d ((t, w) ∷ e) = put_all (put t w d) e

abbrev pub absent_windows : List String → Dict String TapWindow
absent_windows [] = []
absent_windows (t ∷ ts) = (t, absent_window t) ∷ absent_windows ts

-- CompositeBookTap.close, of its parts' windows
abbrev pub merge_windows :
    Dict String TapWindow → List (Dict String TapWindow) → Dict String TapWindow
merge_windows d [] = d
merge_windows d (w ∷ ws) = merge_windows (put_all d w) ws

unfoldable pub close_composite : List String → List (Dict String TapWindow) → Dict String TapWindow
close_composite uncovered windows = merge_windows (absent_windows uncovered) windows
