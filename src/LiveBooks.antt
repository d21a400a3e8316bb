-- ===== src/LiveBooks.antt =====
-- src/tape/bus/livebooks.py: a consumer's copies of the publisher's books, and the rule that says
-- which of them can be trusted.
pub mod Effects
pub mod Publisher
pub mod Copies
pub mod Moves
mod Tests
pub mod Mirror
pub mod Recorder
pub mod Whole
pub mod Handled
pub mod Relay
use kalshi_trading_project.Prelude.{
  ℕ, ◌+◌, ◌-◌, Bool, true, false, Option, none, some, List, [], ◌∷◌, ◌++◌, map, if◌then◌else◌, ◌==◌,
}
use kalshi_trading_project.Prelude.Eq.{string_eq}
use kalshi_trading_project.Prelude.Result.{Result, ok, err}
use kalshi_trading_project.Prelude.Dict.{Dict, lookup, put, remove}
use Prim.Native.String.{String, compare}
use text.Mathlib.Text.{is_lt}
use kalshi_trading_project.Events.{
  BusEvent, BookSnapshot, BookDelta, BookRefresh, book_snapshot, book_delta, book_refresh,
}
use kalshi_trading_project.Book.Keyframe.{marked_if}
use kalshi_trading_project.Book.{Book, Violation, new_book, apply_snapshot, apply_delta}

pub data BookStatus : Type 0 where
  unknown fresh stale : BookStatus

pub data ResetReason : Type 0 where
  start epoch gap : ResetReason

pub record StatusChange : Type 0 where
  pub ticker : String
  pub before : BookStatus
  pub after : BookStatus

pub record Observation : Type 0 where
  pub reset : Option ResetReason
  pub missed : ℕ
  pub applied : Bool
  pub changes : List StatusChange

-- src/tape/bus/envelope.py
pub record BusEnvelope : Type 0 where
  pub bus_epoch : ℕ
  pub bus_seq : ℕ
  pub event : BusEvent

abbrev pub first_bus_seq : ℕ
first_bus_seq = 1

pub record LiveBooks : Type 0 where
  pub books : Dict String Book
  pub current_epoch : Option ℕ
  pub last_seq : Option ℕ
  pub messages : ℕ
  pub resets : ℕ
  pub missed : ℕ
  pub refreshes : ℕ
  pub ignored : ℕ
  pub book_errors : ℕ

abbrev pub new_live_books : LiveBooks
new_live_books = record {
  books = [];
  current_epoch = none;
  last_seq = none;
  messages = 0;
  resets = 0;
  missed = 0;
  refreshes = 0;
  ignored = 0;
  book_errors = 0;
}

abbrev pub status_of : Option Book → BookStatus
status_of none = unknown
status_of (some b) = if b.stale then stale else fresh

unfoldable pub status : String → LiveBooks → BookStatus
status ticker lb = status_of (lookup ticker lb.books)

-- The reset reason and the messages known to be lost, from the numbers before the message.
unfoldable pub follow : Option ℕ → Option ℕ → BusEnvelope → Option ResetReason × ℕ
follow none previous_seq envelope = (some start, 0)
follow (some previous_epoch) none envelope = (some start, 0)
follow (some previous_epoch) (some previous_seq) envelope =
    if envelope.bus_epoch == previous_epoch
    then if envelope.bus_seq == previous_seq + 1
      then (none, 0)
      else (some gap, envelope.bus_seq - previous_seq - 1)
    else (some epoch, envelope.bus_seq - first_bus_seq)

abbrev insert_ticker : String → List String → List String
insert_ticker t [] = t ∷ []
insert_ticker t (u ∷ us) = if is_lt (compare u t) then u ∷ insert_ticker t us else t ∷ u ∷ us

-- sorted(self._books)
unfoldable pub sorted_tickers : Dict String Book → List String
sorted_tickers [] = []
sorted_tickers ((t, b) ∷ d) = insert_ticker t (sorted_tickers d)

unfoldable pub reset_changes : LiveBooks → List StatusChange
unfolding status
reset_changes lb =
    map (λ t. record { ticker = t; before = status t lb; after = unknown })
      (sorted_tickers lb.books)

abbrev pub adopted : BookRefresh → LiveBooks → Result Violation (Unit {0}) × Book → Bool × LiveBooks
adopted refresh lb (err v, book) =
    (false, record lb { books = remove refresh.ticker lb.books; book_errors = lb.book_errors + 1 })
adopted refresh lb (ok done, book) = (
  true,
  record lb {
    books = put refresh.ticker (marked_if refresh.stale book) lb.books;
    refreshes = lb.refreshes + 1;
  },
)

unfoldable pub adopt : BookRefresh → LiveBooks → Bool × LiveBooks
adopt refresh lb =
    adopted refresh lb
      (apply_snapshot refresh.bids refresh.asks refresh.ts_ms (new_book refresh.ticker))

-- The book that `_change` mutates stays in the dictionary.
abbrev pub changed : String → LiveBooks → Result Violation Bool × Book → Bool × LiveBooks
changed ticker lb (err v, book) =
    (false, record lb { books = remove ticker lb.books; book_errors = lb.book_errors + 1 })
changed ticker lb (ok true, book) = (true, record lb { books = put ticker book lb.books })
changed ticker lb (ok false, book) =
    (false, record lb { books = put ticker book lb.books; ignored = lb.ignored + 1 })

abbrev pub as_applied : Result Violation (Unit {0}) × Book → Result Violation Bool × Book
as_applied (ok done, book) = (ok true, book)
as_applied (err v, book) = (err v, book)

abbrev pub change_held :
    String → (Book → Result Violation Bool × Book) → LiveBooks → Option Book → Bool × LiveBooks
change_held ticker apply lb none = (false, record lb { ignored = lb.ignored + 1 })
change_held ticker apply lb (some book) = changed ticker lb (apply book)

unfoldable pub change :
    String → (Book → Result Violation Bool × Book) → LiveBooks → Bool × LiveBooks
change ticker apply lb = change_held ticker apply lb (lookup ticker lb.books)

abbrev pub snapshot_change : BookSnapshot → Book → Result Violation Bool × Book
snapshot_change s book = as_applied (apply_snapshot s.bids s.asks s.ts_ms book)

abbrev pub delta_change : BookDelta → Book → Result Violation Bool × Book
delta_change d book = apply_delta d.side d.price d.delta d.ts_ms book

same_status : BookStatus → BookStatus → Bool
same_status unknown unknown = true
same_status fresh fresh = true
same_status stale stale = true
same_status a b = false

-- One book event, with the change of its market's status if there is one.
unfoldable pub recorded :
    String → (LiveBooks → Bool × LiveBooks) → LiveBooks → Bool × List StatusChange × LiveBooks
unfolding status same_status
recorded ticker act lb =
    let before = status ticker lb in
    let (applied, lb') = act lb in
    let after = status ticker lb' in
    (
      applied,
      if same_status after before
          then []
          else record { ticker = ticker; before = before; after = after } ∷ [],
      lb',
    )

unfoldable pub apply_event : BusEvent → LiveBooks → Bool × List StatusChange × LiveBooks
unfolding recorded adopt change
apply_event (book_refresh r) lb = recorded r.ticker (adopt r) lb
apply_event (book_snapshot s) lb = recorded s.ticker (change s.ticker (snapshot_change s)) lb
apply_event (book_delta d) lb = recorded d.ticker (change d.ticker (delta_change d)) lb
apply_event event lb = (false, [], lb)

-- The books after `_follow`'s verdict, before the event.
abbrev pub after_follow : Option ResetReason × ℕ → BusEnvelope → LiveBooks → LiveBooks
after_follow (none, missed) envelope lb = record lb {
  messages = lb.messages + 1;
  current_epoch = some envelope.bus_epoch;
  last_seq = some envelope.bus_seq;
}
after_follow (some reason, missed) envelope lb = record lb {
  messages = lb.messages + 1;
  current_epoch = some envelope.bus_epoch;
  last_seq = some envelope.bus_seq;
  resets = lb.resets + 1;
  missed = lb.missed + missed;
  books = [];
}

abbrev changes_of : Option ResetReason → LiveBooks → List StatusChange
changes_of none lb = []
changes_of (some reason) lb = reset_changes lb

unfoldable pub observe : BusEnvelope → LiveBooks → Observation × LiveBooks
unfolding follow reset_changes apply_event
observe envelope lb =
    let verdict = follow lb.current_epoch lb.last_seq envelope in
    let result = apply_event envelope.event (after_follow verdict envelope lb) in
    (
      record {
        reset = verdict.0;
        missed = verdict.1;
        applied = result.0;
        changes = changes_of verdict.0 lb ++ result.1;
      },
      result.2,
    )
