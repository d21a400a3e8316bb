-- ===== src/Auditor/Tests.antt =====
-- Runs of the auditor, and the theorems at them.
use kalshi_trading_project.Prelude.{ℕ, ◌≡◌, refl, true, none, some, List, [], ◌∷◌, All, arith}
use kalshi_trading_project.Prelude.Int.{negsuc, ◌+ℤ◌}
use kalshi_trading_project.Prelude.Eq.{string_eq}
use kalshi_trading_project.Prelude.Result.{ok}
use kalshi_trading_project.Prelude.Dict.{Dict, lookup, put, remove}
use kalshi_trading_project.Events.{ask, Level, Receipt, BookDelta}
use kalshi_trading_project.Book.{
  Book, new_book, apply_snapshot, apply_delta, best_key, best_from, new_image, collect,
  settle_delta, store_level, finish_delta, mark_stale,
}
use kalshi_trading_project.Book.Invariant.{
  IsWellFormed, new_book-IsWellFormed, apply_snapshot-IsWellFormed, apply_delta-IsWellFormed,
}
use kalshi_trading_project.Book.Compare.{checksum}
use kalshi_trading_project.Planner.{is_member}
use kalshi_trading_project.Tap.{BookObject, delta_taken, to_book, TapWindow, finish}
use kalshi_trading_project.Tap.Watch.{Market, Happening, takes_delta, happen, watch}
use kalshi_trading_project.Tap.Faithful.{opened}
use kalshi_trading_project.Tap.Replay.{replay, replay_all}
use kalshi_trading_project.Auditor.{WindowVerdict, received_by, classify_window}
use kalshi_trading_project.Auditor.Verdict.{IsVerdictOn}
use kalshi_trading_project.Auditor.Classify.{classify_window-IsVerdictOn}
use kalshi_trading_project.Auditor.Alarms.{IsPassed, classify_window-IsPassed}
use kalshi_trading_project.Auditor.Loops.{state_at}
use kalshi_trading_project.Auditor.Rotation.{choices, unique_of}
use kalshi_trading_project.Auditor.Fairness.{choices-is_member}
use kalshi_trading_project.Auditor.Results.{Timing, Auditor}
use kalshi_trading_project.Auditor.Rounds.{orderbooks, BatchAnswer, batches_of}
use kalshi_trading_project.Auditor.Returns.{checksum-IsChecksum}
use kalshi_trading_project.Auditor.Batches.{concat, IsBatch, concat-batches_of}
use Prim.Native.String.{String}

abbrev receipt : Receipt
receipt = record { conn_id = 0; recv_mono_ns = 5; recv_wall_ns = 6 }

abbrev bids : List Level
bids = record { price = 4000; count = 100 } ∷ []

abbrev asks : List Level
asks = record { price = 5200; count = 300 } ∷ []

abbrev change : BookDelta
change = record {
  ticker = "M";
  ts_ms = some 8;
  receipt = receipt;
  sid = 1;
  seq = some 2;
  side = ask;
  price = 5200;
  delta = negsuc 99;
  own_client_order_id = none;
}

abbrev book : Book
book = (apply_snapshot bids asks none (new_book "M")).1

-- The book after the change.
abbrev changed : Book
changed = (apply_delta ask 5200 (negsuc 99) (some 8) book).1

book-IsWellFormed : IsWellFormed book
book-IsWellFormed = apply_snapshot-IsWellFormed _ _ _ _ (new_book-IsWellFormed "M")

changed-IsWellFormed : IsWellFormed changed
changed-IsWellFormed = apply_delta-IsWellFormed _ _ _ _ _ book-IsWellFormed

abbrev window : TapWindow
window = record {
  ticker = "M";
  start = some (record { bids = bids; asks = asks });
  events = delta_taken change ∷ [];
  fault = none;
}

-- What the tests below call, open.
watches : ℕ → List Happening → Market → Market
unfolding watch happen apply_snapshot apply_delta new_image collect best_key best_from settle_delta
    store_level finish_delta mark_stale lookup put remove ◌+ℤ◌ finish to_book replay replay_all
    state_at
watches = watch

classify_window-IsVerdictOn_example :
    IsVerdictOn
      (book ∷ changed ∷ [])
      changed
      (received_by 4 window.events)
      (classify_window window changed 4 checksum)
unfolding watches
classify_window-IsVerdictOn_example =
    classify_window-IsVerdictOn checksum window changed 4 (record { bids = bids; asks = asks }) book
      changed (changed ∷ []) checksum-IsChecksum refl refl refl refl (changed-IsWellFormed, refl)

abbrev object : BookObject
object = record { identity = 3; book = book }

abbrev happenings : List Happening
happenings = takes_delta change ∷ []

classify_window-IsPassed_example :
    (v : WindowVerdict) × (classify_window
        (finish "M"
          (watch 10 happenings (opened (some object) 4)).held
          (watch 10 happenings (opened (some object) 4)).recording)
        changed
        9
        checksum
      ≡ ok v)
    × IsPassed v.outcome
unfolding watches
classify_window-IsPassed_example =
    classify_window-IsPassed checksum "M" 10 (some object) 4 happenings changed changed 9 0
      checksum-IsChecksum book-IsWellFormed refl (changed-IsWellFormed, refl) refl (λ s q. refl)

choices-is_member_example : is_member "B" (choices 2 ("B" ∷ "A" ∷ "C" ∷ "A" ∷ []) 2 1) ≡ true
unfolding unique_of
choices-is_member_example =
    choices-is_member "B" ("B" ∷ "A" ∷ "C" ∷ "A" ∷ []) 2 2 1 refl (omega arith)

concat-batches_of_example :
    (concat (batches_of 3 ("A" ∷ "B" ∷ [])) ≡ "A" ∷ "B" ∷ [])
    × All IsBatch (batches_of 3 ("A" ∷ "B" ∷ []))
concat-batches_of_example = concat-batches_of 3 ("A" ∷ "B" ∷ []) (omega arith)

abbrev timing : Timing
timing = record {
  window_open_mono_ns = 1;
  send_mono_ns = 2;
  send_wall_ns = 2;
  recv_mono_ns = 4;
  recv_wall_ns = 4;
  window_close_mono_ns = 6;
}

-- A batch that gets no window, and one orderbook without levels.
abbrev answer : List String → BatchAnswer
answer batch = record {
  fetched =
      orderbooks
        (record { ticker = "M"; orderbook_fp = record { yes_dollars = []; no_dollars = [] } } ∷ [])
        timing;
  windows = [];
}

abbrev auditor : Auditor
auditor = record {
  sample_size = 5;
  cursor = 0;
  rounds = 7;
  books_exact = 1;
  books_consistent = 1;
  books_inconsistent = 0;
  books_undecidable = 0;
  books_skipped_stale = 0;
  books_missing_local = 0;
  books_invalid_rest = 0;
  levels_mismatched = 2;
}

-- The second book is stale.
abbrev books : Dict String Book
books = ("M", book) ∷ ("N", new_book "N") ∷ []
