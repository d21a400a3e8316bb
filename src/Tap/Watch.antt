-- ===== src/Tap/Watch.antt =====
-- One market of a supervisor while a tap is open: src/tape/recorder/supervisor.py `_on_snapshot`,
-- `_on_delta`, `_resync_connection` and the dropping of a book, with their calls of the tap.
use kalshi_trading_project.Prelude.{
  ℕ, ◌+◌, Bool, true, false, Option, none, some, List, [], ◌∷◌, ◌++◌,
}
use kalshi_trading_project.Prelude.Result.{Result, ok, err}
use kalshi_trading_project.Events.{BookSnapshot, BookDelta}
use kalshi_trading_project.Book.{Book, Violation, new_book, apply_snapshot, apply_delta, mark_stale}
use kalshi_trading_project.Tap.{
  BookObject, BookChange, snapshot_taken, delta_taken, Recording, record_in,
}

-- `history` is the book after each change since the tap opened.
pub record Market : Type 0 where
  pub held : Option BookObject
  pub next_identity : ℕ
  pub recording : Recording
  pub history : List Book

pub data Happening : Type 0 where
  takes_snapshot : BookSnapshot → Happening
  takes_delta : BookDelta → Happening
  goes_stale is_dropped : Happening

abbrev pub hold_object : ℕ → Book → Market → Market
hold_object identity b m = record m { held = some (record { identity = identity; book = b }) }

abbrev pub keep_change : ℕ → BookChange → Bool → Book → Market → Market
keep_change max_events change was_stale b m = record m {
  recording = record_in max_events change was_stale m.recording;
  history = m.history ++ b ∷ [];
}

abbrev pub snapshot_applied :
    ℕ → BookSnapshot → ℕ → Bool → Market → Result Violation (Unit {0}) × Book → Market
snapshot_applied max_events s identity was_stale m (err v, b) = hold_object identity b m
snapshot_applied max_events s identity was_stale m (ok done, b) =
    keep_change max_events (snapshot_taken s) was_stale b (hold_object identity b m)

abbrev pub snapshot_on : ℕ → BookSnapshot → BookObject → Market → Market
snapshot_on max_events s o m =
    snapshot_applied max_events s o.identity o.book.stale m
      (apply_snapshot s.bids s.asks s.ts_ms o.book)

-- `_book_for` makes a book for a market that has none.
abbrev pub on_snapshot : ℕ → BookSnapshot → Market → Option BookObject → Market
on_snapshot max_events s m none =
    snapshot_on max_events s (record { identity = m.next_identity; book = new_book s.ticker })
      (record m { next_identity = m.next_identity + 1 })
on_snapshot max_events s m (some o) = snapshot_on max_events s o m

abbrev pub delta_applied : ℕ → BookDelta → ℕ → Market → Result Violation Bool × Book → Market
delta_applied max_events d identity m (err v, b) = hold_object identity b m
delta_applied max_events d identity m (ok false, b) = hold_object identity b m
delta_applied max_events d identity m (ok true, b) =
    keep_change max_events (delta_taken d) false b (hold_object identity b m)

abbrev pub on_delta : ℕ → BookDelta → Market → Option BookObject → Market
on_delta max_events d m none = m
on_delta max_events d m (some o) =
    delta_applied max_events d o.identity m (apply_delta d.side d.price d.delta d.ts_ms o.book)

abbrev pub on_stale : Market → Option BookObject → Market
on_stale m none = m
on_stale m (some o) = hold_object o.identity (mark_stale o.book) m

unfoldable pub happen : ℕ → Happening → Market → Market
happen max_events (takes_snapshot s) m = on_snapshot max_events s m m.held
happen max_events (takes_delta d) m = on_delta max_events d m m.held
happen max_events goes_stale m = on_stale m m.held
happen max_events is_dropped m = record m { held = none }

unfoldable pub watch : ℕ → List Happening → Market → Market
watch max_events [] m = m
watch max_events (h ∷ hs) m = watch max_events hs (happen max_events h m)
