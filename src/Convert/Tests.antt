-- ===== src/Convert/Tests.antt =====
-- A snapshot frame with NO-leg prices, and the theorem at it.
use kalshi_trading_project.Prelude.{refl, false, some, none, [], ◌∷◌, All}
use kalshi_trading_project.Events.{Receipt, BookSnapshot}
use kalshi_trading_project.FixedPoint.{Text, parse_price, parse_scaled, parse_count}
use kalshi_trading_project.Convert.{Envelope, OrderbookSnapshotMsg, to_book_snapshot}
use kalshi_trading_project.Convert.Ranges.{IsInRange, to_book_snapshot-IsInRange}

-- "0.56", "0.4" and "12.5"
abbrev price_56 : Text
price_56 = 48 ∷ 46 ∷ 53 ∷ 54 ∷ []

abbrev price_40 : Text
price_40 = 48 ∷ 46 ∷ 52 ∷ []

abbrev count_12 : Text
count_12 = 49 ∷ 50 ∷ 46 ∷ 53 ∷ []

abbrev frame : Envelope
frame = record { sid = some 2; seq = some 1; msg = "" }

abbrev receipt : Receipt
receipt = record { conn_id = 0; recv_mono_ns = 1; recv_wall_ns = 2 }

abbrev message : OrderbookSnapshotMsg
message = record {
  market_ticker = "T";
  yes_dollars_fp = some ((price_40, count_12) ∷ []);
  no_dollars_fp = some ((price_40, count_12) ∷ (price_56, 48 ∷ []) ∷ []);
}

abbrev converted : BookSnapshot
converted = record {
  ticker = "T";
  ts_ms = none;
  receipt = receipt;
  sid = 2;
  seq = some 1;
  bids = record { price = 4_000; count = 1_250 } ∷ [];
  asks = record { price = 6_000; count = 1_250 } ∷ [];
}

to_book_snapshot-IsInRange_example : All IsInRange converted.bids × All IsInRange converted.asks
unfolding to_book_snapshot parse_price parse_scaled parse_count
to_book_snapshot-IsInRange_example =
    to_book_snapshot-IsInRange message frame receipt false converted refl
