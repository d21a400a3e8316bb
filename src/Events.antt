-- ===== src/Events.antt =====
-- src/tape/events.py: the market-data events and their parts. Prices are `PriceE4` and counts
-- `CountE2`, which the source declares non-negative; times, ids and sequence numbers are
-- non-negative too. Signed quantities are `ℤ`.
use kalshi_trading_project.Prelude.{ℕ, Bool, Option, List}
use kalshi_trading_project.Prelude.Int.{ℤ}
use Prim.Native.String.{String}

pub data Side : Type 0 where
  bid ask : Side

pub record Receipt : Type 0 where
  pub conn_id : ℕ
  pub recv_mono_ns : ℕ
  pub recv_wall_ns : ℕ

pub record Level : Type 0 where
  pub price : ℕ
  pub count : ℕ

pub record BookSnapshot : Type 0 where
  pub ticker : String
  pub ts_ms : Option ℕ
  pub receipt : Receipt
  pub sid : ℕ
  pub seq : Option ℕ
  pub bids : List Level
  pub asks : List Level

pub record BookDelta : Type 0 where
  pub ticker : String
  pub ts_ms : Option ℕ
  pub receipt : Receipt
  pub sid : ℕ
  pub seq : Option ℕ
  pub side : Side
  pub price : ℕ
  pub delta : ℤ
  pub own_client_order_id : Option String

pub record Trade : Type 0 where
  pub ticker : String
  pub ts_ms : ℕ
  pub receipt : Receipt
  pub sid : ℕ
  pub seq : Option ℕ
  pub trade_id : String
  pub price : ℕ
  pub count : ℕ
  pub taker_side : Side
  pub is_block : Bool

-- `Ticker` in the source.
pub record TickerUpdate : Type 0 where
  pub ticker : String
  pub ts_ms : ℕ
  pub receipt : Receipt
  pub sid : ℕ
  pub last : Option ℕ
  pub bid_price : Option ℕ
  pub ask_price : Option ℕ
  pub bid_size : Option ℕ
  pub ask_size : Option ℕ
  pub volume : ℕ
  pub open_interest : ℕ

pub record Lifecycle : Type 0 where
  pub ticker : String
  pub receipt : Receipt
  pub sid : ℕ
  pub seq : Option ℕ
  pub event_type : String
  pub payload_json : String
  pub close_ts : Option ℤ

pub record BookRefresh : Type 0 where
  pub ticker : String
  pub ts_ms : Option ℕ
  pub receipt : Receipt
  pub stale : Bool
  pub bids : List Level
  pub asks : List Level

pub record GapEvent : Type 0 where
  pub receipt : Receipt
  pub sid : ℕ
  pub expected_seq : ℕ
  pub got_seq : ℕ

pub record CatalogEntry : Type 0 where
  pub ticker : String
  pub series_ticker : String
  pub event_ticker : String
  pub volume_24h : ℕ
  pub close_ts : Option ℤ
  pub showcase : Bool

pub record ConnectionReport : Type 0 where
  pub conn_id : ℕ
  pub taped : Bool
  pub frames : ℕ
  pub gaps : ℕ
  pub reconnects : ℕ
  pub stale_books : ℕ
  pub sink_dropped : ℕ

pub record StatusReport : Type 0 where
  pub interval_s : ℕ
  pub universe_size : ℕ
  pub subscribed_markets : ℕ
  pub connections : List ConnectionReport

-- The union `BusEvent`, with the members of `MarketEvent` first.
pub data BusEvent : Type 0 where
  book_snapshot : BookSnapshot → BusEvent
  book_delta : BookDelta → BusEvent
  trade : Trade → BusEvent
  ticker_update : TickerUpdate → BusEvent
  lifecycle : Lifecycle → BusEvent
  gap_event : GapEvent → BusEvent
  book_refresh : BookRefresh → BusEvent
  market_catalog : List CatalogEntry → BusEvent
  status_report : StatusReport → BusEvent
