-- ===== src/Convert.antt =====
-- src/tape/wire/convert.py: frames of the exchange into events on the YES price scale, and the
-- messages of src/tape/wire/ws.py and src/tape/wire/rest.py in the fields that it reads. A raw
-- payload is its text.
pub mod Ranges
mod Tests
use kalshi_trading_project.Prelude.{
  ℕ, ◌==◌, Bool, true, false, not, Option, none, some, List, [], ◌∷◌, if◌then◌else◌,
}
use kalshi_trading_project.Prelude.Int.{ℤ}
use kalshi_trading_project.Prelude.Result.{Result, ok, err, ◌>>=◌}
use kalshi_trading_project.Prelude.Dict.{or_else}
use kalshi_trading_project.Events.{
  Side, bid, ask, Receipt, Level, BookSnapshot, BookDelta, Trade, TickerUpdate, Lifecycle,
}
use kalshi_trading_project.FixedPoint.{
  Text, FixedPointError, parse_price, parse_count, parse_signed_count, complement,
}
use Prim.Native.String.{String}

pub record Envelope : Type 0 where
  pub sid : Option ℕ
  pub seq : Option ℕ
  pub msg : String

pub data MarketSide : Type 0 where
  yes_side no_side : MarketSide

pub record OrderbookSnapshotMsg : Type 0 where
  pub market_ticker : String
  pub yes_dollars_fp : Option (List (Text × Text))
  pub no_dollars_fp : Option (List (Text × Text))

pub record OrderbookDeltaMsg : Type 0 where
  pub market_ticker : String
  pub price_dollars : Text
  pub delta_fp : Text
  pub side : MarketSide
  pub client_order_id : Option String
  pub ts_ms : Option ℕ

pub record TradeMsg : Type 0 where
  pub trade_id : String
  pub market_ticker : String
  pub yes_price_dollars : Text
  pub count_fp : Text
  pub taker_book_side : Side
  pub ts_ms : ℕ
  pub is_block_trade : Bool

pub record TickerMsg : Type 0 where
  pub market_ticker : String
  pub ts_ms : ℕ
  pub price_dollars : Option Text
  pub yes_bid_dollars : Option Text
  pub yes_ask_dollars : Option Text
  pub yes_bid_size_fp : Option Text
  pub yes_ask_size_fp : Option Text
  pub volume_fp : Option Text
  pub open_interest_fp : Option Text

pub record MarketLifecycleMsg : Type 0 where
  pub event_type : String
  pub market_ticker : String
  pub close_ts : Option ℤ

pub record OrderbookCountFp : Type 0 where
  pub yes_dollars : List (Text × Text)
  pub no_dollars : List (Text × Text)

-- `WireError` and `FixedPointError`.
pub data ConvertError : Type 0 where
  without_sid : ConvertError
  malformed : FixedPointError → ConvertError

abbrev pub to_scale : Bool → ℕ → ℕ
to_scale to_yes price = if to_yes then complement price else price

abbrev pub level_before : Bool → ℕ → ℕ → List Level → List Level
level_before to_yes price count out =
    if count == 0 then out else record { price = to_scale to_yes price; count = count } ∷ out

unfoldable pub levels_of_pairs : Bool → List (Text × Text) → Result FixedPointError (List Level)
unfolding complement
levels_of_pairs to_yes [] = ok []
levels_of_pairs to_yes ((price_text, count_text) ∷ pairs) =
    let rest = levels_of_pairs to_yes pairs in
    parse_price price_text >>= λ price.
    parse_count count_text >>= λ count. rest >>= λ out. ok (level_before to_yes price count out)

unfoldable pub rest_orderbook_levels :
    OrderbookCountFp → Result FixedPointError (List Level × List Level)
unfolding levels_of_pairs
rest_orderbook_levels book = do
  bids ← levels_of_pairs false book.yes_dollars
  asks ← levels_of_pairs true book.no_dollars
  ok (bids, asks)

abbrev pub sid_of : Envelope → Result ConvertError ℕ
sid_of envelope = elim envelope.sid [ none ↦ err without_sid | some sid ↦ ok sid ]

abbrev pub parsed : {A : Type 0} → Result FixedPointError A → Result ConvertError A
parsed (ok a) = ok a
parsed (err e) = err (malformed e)

unfoldable pub to_book_snapshot :
    OrderbookSnapshotMsg → Envelope → Receipt → Bool → Result ConvertError BookSnapshot
unfolding levels_of_pairs
to_book_snapshot msg envelope receipt use_yes_price = do
  sid ← sid_of envelope
  bids ← parsed (levels_of_pairs false (or_else msg.yes_dollars_fp []))
  asks ← parsed (levels_of_pairs (not use_yes_price) (or_else msg.no_dollars_fp []))
  ok (record {
    ticker = msg.market_ticker;
    ts_ms = none;
    receipt = receipt;
    sid = sid;
    seq = envelope.seq;
    bids = bids;
    asks = asks;
  })

abbrev pub book_side : MarketSide → Side
book_side yes_side = bid
book_side no_side = ask

abbrev pub delta_price : MarketSide → Bool → ℕ → ℕ
delta_price yes_side use_yes_price price = price
delta_price no_side use_yes_price price = if use_yes_price then price else complement price

unfoldable pub to_book_delta :
    OrderbookDeltaMsg → Envelope → Receipt → Bool → Result ConvertError BookDelta
unfolding complement
to_book_delta msg envelope receipt use_yes_price = do
  sid ← sid_of envelope
  price ← parsed (parse_price msg.price_dollars)
  delta ← parsed (parse_signed_count msg.delta_fp)
  ok (record {
    ticker = msg.market_ticker;
    ts_ms = msg.ts_ms;
    receipt = receipt;
    sid = sid;
    seq = envelope.seq;
    side = book_side msg.side;
    price = delta_price msg.side use_yes_price price;
    delta = delta;
    own_client_order_id = msg.client_order_id;
  })

unfoldable pub to_trade : TradeMsg → Envelope → Receipt → Result ConvertError Trade
to_trade msg envelope receipt = do
  sid ← sid_of envelope
  price ← parsed (parse_price msg.yes_price_dollars)
  count ← parsed (parse_count msg.count_fp)
  ok (record {
    ticker = msg.market_ticker;
    ts_ms = msg.ts_ms;
    receipt = receipt;
    sid = sid;
    seq = envelope.seq;
    trade_id = msg.trade_id;
    price = price;
    count = count;
    taker_side = msg.taker_book_side;
    is_block = msg.is_block_trade;
  })

abbrev pub optional :
    (Text → Result FixedPointError ℕ) → Option Text → Result ConvertError (Option ℕ)
optional parse none = ok none
optional parse (some text) = parsed (parse text) >>= λ n. ok (some n)

unfoldable pub to_ticker : TickerMsg → Envelope → Receipt → Result ConvertError TickerUpdate
to_ticker msg envelope receipt = do
  sid ← sid_of envelope
  last ← optional parse_price msg.price_dollars
  bid_price ← optional parse_price msg.yes_bid_dollars
  ask_price ← optional parse_price msg.yes_ask_dollars
  bid_size ← optional parse_count msg.yes_bid_size_fp
  ask_size ← optional parse_count msg.yes_ask_size_fp
  volume ← optional parse_count msg.volume_fp
  open_interest ← optional parse_count msg.open_interest_fp
  ok (record {
    ticker = msg.market_ticker;
    ts_ms = msg.ts_ms;
    receipt = receipt;
    sid = sid;
    last = last;
    bid_price = bid_price;
    ask_price = ask_price;
    bid_size = bid_size;
    ask_size = ask_size;
    volume = or_else volume 0;
    open_interest = or_else open_interest 0;
  })

unfoldable pub to_lifecycle :
    MarketLifecycleMsg → Envelope → Receipt → Result ConvertError Lifecycle
to_lifecycle msg envelope receipt = do
  sid ← sid_of envelope
  ok (record {
    ticker = msg.market_ticker;
    receipt = receipt;
    sid = sid;
    seq = envelope.seq;
    event_type = msg.event_type;
    payload_json = envelope.msg;
    close_ts = msg.close_ts;
  })
