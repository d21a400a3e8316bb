-- ===== src/Session.antt =====
-- src/tape/api/session.py: the queue of one live connection, its resynchronization when the client reads
-- too slowly, and the limits on what the client sends. Times are monotonic nanoseconds. What
-- the feed answers for a market is an argument. Messages have the fields that a session reads.

pub mod Limits
pub mod Delivery
mod Tests
use kalshi_trading_project.Prelude.{
  ℕ, zero, suc, ◌+◌, ◌-◌, ◌*◌, ltb, leb, ◌||◌, Bool, true, false, Option, none, some, List, [], ◌∷◌,
  ◌++◌, length, if◌then◌else◌,
}
use Prim.Native.String.{String}

-- src/tape/api/contract.py
pub data ServerMessage : Type 0 where
  hello_message : ServerMessage
  subscribed_message : List String → ServerMessage
  error_message : String → ServerMessage
  resync_message snapshot_message book_message delta_message trade_message ticker_message :
      String → ServerMessage

abbrev pub lag_window_ns : ℕ
lag_window_ns = 60 * 1_000_000_000

abbrev pub lag_limit : ℕ
lag_limit = 3

abbrev pub ns_per_s : ℕ
ns_per_s = 1_000_000_000

abbrev pub close_too_slow : ℕ
close_too_slow = 4000

abbrev pub close_policy_violation : ℕ
close_policy_violation = 1008

abbrev pub max_client_message_bytes : ℕ
max_client_message_bytes = 4096

abbrev pub max_client_messages_per_s : ℕ
max_client_messages_per_s = 10

pub record ClientSession : Type 0 where
  pub queue_max : ℕ
  pub queue : List ServerMessage
  pub subscriptions : List String
  pub received_ns : List ℕ
  pub lags_ns : List ℕ
  pub lags : ℕ
  pub close_code : Option ℕ
  pub gone : Bool

abbrev pub close_open : ℕ → ClientSession → Option ℕ → ClientSession
close_open code s (some closed) = s
close_open code s none = record s { close_code = some code; queue = [] }

unfoldable pub close : ℕ → ClientSession → ClientSession
close code s = close_open code s s.close_code

-- while now - times[0] >= window: popleft
unfoldable pub recent : ℕ → ℕ → List ℕ → List ℕ
recent window now [] = []
recent window now (t ∷ ts) =
    let rest = recent window now ts in if leb window (now - t) then rest else t ∷ ts

abbrev pub is_reply : ServerMessage → Bool
is_reply (subscribed_message ts) = true
is_reply (error_message text) = true
is_reply m = false

unfoldable pub replies_of : List ServerMessage → List ServerMessage
replies_of [] = []
replies_of (m ∷ ms) = let rest = replies_of ms in if is_reply m then m ∷ rest else rest

abbrev pub with_snapshot : Option ServerMessage → List ServerMessage → List ServerMessage
with_snapshot none ms = ms
with_snapshot (some m) ms = m ∷ ms

abbrev pub is_closing : ClientSession → Bool
is_closing s = elim s.close_code [ some code ↦ true | none ↦ s.gone ]

module _ (snapshot : String → Option ServerMessage) where
  unfoldable pub resyncs : List String → List ServerMessage
  resyncs [] = []
  resyncs (t ∷ ts) = resync_message t ∷ with_snapshot (snapshot t) (resyncs ts)

  abbrev pub lag_counted : List ServerMessage → ClientSession → ClientSession
  lag_counted replies s =
      if leb lag_limit (length s.lags_ns)
      then close close_too_slow s
      else record s { queue = replies ++ resyncs s.subscriptions }

  unfoldable pub lag : ℕ → List ServerMessage → ClientSession → ClientSession
  unfolding recent close resyncs
  lag now_ns replies s = lag_counted replies (record s {
    lags = s.lags + 1;
    lags_ns = recent lag_window_ns now_ns (s.lags_ns ++ now_ns ∷ []);
  })

  abbrev pub offer_open : ℕ → List ServerMessage → ClientSession → ClientSession
  offer_open now_ns messages s =
      if leb (length s.queue + length messages) s.queue_max
      then record s { queue = s.queue ++ messages }
      else lag now_ns (replies_of messages) s

  -- `now_ns` is what the clock says if the queue overflows.
  unfoldable pub offer : ℕ → List ServerMessage → ClientSession → ClientSession
  unfolding lag replies_of
  offer now_ns [] s = s
  offer now_ns (m ∷ ms) s = if is_closing s then s else offer_open now_ns (m ∷ ms) s

abbrev pub judged : ℕ → ClientSession → Bool × ClientSession
judged size s =
    if ltb max_client_message_bytes size || ltb max_client_messages_per_s (length s.received_ns)
    then (false, close close_policy_violation s)
    else (true, s)

unfoldable pub within_limits : ℕ → ℕ → ClientSession → Bool × ClientSession
unfolding recent close
within_limits now_ns size s =
    judged size (record s { received_ns = recent ns_per_s now_ns (s.received_ns ++ now_ns ∷ []) })

-- The writer takes the first message that is queued, to send it.
abbrev pub taken_from : ClientSession → List ServerMessage → Option ServerMessage × ClientSession
taken_from s [] = (none, s)
taken_from s (m ∷ ms) = (some m, record s { queue = ms })

unfoldable pub take_next : ClientSession → Option ServerMessage × ClientSession
take_next s = taken_from s s.queue

-- A send failed, or the reader saw the end of the connection.
abbrev pub set_gone : ClientSession → ClientSession
set_gone s = record s { gone = true }

abbrev pub replace_subscriptions : List String → ClientSession → ClientSession
replace_subscriptions tickers s = record s { subscriptions = tickers }

abbrev pub empty_session : ℕ → ClientSession
empty_session queue_max = record {
  queue_max = queue_max;
  queue = [];
  subscriptions = [];
  received_ns = [];
  lags_ns = [];
  lags = 0;
  close_code = none;
  gone = false;
}

-- None stands for the ValueError.
abbrev pub new_session : ℕ → Option ClientSession
new_session queue_max = if ltb queue_max 1 then none else some (empty_session queue_max)
