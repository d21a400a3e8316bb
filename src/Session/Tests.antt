-- ===== src/Session/Tests.antt =====
-- A client that is too slow, and the theorems at it.
use kalshi_trading_project.Prelude.{◌≡◌, refl, Option, none, some, List, [], ◌∷◌}
use Prim.Native.String.{String}
use kalshi_trading_project.Session.{
  ServerMessage, resync_message, snapshot_message, trade_message, ticker_message,
  subscribed_message, offer, lag, recent, replies_of, resyncs, within_limits, take_next, close,
  empty_session, new_session,
}
use kalshi_trading_project.Session.Limits.{
  Event, offered, follows, taken_next, received, IsLimited, step, run, run-IsLimited,
}
use kalshi_trading_project.Session.Delivery.{IsDelivered, started, watch_all, watch_all-IsDelivered}

abbrev answer : String → Option ServerMessage
answer t = some (snapshot_message t)

abbrev events : List Event
events =
    follows ("M" ∷ [])
    ∷ offered 5 answer (trade_message "M" ∷ ticker_message "M" ∷ [])
    ∷ taken_next
    ∷ received 6 100
    ∷ offered 7 answer (subscribed_message ("M" ∷ []) ∷ trade_message "M" ∷ [])
    ∷ []

resynchronized :
    (run events (empty_session 2)).queue
    ≡ subscribed_message ("M" ∷ []) ∷ resync_message "M" ∷ snapshot_message "M" ∷ []
unfolding run step offer lag recent replies_of resyncs within_limits take_next close
resynchronized = refl

run-IsLimited_example : IsLimited (run events (empty_session 2))
run-IsLimited_example = run-IsLimited 2 events

watch_all-IsDelivered_example : IsDelivered (watch_all events (started 2))
watch_all-IsDelivered_example = watch_all-IsDelivered 2 events

no_queue : new_session 0 ≡ none
no_queue = refl

short_queue : new_session 1 ≡ some (empty_session 1)
short_queue = refl
