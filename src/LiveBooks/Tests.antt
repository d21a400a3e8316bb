-- ===== src/LiveBooks/Tests.antt =====
-- A run of the bus with lost messages, and the theorem at it.
use kalshi_trading_project.Prelude.{
  inr, if_cases, if◌then◌else◌, ℕ, ◌⊎◌, ◌==◌, ◌≡◌, refl, Bool, true, false, Option, none, some,
  List, [], ◌∷◌,
}
use kalshi_trading_project.Prelude.Eq.{string_eq}
use kalshi_trading_project.Prelude.Int.{pos, negsuc, ◌+ℤ◌}
use kalshi_trading_project.Prelude.Dict.{Dict, lookup, put, remove}
use kalshi_trading_project.Events.{ask, Receipt, BookSnapshot, BookDelta}
use Prim.Native.String.{String}
use kalshi_trading_project.Book.{
  size_at, Book, new_book, replaced, apply_snapshot, apply_delta, best_key, best_from, new_image,
  collect, settle_delta, store_level, finish_delta,
}
use kalshi_trading_project.Book.Views.{levels, sort_levels, insert_level}
use kalshi_trading_project.LiveBooks.{observe, fresh, status}
use kalshi_trading_project.LiveBooks.Publisher.{move, publish}
use kalshi_trading_project.LiveBooks.Copies.{AreCopies}
use kalshi_trading_project.LiveBooks.Recorder.{
  Feed, RecorderMove, snapshot_on, delta_on, refresh, new_feed, relay_all, relay_one, relay,
  held_from, AreOrderly,
}
use kalshi_trading_project.LiveBooks.Relay.{relay_all-AreCopies}

-- `relay_all`, with all that it calls open.
runs : Feed → List (RecorderMove × Bool) → Feed
unfolding relay_all relay_one relay held_from move publish observe apply_snapshot apply_delta
    new_image collect best_key best_from settle_delta store_level finish_delta lookup put remove
    ◌+ℤ◌ levels sort_levels insert_level
runs = relay_all

abbrev receipt : Receipt
receipt = record { conn_id = 0; recv_mono_ns = 5; recv_wall_ns = 6 }

abbrev frame : BookSnapshot
frame = record {
  ticker = "M";
  ts_ms = none;
  receipt = receipt;
  sid = 1;
  seq = some 1;
  bids = record { price = 4000; count = 100 } ∷ record { price = 4500; count = 250 } ∷ [];
  asks = record { price = 5200; count = 300 } ∷ [];
}

abbrev ask_delta : BookDelta
ask_delta = record {
  ticker = "M";
  ts_ms = some 8;
  receipt = receipt;
  sid = 1;
  seq = some 2;
  side = ask;
  price = 5200;
  delta = negsuc 99;
  own_client_order_id = none;
}

-- Two connections with a market each. The snapshots arrive, a delta is lost, the next one is seen, then
-- the image, then one more delta.
abbrev history : List (RecorderMove × Bool)
history =
    (snapshot_on 1 frame, true)
    ∷ (snapshot_on 2 (record frame { ticker = "N" }), true)
    ∷ (delta_on 1 ask_delta, false)
    ∷ (delta_on 1 ask_delta, true)
    ∷ (refresh "M" 5 6, true)
    ∷ (delta_on 1 (record ask_delta { delta = pos 5 }), true)
    ∷ []

history_fresh : status "M" (relay_all (new_feed (1 ∷ 2 ∷ []) 1000) history).consumer ≡ fresh
unfolding runs status
history_fresh = refl

history-AreOrderly : AreOrderly (new_feed (1 ∷ 2 ∷ []) 1000) history
unfolding runs AreOrderly
history-AreOrderly = (λ i. inr refl, (second, (tt, (tt, (tt, (tt, tt))))))
  where
    -- The first connection holds another market.
    second :
        (i : ℕ)
        → (2 ≡ i)
          ⊎ (lookup {K = String} "N" (
                if 1 == i
                then (
                  "M",
                  replaced ((4000, 100) ∷ (4500, 250) ∷ []) ((5200, 300) ∷ []) none (new_book "M"),
                )
                  ∷ []
                else [])
              ≡ none)
    second i =
        if_cases (λ (x : Dict String Book). (2 ≡ i) ⊎ (lookup {K = String} "N" x ≡ none)) (1 == i)
          (λ e. inr refl) (λ e. inr refl)

relay_all-AreCopies_example :
    AreCopies
      ((relay_all (new_feed (1 ∷ 2 ∷ []) 1000) history).recorder.books 1)
      (relay_all (new_feed (1 ∷ 2 ∷ []) 1000) history).consumer.books
unfolding runs
relay_all-AreCopies_example =
    relay_all-AreCopies (1 ∷ 2 ∷ []) 1000 history history-AreOrderly refl refl 1

-- A market on two connections: the consumer applies the deltas of both.
abbrev on_two : List (RecorderMove × Bool)
on_two =
    (snapshot_on 1 frame, true)
    ∷ (snapshot_on 2 frame, true)
    ∷ (refresh "M" 5 6, true)
    ∷ (delta_on 1 ask_delta, true)
    ∷ (delta_on 2 ask_delta, true)
    ∷ []

abbrev asks_in : Dict String Book → Option ℕ
asks_in d = elim (lookup "M" d) [ none ↦ none | some b ↦ some (size_at ask 5200 b) ]

on_two_held : asks_in ((relay_all (new_feed (1 ∷ 2 ∷ []) 1000) on_two).recorder.books 1) ≡ some 200
unfolding runs size_at
on_two_held = refl

on_two_copied : asks_in (relay_all (new_feed (1 ∷ 2 ∷ []) 1000) on_two).consumer.books ≡ some 100
unfolding runs size_at
on_two_copied = refl

on_two_fresh : status "M" (relay_all (new_feed (1 ∷ 2 ∷ []) 1000) on_two).consumer ≡ fresh
unfolding runs status
on_two_fresh = refl
