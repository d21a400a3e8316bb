-- ===== src/Tap/Tests.antt =====
-- Runs of a tap, and the theorems at them.
use kalshi_trading_project.Prelude.{
  ℕ, ◌≡◌, ◌≤◌, refl, Bool, true, false, none, some, List, [], ◌∷◌, length, if◌then◌else◌,
}
use kalshi_trading_project.Prelude.Int.{negsuc, ◌+ℤ◌}
use kalshi_trading_project.Prelude.Eq.{string_eq}
use kalshi_trading_project.Prelude.Dict.{lookup, put, remove}
use kalshi_trading_project.Events.{ask, Receipt, BookSnapshot, BookDelta}
use kalshi_trading_project.Book.{
  Book, new_book, apply_snapshot, apply_delta, best_key, best_from, new_image, collect,
  settle_delta, store_level, finish_delta, mark_stale,
}
use kalshi_trading_project.Book.Invariant.{
  IsWellFormed, new_book-IsWellFormed, apply_snapshot-IsWellFormed,
}
use kalshi_trading_project.Planner.{is_member}
use kalshi_trading_project.Tap.{
  BookObject, BookChange, delta_taken, LiveBookTap, is_constructed, new_tap, close_tap, finish,
}
use kalshi_trading_project.Tap.Watch.{Market, Happening, takes_snapshot, takes_delta, happen, watch}
use kalshi_trading_project.Tap.Faithful.{opened, IsFaithful, finish-IsFaithful}
use kalshi_trading_project.Tap.Windows.{watch-is_constructed}
use kalshi_trading_project.Tap.Markets.{record_all, window_of, lookup-close_tap}

abbrev receipt : Receipt
receipt = record { conn_id = 0; recv_mono_ns = 5; recv_wall_ns = 6 }

abbrev frame : BookSnapshot
frame = record {
  ticker = "M";
  ts_ms = none;
  receipt = receipt;
  sid = 1;
  seq = some 1;
  bids = record { price = 4000; count = 100 } ∷ [];
  asks = record { price = 5200; count = 300 } ∷ [];
}

abbrev change : BookDelta
change = record {
  ticker = "M";
  ts_ms = some 8;
  receipt = receipt;
  sid = 1;
  seq = some 2;
  side = ask;
  price = 5200;
  delta = negsuc 99;
  own_client_order_id = none;
}

abbrev book : Book
book = (apply_snapshot frame.bids frame.asks none (new_book "M")).1

book-IsWellFormed : IsWellFormed book
book-IsWellFormed = apply_snapshot-IsWellFormed _ _ _ _ (new_book-IsWellFormed "M")

abbrev object : BookObject
object = record { identity = 3; book = book }

abbrev happenings : List Happening
happenings = takes_delta change ∷ takes_snapshot frame ∷ []

-- `watch`, with all that it calls open.
watches : ℕ → List Happening → Market → Market
unfolding watch happen apply_snapshot apply_delta new_image collect best_key best_from settle_delta
    store_level finish_delta mark_stale lookup put remove ◌+ℤ◌ finish
watches = watch

finish-IsFaithful_example :
    IsFaithful
      (finish "M"
        (watch 10 happenings (opened (some object) 4)).held
        (watch 10 happenings (opened (some object) 4)).recording)
      (watch 10 happenings (opened (some object) 4)).held
      (watch 10 happenings (opened (some object) 4)).history
unfolding watches
finish-IsFaithful_example =
    finish-IsFaithful "M" 10 (some object) 4 happenings book-IsWellFormed refl

watch-is_constructed_example :
    (is_constructed (
        finish "M"
          (watch 1 happenings (opened (some object) 4)).held
          (watch 1 happenings (opened (some object) 4)).recording)
      ≡ true)
    × (length (watch 1 happenings (opened (some object) 4)).recording.events ≤ 1)
watch-is_constructed_example = watch-is_constructed "M" 1 (some object) 4 happenings

abbrev changes : List (BookChange × Bool)
changes = (delta_taken change, false) ∷ (delta_taken (record change { ticker = "N" }), false) ∷ []

lookup-close_tap_example :
    (tap : LiveBookTap) × (new_tap ("L" ∷ "M" ∷ []) (("M", object) ∷ []) 10 ≡ some tap)
    × (lookup "M" (close_tap (("M", object) ∷ []) (record_all changes tap)).0 ≡ (
        if is_member "M" ("L" ∷ "M" ∷ [])
        then some (window_of 10 "M" (("M", object) ∷ []) (("M", object) ∷ []) changes)
        else none))
lookup-close_tap_example =
    lookup-close_tap ("L" ∷ "M" ∷ []) (("M", object) ∷ []) (("M", object) ∷ []) 10 changes "M" refl
