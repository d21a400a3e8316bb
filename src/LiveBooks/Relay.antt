-- ===== src/LiveBooks/Relay.antt =====
-- What a consumer of the bus has of the books of all connections.
use kalshi_trading_project.Prelude.{ℕ, ◌≡◌, refl, inl, inr, Bool, none, some, List, [], ◌∷◌}
use mathlib.Core.Path.{subst⁻¹}
use kalshi_trading_project.Prelude.Eq.{string_eq}
use kalshi_trading_project.Prelude.Dict.{lookup, or_else}
use kalshi_trading_project.Book.{new_book, apply_snapshot}
use kalshi_trading_project.LiveBooks.{LiveBooks}
use kalshi_trading_project.LiveBooks.Publisher.{
  move, after_snapshot, snapshot_frame, delta_frame, stale_mark, other_event, is_about_book,
}
use kalshi_trading_project.LiveBooks.Copies.{AreCopies}
use kalshi_trading_project.LiveBooks.Mirror.{start-IsInStep}
use kalshi_trading_project.LiveBooks.Recorder.{
  Recorder, RecorderMove, snapshot_on, delta_on, stale_on, drop_on, refresh, other_on, restarted,
  relay, Feed, new_feed, relay_one, relay_all, IsOrderly, AreOrderly,
}
use kalshi_trading_project.LiveBooks.Whole.{all_books, IsRelayed}
use kalshi_trading_project.LiveBooks.Handled.{
  prepared, after_snapshot-IsRelayed, delta_to_held-IsRelayed, mark_held-IsRelayed, whole_has,
  drop-IsWhole, on_bus-IsRelayed, refreshed-IsRelayed, restarted-IsRelayed, whole_step,
  held_from-IsHeld, RelayedAfter, StepKeeps,
}

relay-IsRelayed :
    (m : RecorderMove) (r : Recorder) (lb : LiveBooks) (arrives : Bool)
    → IsOrderly m r
    → IsRelayed r lb
    → RelayedAfter arrives lb (relay m r)
unfolding relay move
relay-IsRelayed (snapshot_on c s) r lb arrives only h =
    let (d, whole, k, same) = prepared r lb c s.ticker h only in
    after_snapshot-IsRelayed r lb arrives c d whole s _ only (
      subst⁻¹
        (λ o. StepKeeps arrives lb (
          after_snapshot s (all_books d r)
            (apply_snapshot s.bids s.asks s.ts_ms (or_else o (new_book s.ticker)))))
        same (whole_step r lb arrives d (snapshot_frame s) k))
relay-IsRelayed (delta_on c e) r lb arrives only (d, h, k) =
    delta_to_held-IsRelayed r lb arrives c d h e _ refl k (λ b at.
      rw (whole_has r lb arrives c d h e.ticker b at) at
        (whole_step r lb arrives d (delta_frame e) k))
relay-IsRelayed (stale_on c u) r lb arrives only (d, h, k) =
    mark_held-IsRelayed r lb arrives c d h u _ refl k (λ b at.
      rw (whole_has r lb arrives c d h u b at) at (whole_step r lb arrives d (stale_mark u) k))
relay-IsRelayed (drop_on c u) r lb arrives only (d, h, k) =
    (d, drop-IsWhole r lb arrives c d h u, k)
relay-IsRelayed (refresh u mono_ns wall_ns) r lb arrives only (d, h, k) =
    refreshed-IsRelayed r lb arrives d u mono_ns wall_ns _ h k
      (held_from-IsHeld r.books u none r.conn_ids tt)
relay-IsRelayed (other_on event) r lb arrives only (d, h, k) =
    on_bus-IsRelayed r lb arrives d event (is_about_book event) h
      (whole_step r lb arrives d (other_event event) k)
relay-IsRelayed (restarted epoch) r lb arrives later (d, h, k) =
    restarted-IsRelayed r lb arrives d epoch k later

relay_all-IsRelayed :
    (w : Feed) (ms : List (RecorderMove × Bool))
    → AreOrderly w ms
    → IsRelayed w.recorder w.consumer
    → IsRelayed (relay_all w ms).recorder (relay_all w ms).consumer
unfolding relay_all AreOrderly relay_one
relay_all-IsRelayed w [] o h = h
relay_all-IsRelayed w ((m, arrives) ∷ ms) o h =
    relay_all-IsRelayed (relay_one w (m, arrives)) ms o.1
      (relay-IsRelayed m w.recorder w.consumer arrives o.0 h)

new_feed-IsRelayed :
    (conn_ids : List ℕ) (epoch : ℕ)
    → IsRelayed (new_feed conn_ids epoch).recorder (new_feed conn_ids epoch).consumer
unfolding lookup
new_feed-IsRelayed conn_ids epoch =
    ([], record { part = λ c t. inl refl; alone = λ t c i. inr (inl refl) }, start-IsInStep epoch)

-- From a recorder and a consumer that start, after any moves of any connections, refreshes and restarts,
-- whichever of the messages were lost, provided that a market's snapshot comes on a connection only
-- while no other connection holds the market, and that each restart's epoch is later than the last
-- one: if the consumer's latest message is the recorder's latest, then for every market that a
-- connection and the consumer both hold, whenever the connection's book is fresh the consumer's copy
-- is fresh too and has the same count at every price on both sides.
pub relay_all-AreCopies :
    (conn_ids : List ℕ) (epoch : ℕ) (ms : List (RecorderMove × Bool))
    → AreOrderly (new_feed conn_ids epoch) ms
    → (relay_all (new_feed conn_ids epoch) ms).consumer.current_epoch
      ≡ some (relay_all (new_feed conn_ids epoch) ms).recorder.epoch
    → (relay_all (new_feed conn_ids epoch) ms).consumer.last_seq
      ≡ some (relay_all (new_feed conn_ids epoch) ms).recorder.last_seq
    → (c : ℕ)
    → AreCopies
        ((relay_all (new_feed conn_ids epoch) ms).recorder.books c)
        (relay_all (new_feed conn_ids epoch) ms).consumer.books
relay_all-AreCopies conn_ids epoch ms o e n c t =
    let (d, h, k) =
      relay_all-IsRelayed (new_feed conn_ids epoch) ms o (new_feed-IsRelayed conn_ids epoch) in
    elim (h.part c t) [ inl is_none ↦ rw is_none tt | inr same ↦ rw same (k.copies e n t) ]
