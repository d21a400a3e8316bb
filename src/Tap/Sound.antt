-- ===== src/Tap/Sound.antt =====
-- What a recording of one market promises while its market lives on: src/tape/recorder/tap.py and
-- src/tape/recorder/supervisor.py.
use kalshi_trading_project.Prelude.{
  ℕ, ◌≡◌, sym, ap, ◌∙◌, Bool, true, false, Option, none, some, List, [], ◌∷◌, ◌++◌, arith,
}
use mathlib.Core.Bool.{false≢true}
use mathlib.Core.Path.{subst⁻¹}
use kalshi_trading_project.Prelude.Result.{Result, ok, err}
use kalshi_trading_project.Events.{BookSnapshot, BookDelta}
use kalshi_trading_project.Book.{
  Book, Violation, non_positive_count, duplicate_price, crossed_snapshot, negative_level,
  crossed_after_delta, apply_snapshot, apply_delta,
}
use kalshi_trading_project.Book.Invariant.{IsWellFormed, apply_snapshot-IsWellFormed}
use kalshi_trading_project.Book.Deltas.{DeltaOutcome}
use kalshi_trading_project.Book.Snapshots.{SnapshotOutcome, apply_snapshot-SnapshotOutcome}
use kalshi_trading_project.Book.Copies.{Follows, FollowsSnapshot, apply_snapshot-Follows, IsCopy}
use kalshi_trading_project.Tap.{
  BookObject, BookChange, snapshot_taken, delta_taken, BookImage, to_book, Recording, record_in,
}
use kalshi_trading_project.Tap.Replay.{
  replay, replay_all, replay_all-snoc, IsFollower, IsReplayed, snapshot-IsReplayed,
  delta-IsReplayed,
}
use Prim.Native.String.{String}
use kalshi_trading_project.Tap.Watch.{
  Market, hold_object, keep_change, snapshot_applied, snapshot_on, delta_applied,
}

-- Pairwise: each book on the right follows the one on the left.
abbrev pub AreFollowed : List Book → List Book → Type 0
AreFollowed [] [] = Unit
AreFollowed [] (b ∷ bs) = ⊥
AreFollowed (l ∷ ls) [] = ⊥
AreFollowed (l ∷ ls) (b ∷ bs) = IsFollower l b × AreFollowed ls bs

snoc-AreFollowed :
    (ls bs : List Book) (l b : Book)
    → AreFollowed ls bs
    → IsFollower l b
    → AreFollowed (ls ++ l ∷ []) (bs ++ b ∷ [])
snoc-AreFollowed [] [] l b h k = (k, tt)
snoc-AreFollowed [] (c ∷ bs) l b h k = elim h [ ]
snoc-AreFollowed (m ∷ ls) [] l b h k = elim h [ ]
snoc-AreFollowed (m ∷ ls) (c ∷ bs) l b h k = (h.0, snoc-AreFollowed ls bs l b h.1 k)

-- While the held book is fresh it is the recorded one, and the last state follows it.
abbrev pub IsWatched : Option ℕ → Option BookObject → Book → Type 0
IsWatched identity none last = Unit
IsWatched identity (some o) last =
    o.book.stale ≡ false → (identity ≡ some o.identity) × IsFollower o.book last

-- The events replay from the copy through a state for each book of the history.
pub record IsWhole (ticker : String) (r : Recording) (held : Option BookObject)
    (history : List Book) : Type 0 where
  pub image : BookImage
  pub first : Book
  pub last : Book
  pub states : List Book
  pub begins : r.start ≡ some image
  pub built : to_book ticker image ≡ ok first
  pub replayed : replay_all r.events first ≡ ok (last, states)
  pub followed : AreFollowed history states
  pub watched : IsWatched r.identity held last

abbrev pub IsHeldValid : Option BookObject → Type 0
IsHeldValid none = Unit
IsHeldValid (some o) = IsWellFormed o.book

pub record IsSound (ticker : String) (m : Market) : Type 0 where
  pub valid : IsHeldValid m.held
  pub whole : m.recording.fault ≡ none → IsWhole ticker m.recording m.held m.history

record_in-kept :
    (max_events : ℕ) (e : BookChange) (was_stale : Bool) (r : Recording)
    → (record_in max_events e was_stale r).fault ≡ none
    → (r.fault ≡ none)
      × (was_stale ≡ false)
      × (record_in max_events e was_stale r ≡ record r { events = r.events ++ e ∷ [] })
record_in-kept max_events e was_stale r h = ground arith

module _ (ticker : String) (max_events : ℕ) (m : Market) (sound : IsSound ticker m) where
  keep_change-IsSound :
      (e : BookChange) (was_stale : Bool) (identity : ℕ) (b : Book)
      → IsWellFormed b
      → ((last : Book)
          → was_stale ≡ false
          → IsWatched m.recording.identity m.held last
          → (m.recording.identity ≡ some identity) × IsReplayed b (replay e last))
      → IsSound ticker (keep_change max_events e was_stale b (hold_object identity b m))
  keep_change-IsSound e was_stale identity b valid next = record {
    valid = valid;
    whole = λ h.
        let (no_fault, fresh, same) = record_in-kept max_events e was_stale m.recording h in
        let w = sound.whole no_fault in
        let (known, (c, is_c, follows)) = next w.last fresh w.watched in
        subst⁻¹
          (λ r.
            IsWhole ticker r (some (record { identity = identity; book = b }))
              (m.history ++ b ∷ []))
          same
          (record {
            image = w.image;
            first = w.first;
            last = c;
            states = w.states ++ c ∷ [];
            begins = w.begins;
            built = w.built;
            replayed =
                replay_all-snoc m.recording.events e w.first w.last c w.states w.replayed is_c;
            followed = snoc-AreFollowed m.history w.states b c w.followed follows;
            watched = λ _. (known, follows);
          });
  }

  pub stale-IsSound :
      (identity : ℕ) (b : Book)
      → IsWellFormed b
      → b.stale ≡ true
      → IsSound ticker (hold_object identity b m)
  stale-IsSound identity b valid stale = record {
    valid = valid;
    whole = λ h.
        let w = sound.whole h in
        record {
          image = w.image;
          first = w.first;
          last = w.last;
          states = w.states;
          begins = w.begins;
          built = w.built;
          replayed = w.replayed;
          followed = w.followed;
          watched = λ e. absurd (false≢true (sym e ∙ stale));
        };
  }

  pub dropped-IsSound : IsSound ticker (record m { held = none })
  dropped-IsSound = record {
    valid = tt;
    whole = λ h.
        let w = sound.whole h in
        record {
          image = w.image;
          first = w.first;
          last = w.last;
          states = w.states;
          begins = w.begins;
          built = w.built;
          replayed = w.replayed;
          followed = w.followed;
          watched = tt;
        };
  }

  -- What a recording that is sound knows of an object whose book is fresh.
  abbrev pub IsKnown : BookObject → Type 0
  IsKnown o =
      (last : Book)
      → o.book.stale ≡ false
      → IsWatched m.recording.identity m.held last
      → (m.recording.identity ≡ some o.identity) × IsFollower o.book last

  snapshot_applied-IsSound :
      (s : BookSnapshot) (o : BookObject) (x : Result Violation (Unit {0})) (b : Book)
      → IsKnown o
      → IsWellFormed b
      → SnapshotOutcome s.bids s.asks s.ts_ms o.book x b
      → ((c : Book) → FollowsSnapshot (x, b) (apply_snapshot s.bids s.asks s.ts_ms c))
      → IsSound ticker (snapshot_applied max_events s o.identity o.book.stale m (x, b))
  snapshot_applied-IsSound s o (err v) b known valid outcome follows =
      stale-IsSound o.identity b valid (ap (λ (z : Book). z.stale) outcome.1)
  snapshot_applied-IsSound s o (ok done) b known valid outcome follows =
      keep_change-IsSound (snapshot_taken s) o.book.stale o.identity b valid (λ last fresh w.
        let (same, f) = known last fresh w in
        (same, snapshot-IsReplayed s o.book last b f outcome (follows last)))

  pub snapshot_on-IsSound :
      (s : BookSnapshot) (o : BookObject)
      → IsKnown o
      → IsWellFormed o.book
      → IsSound ticker (snapshot_on max_events s o m)
  snapshot_on-IsSound s o known valid =
      snapshot_applied-IsSound s o _ _ known (apply_snapshot-IsWellFormed _ _ _ _ valid)
        (apply_snapshot-SnapshotOutcome _ _ _ _) (λ c. apply_snapshot-Follows _ _ _ _ c)

  pub delta_applied-IsSound :
      (d : BookDelta) (o : BookObject) (x : Result Violation Bool) (b : Book)
      → IsKnown o
      → IsWellFormed b
      → DeltaOutcome d.side d.price d.delta d.ts_ms o.book x b
      → ((c : Book)
          → IsWellFormed c
          → IsCopy o.book c
          → Follows (x, b) (apply_delta d.side d.price d.delta d.ts_ms c))
      → IsSound ticker (delta_applied max_events d o.identity m (x, b))
  delta_applied-IsSound d o (ok false) b known valid (stale, same) follows =
      stale-IsSound o.identity b valid (ap (λ (z : Book). z.stale) same ∙ stale)
  delta_applied-IsSound d o (ok true) b known valid outcome follows =
      keep_change-IsSound (delta_taken d) false o.identity b valid (λ last fresh w.
        let (same, f) = known last outcome.0 w in
        (same, delta-IsReplayed d last b f.valid (follows last f.valid (λ e. (f.fresh, f.same)))))
  delta_applied-IsSound d o (err (negative_level t q)) b known valid outcome follows =
      stale-IsSound o.identity b valid (ap (λ (z : Book). z.stale) outcome.2)
  delta_applied-IsSound d o (err crossed_after_delta) b known valid outcome follows =
      stale-IsSound o.identity b valid outcome.1
  delta_applied-IsSound d o (err (non_positive_count t q)) b known valid outcome follows =
      absurd outcome
  delta_applied-IsSound d o (err (duplicate_price t q)) b known valid outcome follows =
      absurd outcome
  delta_applied-IsSound d o (err crossed_snapshot) b known valid outcome follows = absurd outcome
