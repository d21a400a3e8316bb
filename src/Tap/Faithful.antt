-- ===== src/Tap/Faithful.antt =====
-- What a window without a fault shows: src/tape/recorder/tap.py and src/tape/recorder/supervisor.py.
use kalshi_trading_project.Prelude.{
  ℕ, ◌+◌, ◌≡◌, refl, sym, false, Option, none, some, List, [], ◌∷◌, arith, if_cases,
}
use mathlib.Core.Bool.{false≢true}
use mathlib.Core.Path.{subst}
use kalshi_trading_project.Prelude.Result.{ok}
use kalshi_trading_project.Events.{BookSnapshot, BookDelta}
use kalshi_trading_project.Book.{Book, new_book, mark_stale}
use kalshi_trading_project.Book.Invariant.{
  new_book-IsWellFormed, apply_delta-IsWellFormed, mark_stale-IsWellFormed,
}
use kalshi_trading_project.Book.Deltas.{apply_delta-DeltaOutcome}
use kalshi_trading_project.Book.Copies.{apply_delta-Follows}
use kalshi_trading_project.Tap.{
  BookObject, BookImage, image_of_book, to_book, TapWindow, opened_at, is_lost, finish, TapFault,
  final_fault,
}
use kalshi_trading_project.Tap.Replay.{replay_all, IsFollower, to_book-image_of_book}
use Prim.Native.String.{String}
use kalshi_trading_project.Tap.Watch.{
  Market, Happening, takes_snapshot, takes_delta, goes_stale, is_dropped, on_snapshot, on_delta,
  on_stale, happen, watch,
}
use kalshi_trading_project.Tap.Sound.{
  AreFollowed, IsWatched, IsHeldValid, IsSound, IsKnown, stale-IsSound, dropped-IsSound,
  snapshot_on-IsSound, delta_applied-IsSound,
}

module _ (ticker : String) (max_events : ℕ) (m : Market) (sound : IsSound ticker m) where
  held-IsKnown : (o : BookObject) → m.held ≡ some o → IsKnown ticker max_events m sound o
  held-IsKnown o e last fresh w = subst (λ held. IsWatched m.recording.identity held last) e w fresh

  on_snapshot-IsSound :
      (s : BookSnapshot) (held : Option BookObject)
      → m.held ≡ held
      → IsSound ticker (on_snapshot max_events s m held)
  on_snapshot-IsSound s none e =
      snapshot_on-IsSound ticker max_events (record m { next_identity = m.next_identity + 1 })
        (record { valid = sound.valid; whole = sound.whole }) s
        (record { identity = m.next_identity; book = new_book s.ticker })
        (λ last fresh w. absurd (false≢true (sym fresh))) (new_book-IsWellFormed s.ticker)
  on_snapshot-IsSound s (some o) e =
      snapshot_on-IsSound ticker max_events m sound s o (held-IsKnown o e)
        (subst IsHeldValid e sound.valid)

  on_delta-IsSound :
      (d : BookDelta) (held : Option BookObject)
      → m.held ≡ held
      → IsSound ticker (on_delta max_events d m held)
  on_delta-IsSound d none e = sound
  on_delta-IsSound d (some o) e =
      let valid = subst IsHeldValid e sound.valid in
      delta_applied-IsSound ticker max_events m sound d o _ _ (held-IsKnown o e)
        (apply_delta-IsWellFormed _ _ _ _ _ valid) (apply_delta-DeltaOutcome _ _ _ _ _ valid)
        (λ c k copy. apply_delta-Follows _ _ _ _ _ c valid k copy)

  on_stale-IsSound : (held : Option BookObject) → m.held ≡ held → IsSound ticker (on_stale m held)
  on_stale-IsSound none e = sound
  on_stale-IsSound (some o) e =
      stale-IsSound ticker max_events m sound o.identity (mark_stale o.book)
        (mark_stale-IsWellFormed (subst IsHeldValid e sound.valid)) (unfold mark_stale in refl)

pub happen-IsSound :
    (ticker : String) (max_events : ℕ) (h : Happening) (m : Market)
    → IsSound ticker m
    → IsSound ticker (happen max_events h m)
unfolding happen
happen-IsSound ticker max_events (takes_snapshot s) m sound =
    on_snapshot-IsSound ticker max_events m sound s m.held refl
happen-IsSound ticker max_events (takes_delta d) m sound =
    on_delta-IsSound ticker max_events m sound d m.held refl
happen-IsSound ticker max_events goes_stale m sound =
    on_stale-IsSound ticker max_events m sound m.held refl
happen-IsSound ticker max_events is_dropped m sound = dropped-IsSound ticker max_events m sound

pub watch-IsSound :
    (ticker : String) (max_events : ℕ) (hs : List Happening) (m : Market)
    → IsSound ticker m
    → IsSound ticker (watch max_events hs m)
unfolding watch
watch-IsSound ticker max_events [] m sound = sound
watch-IsSound ticker max_events (h ∷ hs) m sound =
    watch-IsSound ticker max_events hs (happen max_events h m)
      (happen-IsSound ticker max_events h m sound)

-- A market when a tap opens over it.
abbrev pub opened : Option BookObject → ℕ → Market
opened held next_identity = record {
  held = held;
  next_identity = next_identity;
  recording = opened_at held;
  history = [];
}

pub opened-IsSound :
    (ticker : String) (held : Option BookObject) (next_identity : ℕ)
    → IsHeldValid held
    → IsSound ticker (opened held next_identity)
opened-IsSound ticker none n valid = record { valid = tt; whole = λ h. ground arith }
opened-IsSound ticker (some o) n valid =
    if_cases
      (λ r.
        IsSound ticker (record { held = some o; next_identity = n; recording = r; history = [] }))
      o.book.stale (λ stale. record { valid = valid; whole = λ h. ground arith })
      (λ fresh.
        let (b, built, f) = to_book-image_of_book ticker o.book valid fresh in
        record {
          valid = valid;
          whole = λ h. record {
            image = image_of_book o.book;
            first = b;
            last = b;
            states = [];
            begins = refl;
            built = built;
            replayed = unfold replay_all in refl;
            followed = tt;
            watched = λ e. (refl, f);
          };
        })

-- What a window without a fault shows of the books of the window: its events replay from its start,
-- each state follows the book of its time, and the last one the book held at the end, which is fresh.
pub record IsFaithful (w : TapWindow) (held : Option BookObject) (history : List Book)
    : Type 0 where
  pub image : BookImage
  pub first : Book
  pub last : Book
  pub states : List Book
  pub object : BookObject
  pub begins : w.start ≡ some image
  pub built : to_book w.ticker image ≡ ok first
  pub replayed : replay_all w.events first ≡ ok (last, states)
  pub followed : AreFollowed history states
  pub is_held : held ≡ some object
  pub held_fresh : object.book.stale ≡ false
  pub held_followed : IsFollower object.book last

IsSound-IsFaithful :
    (ticker : String) (m : Market) (held : Option BookObject) (fault : Option TapFault)
    → IsSound ticker m
    → m.held ≡ held
    → m.recording.fault ≡ fault
    → final_fault fault (is_lost held m.recording.identity) ≡ none
    → IsFaithful (finish ticker m.held m.recording) m.held m.history
unfolding finish
IsSound-IsFaithful ticker m held (some f) sound e k h = ground arith
IsSound-IsFaithful ticker m none none sound e k h = ground arith
IsSound-IsFaithful ticker m (some o) none sound e k h =
    let w = sound.whole k in
    let fresh : o.book.stale ≡ false = ground arith in
    record {
      image = w.image;
      first = w.first;
      last = w.last;
      states = w.states;
      object = o;
      begins = w.begins;
      built = w.built;
      replayed = w.replayed;
      followed = w.followed;
      is_held = e;
      held_fresh = fresh;
      held_followed =
          (subst (λ held. IsWatched m.recording.identity held w.last) e w.watched fresh).1;
    }

-- A tap opened on a market whose book, if it has one, is well formed: whatever snapshots, deltas, marks as
-- stale and droppings happen then, if the window closes without a fault then it has a start image
-- that builds, its events replay from it, the states after them follow the books after the changes
-- that the market took one for one, fresh and with their levels, and the book held at the end is
-- fresh and followed by the last state.
pub finish-IsFaithful :
    (ticker : String) (max_events : ℕ) (held : Option BookObject) (next_identity : ℕ)
    (hs : List Happening)
    → IsHeldValid held
    → (finish ticker
        (watch max_events hs (opened held next_identity)).held
        (watch max_events hs (opened held next_identity)).recording).fault
      ≡ none
    → IsFaithful
        (finish ticker
          (watch max_events hs (opened held next_identity)).held
          (watch max_events hs (opened held next_identity)).recording)
        (watch max_events hs (opened held next_identity)).held
        (watch max_events hs (opened held next_identity)).history
finish-IsFaithful ticker max_events held n hs valid h =
    IsSound-IsFaithful ticker (watch max_events hs (opened held n)) _ _
      (watch-IsSound ticker max_events hs _ (opened-IsSound ticker held n valid)) refl refl
      (unfold finish in h)
