-- ===== src/Tap/Windows.antt =====
-- The windows that src/tape/recorder/tap.py builds pass the tests of their constructor.
use kalshi_trading_project.Prelude.{
  ℕ, ◌+◌, ◌≤◌, ◌≡◌, refl, sym, ◌∙◌, ◌==◌, ◌&&◌, not, Bool, true, false, Option, none, some, List,
  [], ◌∷◌, length, length-append, arith, if◌then◌else◌, if_cases,
}
use kalshi_trading_project.Prelude.Result.{Result, ok, err}
use kalshi_trading_project.Events.{BookSnapshot, BookDelta}
use kalshi_trading_project.Book.{Book, Violation, new_book}
use kalshi_trading_project.Tap.{
  BookObject, BookChange, snapshot_taken, delta_taken, TapFault, is_no_book, is_absent,
  is_constructed, Recording, opened_at, record_in, final_fault, is_lost, finish,
}
use kalshi_trading_project.Tap.Watch.{
  Market, Happening, takes_snapshot, takes_delta, goes_stale, is_dropped, snapshot_applied,
  on_snapshot, delta_applied, on_delta, on_stale, happen, watch,
}
use kalshi_trading_project.Tap.Faithful.{opened}
use Prim.Native.String.{String}

-- A start copy is absent exactly when there was no book; then nothing is recorded, and never more than
-- the tap holds.
abbrev pub IsRecording : ℕ → Recording → Type 0
IsRecording max_events r =
    (is_absent r.start ≡ is_no_book r.fault)
    × (is_absent r.start ≡ true → r.events ≡ [])
    × (length r.events ≤ max_events)

opened_at-IsRecording :
    (max_events : ℕ) (held : Option BookObject) → IsRecording max_events (opened_at held)
opened_at-IsRecording max_events none = (refl, λ e. refl, omega arith)
opened_at-IsRecording max_events (some o) =
    if_cases (IsRecording max_events) o.book.stale (λ e. (refl, λ e. refl, omega arith))
      (λ e. (refl, λ e. refl, omega arith))

record_in-IsRecording :
    (max_events : ℕ) (c : BookChange) (was_stale : Bool) (r : Recording)
    → IsRecording max_events r
    → IsRecording max_events (record_in max_events c was_stale r)
record_in-IsRecording max_events c was_stale r h = (
  ground (arith, h.0),
  λ e. ground (arith, h.0, h.1),
  ground (arith, length-append r.events (c ∷ []), h.2),
)

module _ (max_events : ℕ) (m : Market) (h : IsRecording max_events m.recording) where
  snapshot_on-IsRecording :
      (s : BookSnapshot) (o : BookObject) (x : Result Violation (Unit {0})) (b : Book)
      → IsRecording max_events
          (snapshot_applied max_events s o.identity o.book.stale m (x, b)).recording
  snapshot_on-IsRecording s o (ok done) b =
      record_in-IsRecording max_events (snapshot_taken s) o.book.stale m.recording h
  snapshot_on-IsRecording s o (err v) b = h

  made-IsRecording :
      (s : BookSnapshot) (x : Result Violation (Unit {0})) (b : Book)
      → IsRecording max_events
          (snapshot_applied max_events s m.next_identity
            (new_book s.ticker).stale
            (record m { next_identity = m.next_identity + 1 })
            (x, b)).recording
  made-IsRecording s (ok done) b =
      record_in-IsRecording max_events (snapshot_taken s) (new_book s.ticker).stale m.recording h
  made-IsRecording s (err v) b = h

  delta_applied-IsRecording :
      (d : BookDelta) (identity : ℕ) (x : Result Violation Bool) (b : Book)
      → IsRecording max_events (delta_applied max_events d identity m (x, b)).recording
  delta_applied-IsRecording d identity (ok true) b =
      record_in-IsRecording max_events (delta_taken d) false m.recording h
  delta_applied-IsRecording d identity (ok false) b = h
  delta_applied-IsRecording d identity (err v) b = h

  on_snapshot-IsRecording :
      (s : BookSnapshot) (held : Option BookObject)
      → IsRecording max_events (on_snapshot max_events s m held).recording
  on_snapshot-IsRecording s none = made-IsRecording s _ _
  on_snapshot-IsRecording s (some o) = snapshot_on-IsRecording s o _ _

  on_delta-IsRecording :
      (d : BookDelta) (held : Option BookObject)
      → IsRecording max_events (on_delta max_events d m held).recording
  on_delta-IsRecording d none = h
  on_delta-IsRecording d (some o) = delta_applied-IsRecording d o.identity _ _

  on_stale-IsRecording :
      (held : Option BookObject) → IsRecording max_events (on_stale m held).recording
  on_stale-IsRecording none = h
  on_stale-IsRecording (some o) = h

happen-IsRecording :
    (max_events : ℕ) (e : Happening) (m : Market)
    → IsRecording max_events m.recording
    → IsRecording max_events (happen max_events e m).recording
unfolding happen
happen-IsRecording max_events (takes_snapshot s) m h =
    on_snapshot-IsRecording max_events m h s m.held
happen-IsRecording max_events (takes_delta d) m h = on_delta-IsRecording max_events m h d m.held
happen-IsRecording max_events goes_stale m h = on_stale-IsRecording max_events m h m.held
happen-IsRecording max_events is_dropped m h = h

watch-IsRecording :
    (max_events : ℕ) (hs : List Happening) (m : Market)
    → IsRecording max_events m.recording
    → IsRecording max_events (watch max_events hs m).recording
unfolding watch
watch-IsRecording max_events [] m h = h
watch-IsRecording max_events (e ∷ hs) m h =
    watch-IsRecording max_events hs (happen max_events e m) (happen-IsRecording max_events e m h)

finish_fault :
    (fault : Option TapFault) (lost : Bool) → is_no_book (final_fault fault lost) ≡ is_no_book fault
finish_fault (some f) lost = refl
finish_fault none true = refl
finish_fault none false = refl

finish-is_constructed :
    (ticker : String) (max_events : ℕ) (held : Option BookObject) (r : Recording)
    → IsRecording max_events r
    → is_constructed (finish ticker held r) ≡ true
unfolding finish is_constructed
finish-is_constructed ticker max_events held r h =
    go (is_absent r.start) r.events (is_no_book (final_fault r.fault (is_lost held r.identity)))
      (h.0 ∙ sym (finish_fault r.fault (is_lost held r.identity))) h.1
  where
    go :
        (x : Bool) (es : List BookChange) (y : Bool)
        → x ≡ y
        → (x ≡ true → es ≡ [])
        → (if x then y && (length es == 0) else not y) ≡ true
    go true [] true e k = refl
    go true (c ∷ es) true e k = ground (arith, k)
    go true es false e k = ground arith
    go false es false e k = refl
    go false es true e k = ground arith

-- Whatever happens to a market while a tap is open, the window passes the tests of its constructor, so
-- closing the tap raises nothing, and it holds at most as many events as the tap allows.
pub watch-is_constructed :
    (ticker : String) (max_events : ℕ) (held : Option BookObject) (next_identity : ℕ)
    (hs : List Happening)
    → (is_constructed (
          finish ticker
            (watch max_events hs (opened held next_identity)).held
            (watch max_events hs (opened held next_identity)).recording)
        ≡ true)
      × (length (watch max_events hs (opened held next_identity)).recording.events ≤ max_events)
watch-is_constructed ticker max_events held n hs =
    let h =
      watch-IsRecording max_events hs (opened held n) (opened_at-IsRecording max_events held) in
    (finish-is_constructed ticker max_events _ _ h, h.2)
