-- ===== src/Tap/Replay.antt =====
-- src/tape/recorder/auditor.py `_replay`: changes applied to a book built from an image, and that they
-- follow the live book.
use kalshi_trading_project.Prelude.{
  ℕ, ◌≡◌, refl, sym, ap, ◌∙◌, Bool, true, false, none, some, List, [], ◌∷◌, ◌++◌, arith, ◌≢◌,
}
use kalshi_trading_project.Prelude.Eq.{nat_eq}
use kalshi_trading_project.Prelude.Dict.{has}
use kalshi_trading_project.Prelude.Result.{Result, ok, err, ◌>>=◌, bind_ok, of_ok}
use kalshi_trading_project.Events.{Side, bid, ask, Level, BookSnapshot, BookDelta}
use kalshi_trading_project.Book.{Book, Violation, new_book, apply_snapshot, apply_delta}
use kalshi_trading_project.Book.Invariant.{
  IsWellFormed, new_book-IsWellFormed, apply_snapshot-IsWellFormed, apply_delta-IsWellFormed,
}
use kalshi_trading_project.Book.Snapshots.{
  listed, AreValid, AreAccepted, SnapshotOutcome, apply_snapshot-SnapshotOutcome,
}
use kalshi_trading_project.Book.Views.{levels}
use kalshi_trading_project.Book.Views.Ladder.{levels-IsLadder, better-listed, IsLadder}
use kalshi_trading_project.Book.Copies.{AreSameLevels, Follows, FollowsSnapshot}
use kalshi_trading_project.Tap.{
  BookChange, snapshot_taken, delta_taken, image_of_book, taken, to_book,
}
use Prim.Native.String.{String}

abbrev pub changed_book : {A : Type 0} → Result Violation A × Book → Result Violation Book
changed_book (ok done, b) = ok b
changed_book (err v, b) = err v

unfoldable pub replay : BookChange → Book → Result Violation Book
replay (snapshot_taken s) b = changed_book (apply_snapshot s.bids s.asks s.ts_ms b)
replay (delta_taken d) b = changed_book (apply_delta d.side d.price d.delta d.ts_ms b)

-- The last book and the book after each change.
unfoldable pub replay_all : List BookChange → Book → Result Violation (Book × List Book)
unfolding replay
replay_all [] b = ok (b, [])
replay_all (e ∷ es) b = replay e b >>= λ c. replay_all es c >>= λ rest. ok (rest.0, c ∷ rest.1)

pub replay_all-snoc :
    (es : List BookChange) (e : BookChange) (b c d : Book) (ss : List Book)
    → replay_all es b ≡ ok (c, ss)
    → replay e c ≡ ok d
    → replay_all (es ++ e ∷ []) b ≡ ok (d, ss ++ d ∷ [])
unfolding replay_all
replay_all-snoc [] e b c d ss h k =
    of_ok
      (λ (x : Book × List Book).
        replay e x.0 ≡ ok d → replay_all (e ∷ []) b ≡ ok (d, x.1 ++ d ∷ []))
      (b, []) (c, ss) h (λ k. ap (λ r. r >>= λ c'. ok (c', c' ∷ [])) k) k
replay_all-snoc (x ∷ es) e b c d ss h k =
    let (c1, is_c1, h1) = bind_ok (replay x b) _ _ h in
    let (rest, is_rest, h2) = bind_ok (replay_all es c1) _ _ h1 in
    of_ok
      (λ (y : Book × List Book).
        replay e y.0 ≡ ok d → replay_all (x ∷ es ++ e ∷ []) b ≡ ok (d, y.1 ++ d ∷ []))
      (rest.0, c1 ∷ rest.1) (c, ss) h2
      (λ k.
        ap (λ r. r >>= λ c'. replay_all (es ++ e ∷ []) c' >>= λ rest. ok (rest.0, c' ∷ rest.1))
          is_c1
        ∙ ap (λ r. r >>= λ rest. ok (rest.0, c1 ∷ rest.1))
            (replay_all-snoc es e c1 rest.0 d rest.1 is_rest k))
      k

-- A book that follows the live one: fresh, well formed, and at its levels.
pub record IsFollower (live b : Book) : Type 0 where
  pub valid : IsWellFormed b
  pub fresh : b.stale ≡ false
  pub same : AreSameLevels live b

IsLadder-AreValid :
    (s : Side) (ls : List Level) → IsLadder s ls → ((q : ℕ) → listed q ls ≢ some 0) → AreValid ls
unfolding listed
IsLadder-AreValid s [] h k = tt
IsLadder-AreValid bid (l ∷ ls) h k = (
  ground (arith, k l.price),
  ground (arith, better-listed bid l.price l.price ls h.0),
  IsLadder-AreValid bid ls h.1 (λ q e. ground (arith, k q, better-listed bid l.price q ls h.0)),
)
IsLadder-AreValid ask (l ∷ ls) h k = (
  ground (arith, k l.price),
  ground (arith, better-listed ask l.price l.price ls h.0),
  IsLadder-AreValid ask ls h.1 (λ q e. ground (arith, k q, better-listed ask l.price q ls h.0)),
)

-- The image of a fresh book is a snapshot that is accepted.
levels-AreAccepted :
    (b : Book) → IsWellFormed b → b.stale ≡ false → AreAccepted (levels bid b) (levels ask b)
levels-AreAccepted b h fresh =
    let bids = levels-IsLadder bid b h in
    let asks = levels-IsLadder ask b h in
    (
      IsLadder-AreValid bid _ bids.0 (λ q e. (h.sides bid).1 q (sym (bids.1 q) ∙ e)),
      IsLadder-AreValid ask _ asks.0 (λ q e. (h.sides ask).1 q (sym (asks.1 q) ∙ e)),
      λ p q i j. h.uncrossed fresh p q (sym (ap has (bids.1 p)) ∙ i) (sym (ap has (asks.1 q)) ∙ j),
    )

-- The book built from the image of a fresh book follows it.
abbrev pub IsStart : Book → Result Violation Book → Type 0
IsStart live r = (b : Book) × (r ≡ ok b) × IsFollower live b

started :
    (ticker : String) (live b : Book) (x : Result Violation (Unit {0}))
    → IsWellFormed live
    → live.stale ≡ false
    → IsWellFormed b
    → SnapshotOutcome (levels bid live) (levels ask live) none (new_book ticker) x b
    → IsStart live (taken (x, b))
started ticker live b (err v) h fresh valid o = absurd (o.0 (levels-AreAccepted live h fresh))
started ticker live b (ok done) h fresh valid o =
    (b, refl, record { valid = valid; fresh = o.2; same = λ s q. same s q })
  where
    same : AreSameLevels live b
    same bid q = sym (o.4 q ∙ (levels-IsLadder bid live h).1 q)
    same ask q = sym (o.5 q ∙ (levels-IsLadder ask live h).1 q)

pub to_book-image_of_book :
    (ticker : String) (live : Book)
    → IsWellFormed live
    → live.stale ≡ false
    → IsStart live (to_book ticker (image_of_book live))
unfolding to_book image_of_book
to_book-image_of_book ticker live h fresh =
    started ticker live _ _ h fresh
      (apply_snapshot-IsWellFormed _ _ _ _ (new_book-IsWellFormed ticker))
      (apply_snapshot-SnapshotOutcome (levels bid live) (levels ask live) none (new_book ticker))

-- A change that the live book takes is taken by a book that follows it.
abbrev pub IsReplayed : Book → Result Violation Book → Type 0
IsReplayed live r = (b : Book) × (r ≡ ok b) × IsFollower live b

snapshot_followed :
    (live b : Book) (y : Result Violation (Unit {0}))
    → IsWellFormed b
    → live.stale ≡ false
    → FollowsSnapshot (ok tt, live) (y, b)
    → IsReplayed live (changed_book (y, b))
snapshot_followed live b y valid fresh h = (
  b,
  ap (λ y. changed_book (y, b)) h.0,
  record { valid = valid; fresh = (h.1 fresh).0; same = (h.1 fresh).1 },
)

pub snapshot-IsReplayed :
    (s : BookSnapshot) (live b live' : Book)
    → IsFollower live b
    → SnapshotOutcome s.bids s.asks s.ts_ms live (ok tt) live'
    → FollowsSnapshot (ok tt, live') (apply_snapshot s.bids s.asks s.ts_ms b)
    → IsReplayed live' (replay (snapshot_taken s) b)
unfolding replay
snapshot-IsReplayed s live b live' f o h =
    snapshot_followed live' _ _ (apply_snapshot-IsWellFormed _ _ _ _ f.valid) o.2 h

delta_followed :
    (live b : Book) (y : Result Violation Bool)
    → IsWellFormed b
    → Follows (ok true, live) (y, b)
    → IsReplayed live (changed_book (y, b))
delta_followed live b y valid h =
    (b, ap (λ y. changed_book (y, b)) h.0, record { valid = valid; fresh = h.1; same = h.2 })

pub delta-IsReplayed :
    (d : BookDelta) (b live' : Book)
    → IsWellFormed b
    → Follows (ok true, live') (apply_delta d.side d.price d.delta d.ts_ms b)
    → IsReplayed live' (replay (delta_taken d) b)
unfolding replay
delta-IsReplayed d b live' valid h =
    delta_followed live' _ _ (apply_delta-IsWellFormed _ _ _ _ _ valid) h
